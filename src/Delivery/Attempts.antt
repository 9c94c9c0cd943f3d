-- ===== src/Delivery/Attempts.antt =====
-- What one delivery does to its row, to the other rows and to the recorded health of peers
-- (deliver of internal/activitypub/delivery_queue.go).
use apoci.Prelude.{
  ℕ, ◌+◌, ◌*◌, ◌^◌, ◌≤◌, min, ap, Option, ◌≡◌, refl, Bool, true, false, none, some, Text, codes,
  arith, ◌==◌,
}
use apoci.Urls.{Urls}
use apoci.Delivery.{
  Delivery, Status, pending, failed, backoff, delivered, set_delivered, set_failed, mark_delivered,
  mark_delivery_failed, status_after, update_rows,
}
use apoci.Delivery.Rows.{row_at, row_at-update_rows}
use apoci.Delivery.Worker.{
  Worker, Outcome, inbox_domain, deliver, check_circuit, note_failure, note_success,
}

-- The circuit of the inbox's domain is open when the delivery starts.
unfoldable pub skipped : Urls → Outcome → Delivery → Worker → Bool
unfolding check_circuit
skipped urls o d w = (check_circuit o.start (inbox_domain urls d.inbox_url) w).1

-- What the outcome records in the row.
abbrev pub recorded : Outcome → Bool → Delivery → Delivery → Delivery
recorded o true d = set_failed o.start d.attempts d.max_attempts (codes "circuit open")
recorded o false d = elim o.error [
  | some message ↦ set_failed o.finish d.attempts d.max_attempts message
  | none ↦ set_delivered
]

queue_of_checked :
    (now : ℕ) (domain : Text) (w : Worker) → (check_circuit now domain w).0.queue ≡ w.queue
unfolding check_circuit
queue_of_checked now domain w = ground arith

queue_of_failure :
    (o : Outcome) (domain : Text) (w : Worker) → (note_failure o domain w).queue ≡ w.queue
unfolding note_failure
queue_of_failure o domain w = ground arith

queue_of_success :
    (o : Outcome) (domain : Text) (w : Worker) → (note_success o domain w).queue ≡ w.queue
unfolding note_success
queue_of_success o domain w = ground arith

-- A delivery is one UPDATE of the row with its id, by what it records.
pub deliver_rows :
    (urls : Urls) (o : Outcome) (d : Delivery) (w : Worker)
    → o.mark_fails ≡ false
    → (deliver urls o d w).queue.rows
      ≡ update_rows d.id (recorded o (skipped urls o d w) d) w.queue.rows
unfolding deliver mark_delivered mark_delivery_failed skipped
deliver_rows urls o d w ok =
    let domain = inbox_domain urls d.inbox_url in
    let w' = (check_circuit o.start domain w).0 in
    ground (
      arith,
      queue_of_checked o.start domain w,
      queue_of_failure o domain w',
      queue_of_success o domain w',
    )

-- The status that a delivery leaves.
abbrev pub status_left : Outcome → Bool → Delivery → Status
status_left o true d = status_after d.attempts d.max_attempts
status_left o false d = elim o.error [
  | some message ↦ status_after d.attempts d.max_attempts
  | none ↦ delivered
]

module _ (o : Outcome) (d : Delivery) where
  pub recorded_lem :
      (skip : Bool) (r : Delivery)
      → ((recorded o skip d r).id ≡ r.id)
        × ((recorded o skip d r).attempts ≡ r.attempts + 1)
        × ((recorded o skip d r).max_attempts ≡ r.max_attempts)
        × ((recorded o skip d r).status ≡ status_left o skip d)
  recorded_lem true r = (refl, refl, refl, refl)
  recorded_lem false r = ground arith

-- A row through a delivery that succeeds: what it counts, its status, and the other rows.
pub deliver-counts :
    (urls : Urls) (o : Outcome) (d r : Delivery) (w : Worker)
    → o.mark_fails ≡ false
    → row_at d.id w.queue.rows ≡ some r
    → let rows' = (deliver urls o d w).queue.rows in
      (r' : Delivery) × (row_at d.id rows' ≡ some r')
      × (r'.attempts ≡ r.attempts + 1)
      × (r'.max_attempts ≡ r.max_attempts)
      × (r'.status ≡ status_left o (skipped urls o d w) d)
      × ((j : ℕ) → (d.id == j) ≡ false → row_at j rows' ≡ row_at j w.queue.rows)
deliver-counts urls o d r w ok h =
    let skip = skipped urls o d w in
    let f = recorded o skip d in
    let facts = recorded_lem o d skip in
    (
      f r,
      rw
          (
            deliver_rows urls o d w ok,
            row_at-update_rows d.id d.id f w.queue.rows (λ x. (facts x).0),
            h,
          )
          (ground arith),
      (facts r).1,
      (facts r).2,
      (facts r).3,
      λ j ne. rw (
        deliver_rows urls o d w ok,
        row_at-update_rows d.id j f w.queue.rows (λ x. (facts x).0),
        ne,
      ),
    )

-- The row after an attempt that failed, with the copy that the worker read: the attempt is counted,
-- the message kept, and the next attempt put off by 2^attempts seconds, at most 2^12; it has failed
-- for good where this was the last attempt of the copy. All else is as it was.
pub record IsRetried (now : ℕ) (message : Text) (d r r' : Delivery) : Type 0 where
  pub same_id : r'.id ≡ r.id
  pub same_activity : r'.activity_id ≡ r.activity_id
  pub same_inbox : r'.inbox_url ≡ r.inbox_url
  pub same_body : r'.activity_json ≡ r.activity_json
  pub same_maximum : r'.max_attempts ≡ r.max_attempts
  pub same_creation : r'.created_at ≡ r.created_at
  pub counted : r'.attempts ≡ r.attempts + 1
  pub told : r'.last_error ≡ some message
  pub doubled : d.attempts ≤ 12 → r'.next_attempt_at ≡ now + 2 ^ d.attempts * 1_000_000_000
  pub capped : 12 ≤ d.attempts → r'.next_attempt_at ≡ now + 4096 * 1_000_000_000
  pub exhausted : d.max_attempts ≤ d.attempts + 1 → r'.status ≡ failed
  pub goes_on : d.attempts + 2 ≤ d.max_attempts → r'.status ≡ pending

-- The row after an attempt that succeeded.
pub record IsDone (r r' : Delivery) : Type 0 where
  pub same_id : r'.id ≡ r.id
  pub same_activity : r'.activity_id ≡ r.activity_id
  pub same_inbox : r'.inbox_url ≡ r.inbox_url
  pub same_body : r'.activity_json ≡ r.activity_json
  pub same_maximum : r'.max_attempts ≡ r.max_attempts
  pub same_creation : r'.created_at ≡ r.created_at
  pub same_error : r'.last_error ≡ r.last_error
  pub same_time : r'.next_attempt_at ≡ r.next_attempt_at
  pub counted : r'.attempts ≡ r.attempts + 1
  pub is_delivered : r'.status ≡ delivered

abbrev IsAnswered : ℕ → Option Text → Delivery → Delivery → Delivery → Type 0
IsAnswered finish (some message) d r r' = IsRetried finish message d r r'
IsAnswered finish none d r r' = IsDone r r'

-- The row after a delivery, which was skipped at an open circuit or answered by the peer.
abbrev pub IsLeft : Outcome → Bool → Delivery → Delivery → Delivery → Type 0
IsLeft o true d r r' = IsRetried o.start (codes "circuit open") d r r'
IsLeft o false d r r' = IsAnswered o.finish o.error d r r'

backoff_short : (a : ℕ) → a ≤ 12 → backoff a ≡ 2 ^ a * 1_000_000_000
backoff_short a h = let same : min a 12 ≡ a = omega arith in ap (λ n. 2 ^ n * 1_000_000_000) same

backoff_long : (a : ℕ) → 12 ≤ a → backoff a ≡ 4096 * 1_000_000_000
backoff_long a h = let same : min a 12 ≡ 12 = omega arith in ap (λ n. 2 ^ n * 1_000_000_000) same

set_failed-IsRetried :
    (now : ℕ) (message : Text) (d r : Delivery)
    → IsRetried now message d r (set_failed now d.attempts d.max_attempts message r)
set_failed-IsRetried now message d r = record {
  same_id = refl;
  same_activity = refl;
  same_inbox = refl;
  same_body = refl;
  same_maximum = refl;
  same_creation = refl;
  counted = refl;
  told = refl;
  doubled = λ h. ap (λ n. now + n) (backoff_short d.attempts h);
  capped = λ h. ap (λ n. now + n) (backoff_long d.attempts h);
  exhausted = λ h. ground arith;
  goes_on = λ h. ground arith;
}

answer_kept :
    (o : Outcome) (error : Option Text) (d r : Delivery)
    → IsAnswered o.finish error d r (
        (elim error as (λ _. Delivery → Delivery) [
          | some message ↦ set_failed o.finish d.attempts d.max_attempts message
          | none ↦ set_delivered
        ])
          r)
answer_kept o (some message) d r = set_failed-IsRetried o.finish message d r
answer_kept o none d r = record {
  same_id = refl;
  same_activity = refl;
  same_inbox = refl;
  same_body = refl;
  same_maximum = refl;
  same_creation = refl;
  same_error = refl;
  same_time = refl;
  counted = refl;
  is_delivered = refl;
}

record_kept : (o : Outcome) (skip : Bool) (d r : Delivery) → IsLeft o skip d r (recorded o skip d r)
record_kept o true d r = set_failed-IsRetried o.start (codes "circuit open") d r
record_kept o false d r = answer_kept o o.error d r

pub deliver_nothing :
    (urls : Urls) (o : Outcome) (d : Delivery) (w : Worker)
    → o.mark_fails ≡ true
    → (deliver urls o d w).queue.rows ≡ w.queue.rows
unfolding deliver skipped
deliver_nothing urls o d w fails =
    let domain = inbox_domain urls d.inbox_url in
    let w' = (check_circuit o.start domain w).0 in
    ground (
      arith,
      queue_of_checked o.start domain w,
      queue_of_failure o domain w',
      queue_of_success o domain w',
    )

-- What one delivery does to the table, on every path. Where the statement on the row fails, nothing
-- changes. Where it succeeds and the table has the row, the row is left as `IsLeft` says, by whether
-- the circuit of its domain was open and by what the peer answered, and all other rows stay as
-- they are.
pub deliver-row_at :
    (urls : Urls) (o : Outcome) (d r : Delivery) (w : Worker)
    → row_at d.id w.queue.rows ≡ some r
    → let rows' = (deliver urls o d w).queue.rows in
      (o.mark_fails ≡ true → rows' ≡ w.queue.rows)
      × (o.mark_fails ≡ false
          → (r' : Delivery) × (row_at d.id rows' ≡ some r')
            × IsLeft o (skipped urls o d w) d r r'
            × ((j : ℕ) → (d.id == j) ≡ false → row_at j rows' ≡ row_at j w.queue.rows))
deliver-row_at urls o d r w h =
    let skip = skipped urls o d w in
    let f = recorded o skip d in
    (
      λ fails. deliver_nothing urls o d w fails,
      λ ok. (
        f r,
        rw
            (
              deliver_rows urls o d w ok,
              row_at-update_rows d.id d.id f w.queue.rows (λ x. (recorded_lem o d skip x).0),
              h,
            )
            (ground arith),
        record_kept o skip d r,
        λ j ne. rw (
          deliver_rows urls o d w ok,
          row_at-update_rows d.id j f w.queue.rows (λ x. (recorded_lem o d skip x).0),
          ne,
        ),
      ),
    )
