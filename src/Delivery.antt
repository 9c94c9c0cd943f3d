-- ===== src/Delivery.antt =====
-- internal/database/delivery.go: the table delivery_queue, each SQL statement as a function on its
-- rows. An instant is a number of nanoseconds.
pub mod Worker
pub mod Rows
pub mod Pending
pub mod Attempts
pub mod Polls
pub mod Retries
pub mod Health
use apoci.Prelude.{
  ℕ, suc, ◌+◌, ◌-◌, ◌*◌, ◌^◌, min, Bool, true, false, ◌&&◌, not, Option, none, some, List, [], ◌∷◌,
  ◌++◌, Text, text_eq, ltb, leb, ◌==◌, length, take, any, if◌then◌else◌,
}

-- The values of the column `status`.
pub data Status : Type 0 where
  pending delivered failed : Status

abbrev pub is_pending : Status → Bool
is_pending pending = true
is_pending _ = false

pub record Delivery : Type 0 where
  pub id : ℕ
  pub activity_id : Text
  pub inbox_url : Text
  pub activity_json : Text
  pub attempts : ℕ
  pub max_attempts : ℕ
  pub next_attempt_at : ℕ
  pub last_error : Option Text
  pub status : Status
  pub created_at : ℕ

-- The rows, and the next value of the autoincremented id.
pub record DeliveryQueue : Type 0 where
  pub rows : List Delivery
  pub next_id : ℕ

abbrev pub default_max_attempts : ℕ
default_max_attempts = 10

-- One second, in the unit of time.Duration.
abbrev pub second : ℕ
second = 1_000_000_000

unfoldable pub same_key : Text → Text → Delivery → Bool
same_key activity_id inbox_url d =
    text_eq d.activity_id activity_id && text_eq d.inbox_url inbox_url

unfoldable pub new_row : ℕ → ℕ → Text → Text → Text → Delivery
new_row now id activity_id inbox_url activity_json = record {
  id = id;
  activity_id = activity_id;
  inbox_url = inbox_url;
  activity_json = activity_json;
  attempts = 0;
  max_attempts = default_max_attempts;
  next_attempt_at = now;
  last_error = none;
  status = pending;
  created_at = now;
}

-- INSERT … ON CONFLICT (activity_id, inbox_url) DO NOTHING; the result says whether a row came in.
unfoldable pub enqueue_delivery_inserted :
    ℕ → Text → Text → Text → DeliveryQueue → DeliveryQueue × Bool
unfolding same_key new_row
enqueue_delivery_inserted now activity_id inbox_url activity_json q =
    if any (same_key activity_id inbox_url) q.rows then (q, false) else (
      record {
        rows = q.rows ++ new_row now q.next_id activity_id inbox_url activity_json ∷ [];
        next_id = q.next_id + 1;
      },
      true,
    )

unfoldable pub is_due : ℕ → Delivery → Bool
is_due now d = is_pending d.status && leb d.next_attempt_at now

unfoldable pub due : ℕ → List Delivery → List Delivery
unfolding is_due
due now [] = []
due now (d ∷ ds) = let rest = due now ds in if is_due now d then d ∷ rest else rest

-- ORDER BY next_attempt_at ASC. SQL leaves the order of equal instants open; here it is that of
-- the rows.
unfoldable pub insert_by_next : Delivery → List Delivery → List Delivery
insert_by_next d [] = d ∷ []
insert_by_next d (e ∷ es) =
    let rest = insert_by_next d es in
    if leb d.next_attempt_at e.next_attempt_at then d ∷ e ∷ es else e ∷ rest

unfoldable pub order_by_next : List Delivery → List Delivery
unfolding insert_by_next
order_by_next [] = []
order_by_next (d ∷ ds) = insert_by_next d (order_by_next ds)

unfoldable pub pending_deliveries : ℕ → ℕ → DeliveryQueue → List Delivery
unfolding due order_by_next
pending_deliveries now limit q = take limit (order_by_next (due now q.rows))

-- UPDATE … WHERE id = ?
unfoldable pub update_rows : ℕ → (Delivery → Delivery) → List Delivery → List Delivery
update_rows id f [] = []
update_rows id f (d ∷ ds) = (if d.id == id then f d else d) ∷ update_rows id f ds

abbrev pub set_delivered : Delivery → Delivery
set_delivered d = record d { status = delivered; attempts = d.attempts + 1 }

unfoldable pub mark_delivered : ℕ → DeliveryQueue → DeliveryQueue
unfolding update_rows
mark_delivered id q = record q { rows = update_rows id set_delivered q.rows }

-- 1 << min(attempts, 12) seconds.
abbrev pub backoff : ℕ → ℕ
backoff attempts = 2 ^ min attempts 12 * second

abbrev pub status_after : ℕ → ℕ → Status
status_after attempts max_attempts = if leb max_attempts (attempts + 1) then failed else pending

-- `attempts` and `max_attempts` are what the caller read before; the row's own count is raised.
abbrev pub set_failed : ℕ → ℕ → ℕ → Text → Delivery → Delivery
set_failed now attempts max_attempts message d = record d {
  attempts = d.attempts + 1;
  last_error = some message;
  status = status_after attempts max_attempts;
  next_attempt_at = now + backoff attempts;
}

unfoldable pub mark_delivery_failed : ℕ → ℕ → ℕ → ℕ → Text → DeliveryQueue → DeliveryQueue
unfolding update_rows
mark_delivery_failed now id attempts max_attempts message q = record q {
  rows = update_rows id (set_failed now attempts max_attempts message) q.rows;
}

-- DELETE … WHERE status IN ('delivered', 'failed') AND created_at < cutoff, with the number of
-- rows deleted.
is_expired : ℕ → Delivery → Bool
is_expired cutoff d = not (is_pending d.status) && ltb d.created_at cutoff

unfoldable pub remove_expired : ℕ → List Delivery → List Delivery × ℕ
unfolding is_expired
remove_expired cutoff [] = ([], 0)
remove_expired cutoff (d ∷ ds) =
    let (kept, n) = remove_expired cutoff ds in
    if is_expired cutoff d then (kept, suc n) else (d ∷ kept, n)

unfoldable pub cleanup_deliveries : ℕ → ℕ → DeliveryQueue → DeliveryQueue × ℕ
unfolding remove_expired
cleanup_deliveries now older_than q =
    let (kept, n) = remove_expired (now - older_than) q.rows in (record q { rows = kept }, n)
