-- ===== src/Delivery/Polls.antt =====
-- How often a row occurs in a batch of the poll, and what the polls do to it (processBatch of
-- internal/activitypub/delivery_queue.go over the table of internal/database/delivery.go).
use mathlib.Core.Path.{subst}
use mathlib.Core.Option.{some_inj}
use Prim.Native.Nat.{max}
use apoci.Prelude.{
  ℕ, zero, suc, ◌+◌, ◌≤◌, ◌≡◌, refl, sym, ap, ◌∙◌, inl, inr, Bool, true, false, some, List, [], ◌∷◌,
  arith, Bool-cases, if◌then◌else◌, All, All-if, take, ◌==◌, leb,
}
use apoci.Urls.{Urls}
use apoci.Delivery.{Delivery, pending, is_due, due, insert_by_next, order_by_next, update_rows}
use apoci.Delivery.Rows.{row_at, row_at-update_rows, IsAlive}
use apoci.Delivery.Worker.{Worker, Outcome, deliver, deliver_all}
use apoci.Delivery.Attempts.{
  skipped, recorded, status_left, deliver_rows, deliver_nothing, recorded_lem, deliver-counts,
}

-- How often a row occurs in a list.
unfoldable pub times : ℕ → List Delivery → ℕ
times id [] = 0
times id (d ∷ ds) = (if d.id == id then 1 else 0) + times id ds

-- The copies of the row in a list are what the table holds.
abbrev pub AreCopies : ℕ → Delivery → List Delivery → Type 0
AreCopies id r = All (λ e. e.id ≡ id → e ≡ r)

module _ (id : ℕ) where
  times-insert :
      (d : Delivery) (ds : List Delivery)
      → times id (insert_by_next d ds) ≡ (if d.id == id then 1 else 0) + times id ds
  unfolding times insert_by_next
  times-insert d [] = refl
  times-insert d (e ∷ es) = elim (Bool-cases (leb d.next_attempt_at e.next_attempt_at)) [
    | inl t ↦ rw t refl
    | inr t ↦ rw t (omega (arith, times-insert d es))
  ]

  pub times-order : (ds : List Delivery) → times id (order_by_next ds) ≡ times id ds
  unfolding times order_by_next
  times-order [] = refl
  times-order (d ∷ ds) = times-insert d (order_by_next ds) ∙ omega (arith, times-order ds)

  pub times-due : (now : ℕ) (ds : List Delivery) → times id (due now ds) ≤ times id ds
  unfolding times due
  times-due now [] = omega arith
  times-due now (d ∷ ds) = elim (Bool-cases (is_due now d)) [
    | inl t ↦ rw t (omega (arith, times-due now ds))
    | inr t ↦ rw t (omega (arith, times-due now ds))
  ]

  pub times-take : (n : ℕ) (ds : List Delivery) → times id (take n ds) ≤ times id ds
  unfolding times
  times-take zero ds = omega arith
  times-take (suc n) [] = omega arith
  times-take (suc n) (d ∷ ds) = omega (arith, times-take n ds)

  times-update_rows :
      (j : ℕ) (f : Delivery → Delivery) (rows : List Delivery)
      → ((d : Delivery) → (f d).id ≡ d.id)
      → times id (update_rows j f rows) ≡ times id rows
  unfolding times update_rows
  times-update_rows j f [] h = refl
  times-update_rows j f (d ∷ ds) h = ground (arith, h d, times-update_rows j f ds h)

  absent-AreCopies : (r : Delivery) (ds : List Delivery) → times id ds ≡ 0 → AreCopies id r ds
  unfolding times
  absent-AreCopies r [] h = tt
  absent-AreCopies r (d ∷ ds) h =
      ((λ e. absurd (ground arith)), absent-AreCopies r ds (omega arith))

  pub unique-AreCopies :
      (r : Delivery) (rows : List Delivery)
      → row_at id rows ≡ some r
      → times id rows ≤ 1
      → AreCopies id r rows
  unfolding times row_at
  unique-AreCopies r [] h one = tt
  unique-AreCopies r (d ∷ ds) h one = elim (Bool-cases (d.id == id)) [
    | inl same ↦
        let at : some d ≡ some r = rw same at h in
        ((λ e. some_inj.0 at), absent-AreCopies r ds (ground arith))
    | inr other ↦
        let at : row_at id ds ≡ some r = rw other at h in
        ((λ e. absurd (ground arith)), unique-AreCopies r ds at (ground arith))
  ]

  pub due-AreCopies :
      (now : ℕ) (r : Delivery) (rows : List Delivery)
      → AreCopies id r rows
      → AreCopies id r (due now rows)
  unfolding due
  due-AreCopies now r [] h = tt
  due-AreCopies now r (d ∷ ds) h =
      All-if (λ (e : Delivery). e.id ≡ id → e ≡ r) (is_due now d) d _ (λ t. h.0)
        (due-AreCopies now r ds h.1)

module _ (urls : Urls) (id : ℕ) where
  deliver_other :
      (o : Outcome) (d : Delivery) (w : Worker)
      → (d.id == id) ≡ false
      → row_at id (deliver urls o d w).queue.rows ≡ row_at id w.queue.rows
  deliver_other o d w other = elim (Bool-cases o.mark_fails) [
    | inl fails ↦ ap (row_at id) (deliver_nothing urls o d w fails)
    | inr ok ↦ rw (
      deliver_rows urls o d w ok,
      row_at-update_rows d.id id (recorded o (skipped urls o d w) d) w.queue.rows
          (λ x. (recorded_lem o d (skipped urls o d w) x).0),
      other,
    )
  ]

  deliver-times :
      (o : Outcome) (d : Delivery) (w : Worker)
      → times id (deliver urls o d w).queue.rows ≡ times id w.queue.rows
  deliver-times o d w = elim (Bool-cases o.mark_fails) [
    | inl fails ↦ ap (times id) (deliver_nothing urls o d w fails)
    | inr ok ↦
        ap (times id) (deliver_rows urls o d w ok)
        ∙ times-update_rows id d.id (recorded o (skipped urls o d w) d) w.queue.rows
            (λ x. (recorded_lem o d (skipped urls o d w) x).0)
  ]

  pub deliver_all-times :
      (outcome : Delivery → Outcome) (ds : List Delivery) (w : Worker)
      → times id (deliver_all urls outcome ds w).queue.rows ≡ times id w.queue.rows
  unfolding deliver_all
  deliver_all-times outcome [] w = refl
  deliver_all-times outcome (d ∷ ds) w =
      deliver_all-times outcome ds _ ∙ deliver-times (outcome d) d w

  deliver_all_other :
      (outcome : Delivery → Outcome) (ds : List Delivery) (w : Worker)
      → times id ds ≡ 0
      → row_at id (deliver_all urls outcome ds w).queue.rows ≡ row_at id w.queue.rows
  unfolding deliver_all times
  deliver_all_other outcome [] w h = refl
  deliver_all_other outcome (d ∷ ds) w h =
      deliver_all_other outcome ds _ (omega arith) ∙ deliver_other (outcome d) d w (ground arith)

-- A row after a number of attempts, each of which it had left.
pub record IsTried (r r' : Delivery) (n : ℕ) : Type 0 where
  pub attempts : r'.attempts ≡ r.attempts + n
  pub maximum : r'.max_attempts ≡ r.max_attempts
  pub alive : IsAlive r'
  pub within : r'.attempts ≤ max r.attempts r.max_attempts

pub untried : (r : Delivery) → IsAlive r → IsTried r r 0
untried r alive = record {
  attempts = omega arith;
  maximum = refl;
  alive = alive;
  within = omega arith;
}

status_left-IsAlive :
    (o : Outcome) (skip : Bool) (d r : Delivery)
    → r.attempts ≡ d.attempts + 1
    → r.max_attempts ≡ d.max_attempts
    → r.status ≡ status_left o skip d
    → IsAlive r
status_left-IsAlive o true d r a m s = record { attempts_left = λ h. ground arith }
status_left-IsAlive o false d r a m s = record { attempts_left = λ h. ground arith }

module _ (urls : Urls) (id : ℕ) (outcome : Delivery → Outcome)
    (oks : (d : Delivery) → (outcome d).mark_fails ≡ false) where
  -- The row through a batch that has it once or not at all, as the table holds it.
  pub deliver_all-IsTried :
      (r : Delivery) (ds : List Delivery) (w : Worker)
      → row_at id w.queue.rows ≡ some r
      → times id ds ≤ 1
      → AreCopies id r ds
      → All (λ e. e.status ≡ pending) ds
      → IsAlive r
      → (r' : Delivery) × (row_at id (deliver_all urls outcome ds w).queue.rows ≡ some r')
        × IsTried r r' (times id ds)
  unfolding deliver_all times
  deliver_all-IsTried r [] w at one copies waits alive = (r, at, untried r alive)
  deliver_all-IsTried r (d ∷ ds) w at one copies waits alive = elim (Bool-cases (d.id == id)) [
    | inr other ↦
        let (r', at', tried) =
          deliver_all-IsTried r ds (deliver urls (outcome d) d w)
            (deliver_other urls id (outcome d) d w other ∙ at) (ground arith) copies.1 waits.1
            alive in
        let same : times id ds ≡ (if d.id == id then 1 else 0) + times id ds = ground arith in
        (r', at', subst (IsTried r r') same tried)
    | inl same ↦
        let own : d.id ≡ id = ground arith in
        let copy : d ≡ r = copies.0 own in
        let (r', at', attempts, maximum, status, others) =
          deliver-counts urls (outcome d) d r w (oks d)
            (subst (λ i. row_at i w.queue.rows ≡ some r) (sym own) at) in
        let last : times id ds ≡ 0 = ground arith in
        let of_copy : d.attempts ≡ r.attempts = ap (λ (x : Delivery). x.attempts) copy in
        let to_copy : d.max_attempts ≡ r.max_attempts =
          ap (λ (x : Delivery). x.max_attempts) copy in
        let waited : r.status ≡ pending = sym (ap (λ (x : Delivery). x.status) copy) ∙ waits.0 in
        let left = alive.attempts_left waited in
        rw (same, last)
          (
            r',
            deliver_all_other urls id outcome ds _ last
                ∙ subst (λ i. row_at i (deliver urls (outcome d) d w).queue.rows ≡ some r') own at',
            record {
              attempts = omega arith;
              maximum = maximum;
              alive =
                  status_left-IsAlive (outcome d) (skipped urls (outcome d) d w) d r' (omega arith)
                    (omega arith) status;
              within = omega arith;
            },
          )
  ]
