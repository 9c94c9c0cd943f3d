-- ===== src/Delivery/Pending.antt =====
-- What PendingDeliveries returns (internal/database/delivery.go).
use apoci.Prelude.{
  ℕ, suc, zero, ◌≤◌, ◌≡◌, inl, inr, true, List, [], ◌∷◌, arith, Bool-cases, All, All-take, length,
  length-take, take, leb, leb→le, not_leb→lt,
}
use apoci.Delivery.{
  Delivery, DeliveryQueue, pending, is_due, due, insert_by_next, order_by_next, pending_deliveries,
}

-- Ordered by the instant of the next attempt.
abbrev pub AllAfter : ℕ → List Delivery → Type 0
AllAfter t = All (λ d. t ≤ d.next_attempt_at)

abbrev pub IsOrdered : List Delivery → Type 0
IsOrdered [] = Unit
IsOrdered (d ∷ ds) = AllAfter d.next_attempt_at ds × IsOrdered ds

pub record IsReady (now : ℕ) (d : Delivery) : Type 0 where
  pub still_pending : d.status ≡ pending
  pub reached : d.next_attempt_at ≤ now

due-IsReady : (now : ℕ) (rows : List Delivery) → All (IsReady now) (due now rows)
unfolding due
due-IsReady now [] = tt
due-IsReady now (d ∷ ds) = elim (Bool-cases (is_due now d)) [
  | inl e ↦ rw e (ready d e, due-IsReady now ds)
  | inr e ↦ rw e (due-IsReady now ds)
]
  where
    ready : (r : Delivery) → is_due now r ≡ true → IsReady now r
    ready r e = record { still_pending = ground arith; reached = ground arith }

insert_by_next-All :
    (P : Delivery → Type 0) (d : Delivery) (ds : List Delivery)
    → P d
    → All P ds
    → All P (insert_by_next d ds)
unfolding insert_by_next
insert_by_next-All P d [] p h = (p, tt)
insert_by_next-All P d (e ∷ es) p h = elim (Bool-cases (leb d.next_attempt_at e.next_attempt_at)) [
  | inl t ↦ rw t (p, h)
  | inr t ↦ rw t (h.0, insert_by_next-All P d es p h.1)
]

pub order_by_next-All :
    (P : Delivery → Type 0) (ds : List Delivery) → All P ds → All P (order_by_next ds)
unfolding order_by_next
order_by_next-All P [] h = tt
order_by_next-All P (d ∷ ds) h =
    insert_by_next-All P d (order_by_next ds) h.0 (order_by_next-All P ds h.1)

AllAfter-le : (s t : ℕ) (ds : List Delivery) → s ≤ t → AllAfter t ds → AllAfter s ds
AllAfter-le s t [] le h = tt
AllAfter-le s t (d ∷ ds) le h = (omega arith, AllAfter-le s t ds le h.1)

insert_by_next-IsOrdered :
    (d : Delivery) (ds : List Delivery) → IsOrdered ds → IsOrdered (insert_by_next d ds)
unfolding insert_by_next
insert_by_next-IsOrdered d [] h = (tt, tt)
insert_by_next-IsOrdered d (e ∷ es) h =
    elim (Bool-cases (leb d.next_attempt_at e.next_attempt_at)) [
      | inl t ↦
          rw t (
            (leb→le _ _ t, AllAfter-le d.next_attempt_at e.next_attempt_at es (leb→le _ _ t) h.0),
            h,
          )
      | inr t ↦ rw t (
        insert_by_next-All (λ r. e.next_attempt_at ≤ r.next_attempt_at) d es
            (omega (arith, not_leb→lt d.next_attempt_at e.next_attempt_at t)) h.0,
        insert_by_next-IsOrdered d es h.1,
      )
    ]

order_by_next-IsOrdered : (ds : List Delivery) → IsOrdered (order_by_next ds)
unfolding order_by_next
order_by_next-IsOrdered [] = tt
order_by_next-IsOrdered (d ∷ ds) =
    insert_by_next-IsOrdered d (order_by_next ds) (order_by_next-IsOrdered ds)

take-IsOrdered : (n : ℕ) (ds : List Delivery) → IsOrdered ds → IsOrdered (take n ds)
take-IsOrdered zero ds h = tt
take-IsOrdered (suc n) [] h = tt
take-IsOrdered (suc n) (d ∷ ds) h =
    (All-take (λ r. d.next_attempt_at ≤ r.next_attempt_at) n ds h.0, take-IsOrdered n ds h.1)

-- The batch holds pending rows whose next attempt is due and nothing else, the earliest first, and
-- is no longer than the limit.
pub pending_deliveries-IsReady :
    (now limit : ℕ) (q : DeliveryQueue)
    → All (IsReady now) (pending_deliveries now limit q)
      × IsOrdered (pending_deliveries now limit q)
      × (length (pending_deliveries now limit q) ≤ limit)
unfolding pending_deliveries
pending_deliveries-IsReady now limit q =
    let rows = order_by_next (due now q.rows) in
    (
      All-take (IsReady now) limit rows
          (order_by_next-All (IsReady now) (due now q.rows) (due-IsReady now q.rows)),
      take-IsOrdered limit rows (order_by_next-IsOrdered (due now q.rows)),
      omega (arith, length-take limit rows),
    )
