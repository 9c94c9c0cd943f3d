-- ===== src/Queue/Fifo.antt =====
-- The queue of internal/queue/simple.go against its abstract view: what goes in comes out, once
-- and in order.
use mathlib.Core.List.{append-nil, append_assoc}
use apoci.Prelude.{
  ℕ, ◌≤◌, ◌≡◌, refl, sym, Bool, true, false, Option, none, some, List, [], ◌∷◌, ◌++◌, arith, length,
  length-append, Bool-cases, leb, inl, inr, suc,
}
use apoci.Queue.{SimpleQueue, push, try_push, pop, drain, len}

-- The operations of producers and consumers, in the order in which they hold the lock.
pub data Op {ℓ} (A : Type ℓ) : Type ℓ where
  push_op : A → Op A
  try_push_op : A → ℕ → Op A
  pop_op : Op A
  drain_op : Op A

module _ {ℓ} {A : Type ℓ} where
  abbrev of_option : Option A → List A
  of_option none = []
  of_option (some a) = a ∷ []

  abbrev accepted : A → Bool → List A
  accepted a true = a ∷ []
  accepted a false = []

  -- The queue after an operation, what it put in and what it took out.
  unfoldable pub apply : Op A → SimpleQueue A → SimpleQueue A × List A × List A
  unfolding push try_push pop drain
  apply (push_op a) q = (push a q, a ∷ [], [])
  apply (try_push_op a n) q = let (q', taken) = try_push a n q in (q', accepted a taken, [])
  apply pop_op q = let (q', r) = pop q in (q', [], of_option r)
  apply drain_op q = let (q', out) = drain q in (q', [], out)

  unfoldable pub run : List (Op A) → SimpleQueue A → SimpleQueue A × List A × List A
  unfolding apply
  run [] q = (q, [], [])
  run (o ∷ os) q =
      let (q', i, out) = apply o q in let (q'', is, outs) = run os q' in (q'', i ++ is, out ++ outs)

  pop_balance : (q : SimpleQueue A) → of_option (pop q).1 ++ (pop q).0.items ≡ q.items
  unfolding pop
  pop_balance q = ground arith

  apply_balance :
      (o : Op A) (q : SimpleQueue A)
      → (apply o q).2 ++ (apply o q).0.items ≡ q.items ++ (apply o q).1
  unfolding apply
  apply_balance (push_op a) q = refl
  apply_balance (try_push_op a n) q = elim (Bool-cases (leb n (length q.items))) [
    | inl full ↦ rw full (sym (append-nil _))
    | inr room ↦ rw room
  ]
  apply_balance pop_op q = rw append-nil (unfold pop in pop_balance q)
  apply_balance drain_op q = refl

  -- Over any interleaving of operations, what was taken out followed by what is left is what was
  -- there followed by what was put in: nothing is lost, doubled or reordered.
  pub run-fifo :
      (os : List (Op A)) (q : SimpleQueue A)
      → (run os q).2 ++ (run os q).0.items ≡ q.items ++ (run os q).1
  unfolding run
  run-fifo [] q = sym (append-nil _)
  run-fifo (o ∷ os) q =
      simp (append_assoc, run-fifo os (apply o q).0)
        (rw (← append_assoc, apply_balance o q, append_assoc))

  -- TryPush keeps a queue that is within its bound within it; it refuses only at the bound, and
  -- makes the queue longer by one where it accepts.
  pub try_push-len :
      (a : A) (n : ℕ) (q : SimpleQueue A)
      → len q ≤ n
      → (len (try_push a n q).0 ≤ n)
        × ((try_push a n q).1 ≡ false → len q ≡ n)
        × ((try_push a n q).1 ≡ true → len (try_push a n q).0 ≡ suc (len q))
  unfolding len try_push
  try_push-len a n q h = ground (arith, length-append q.items (a ∷ []))
