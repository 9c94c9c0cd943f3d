-- ===== src/Queue.antt =====
-- internal/queue/simple.go: the queue under one mutex. Each method is one step; PopCtx waits, so
-- it is given what its consumer sees each time that it holds the lock again.
pub mod Fifo
pub mod Waiting
use apoci.Prelude.{
  ℕ, ◌+◌, Bool, true, false, Option, none, some, List, [], ◌∷◌, ◌++◌, leb, length, if◌then◌else◌,
}

pub record SimpleQueue {ℓ} (A : Type ℓ) : Type ℓ where
  pub items : List A

-- The outcome of PopCtx; `waiting` means that no wake-up is left and the consumer is parked.
pub data PopResult {ℓ} (A : Type ℓ) : Type ℓ where
  waiting : PopResult A
  cancelled : PopResult A
  popped : A → PopResult A

-- What a parked consumer finds after cond.Wait: the items, and whether ctx.Err() is set.
pub record Wakeup {ℓ} (A : Type ℓ) : Type ℓ where
  pub found : List A
  pub done : Bool

module _ {ℓ} {A : Type ℓ} where
  pub new_simple_queue : SimpleQueue A
  new_simple_queue = record { items = [] }

  unfoldable pub push : A → SimpleQueue A → SimpleQueue A
  push item q = record { items = q.items ++ item ∷ [] }

  unfoldable pub try_push : A → ℕ → SimpleQueue A → SimpleQueue A × Bool
  try_push item max_size q =
      if leb max_size (length q.items)
      then (q, false)
      else (record { items = q.items ++ item ∷ [] }, true)

  pop_items : List A → SimpleQueue A × Option A
  pop_items [] = (record { items = [] }, none)
  pop_items (item ∷ rest) = (record { items = rest }, some item)

  unfoldable pub pop : SimpleQueue A → SimpleQueue A × Option A
  unfolding pop_items
  pop q = pop_items q.items

  -- The loop of PopCtx, at its head with the given items and context.
  await : List A → Bool → List (Wakeup A) → SimpleQueue A × PopResult A
  await [] true ws = (record { items = [] }, cancelled)
  await [] false [] = (record { items = [] }, waiting)
  await [] false (w ∷ ws) = await w.found w.done ws
  await (item ∷ rest) true ws = (record { items = item ∷ rest }, cancelled)
  await (item ∷ rest) false ws = (record { items = rest }, popped item)

  -- The fast path takes an item without a look at the context.
  pop_ctx_items : List A → Bool → List (Wakeup A) → SimpleQueue A × PopResult A
  unfolding await
  pop_ctx_items [] done ws = await [] done ws
  pop_ctx_items (item ∷ rest) done ws = (record { items = rest }, popped item)

  unfoldable pub pop_ctx : SimpleQueue A → Bool → List (Wakeup A) → SimpleQueue A × PopResult A
  unfolding pop_ctx_items
  pop_ctx q done ws = pop_ctx_items q.items done ws

  unfoldable pub len : SimpleQueue A → ℕ
  len q = length q.items

  unfoldable pub drain : SimpleQueue A → SimpleQueue A × List A
  drain q = (record { items = [] }, q.items)
