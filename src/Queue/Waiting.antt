-- ===== src/Queue/Waiting.antt =====
-- PopCtx of internal/queue/simple.go over any sequence of wake-ups.
use apoci.Prelude.{◌≡◌, refl, Bool, true, false, List, [], ◌∷◌, ◌++◌, arith, All}
use apoci.Queue.{SimpleQueue, PopResult, Wakeup, waiting, popped, await, pop_ctx}

module _ {ℓ} {A : Type ℓ} where
  -- The items that the consumer saw when it stopped waiting.
  abbrev pub seen : List A → Bool → List (Wakeup A) → List A
  seen [] true ws = []
  seen [] false [] = []
  seen [] false (w ∷ ws) = seen w.found w.done ws
  seen (a ∷ xs) done ws = a ∷ xs

  abbrev pub taken : PopResult A → List A
  taken (popped a) = a ∷ []
  taken _ = []

  -- A wake-up at which a consumer goes back to sleep.
  pub record IsIdle (w : Wakeup A) : Type ℓ where
    pub empty : w.found ≡ []
    pub live : w.done ≡ false

  await_keeps :
      (xs : List A) (done : Bool) (ws : List (Wakeup A))
      → taken (await xs done ws).1 ++ (await xs done ws).0.items ≡ seen xs done ws
  unfolding await
  await_keeps [] true ws = refl
  await_keeps [] false [] = refl
  await_keeps [] false (w ∷ ws) = await_keeps w.found w.done ws
  await_keeps (a ∷ xs) true ws = refl
  await_keeps (a ∷ xs) false ws = refl

  await-IsIdle :
      (xs : List A) (done : Bool) (ws : List (Wakeup A))
      → (await xs done ws).1 ≡ waiting
      → (xs ≡ []) × (done ≡ false) × All IsIdle ws
  unfolding await
  await-IsIdle [] true ws h = ground arith
  await-IsIdle [] false [] h = (refl, refl, tt)
  await-IsIdle [] false (w ∷ ws) h =
      let (e, live, rest) = await-IsIdle w.found w.done ws h in
      (refl, refl, (record { empty = e; live = live }, rest))
  await-IsIdle (a ∷ xs) true ws h = ground arith
  await-IsIdle (a ∷ xs) false ws h = ground arith

  -- Whatever the wake-ups, PopCtx takes the front item of what it last saw or nothing, and leaves
  -- the rest in order; and it is still parked only if the queue was empty when it came, the
  -- context was live, and every wake-up so far found an empty queue and a live context.
  pub pop_ctx_keeps :
      (q : SimpleQueue A) (done : Bool) (ws : List (Wakeup A))
      → (taken (pop_ctx q done ws).1 ++ (pop_ctx q done ws).0.items ≡ seen q.items done ws)
        × ((pop_ctx q done ws).1 ≡ waiting → (q.items ≡ []) × (done ≡ false) × All IsIdle ws)
  unfolding pop_ctx
  pop_ctx_keeps q done ws = keeps q.items
    where
      keeps :
          (xs : List A)
          → (taken (pop_ctx (record { items = xs }) done ws).1
                ++ (pop_ctx (record { items = xs }) done ws).0.items
              ≡ seen xs done ws)
            × ((pop_ctx (record { items = xs }) done ws).1 ≡ waiting
                → (xs ≡ []) × (done ≡ false) × All IsIdle ws)
      keeps [] = (await_keeps [] done ws, await-IsIdle [] done ws)
      keeps (a ∷ xs) = (refl, λ h. ground arith)
