-- ===== src/Tests/Queues.antt =====
-- Runs of internal/queue/simple.go.
use apoci.Prelude.{ℕ, ◌≤◌, ◌≡◌, false, true, List, [], ◌∷◌, ◌++◌, arith, suc, All}
use apoci.Queue.{SimpleQueue, Wakeup, pop_ctx, waiting, try_push, len}
use apoci.Queue.Fifo.{Op, push_op, try_push_op, pop_op, drain_op, run, run-fifo, try_push-len}
use apoci.Queue.Waiting.{seen, taken, IsIdle, pop_ctx_keeps}

abbrev ops : List (Op ℕ)
ops = push_op 1 ∷ try_push_op 2 2 ∷ try_push_op 3 2 ∷ pop_op ∷ drain_op ∷ push_op 4 ∷ []

abbrev start : SimpleQueue ℕ
start = record { items = 7 ∷ [] }

run-fifo_example : (run ops start).2 ++ (run ops start).0.items ≡ start.items ++ (run ops start).1
run-fifo_example = run-fifo ops start

try_push-len_example :
    (len (try_push 5 1 start).0 ≤ 1)
    × ((try_push 5 1 start).1 ≡ false → len start ≡ 1)
    × ((try_push 5 1 start).1 ≡ true → len (try_push 5 1 start).0 ≡ suc (len start))
try_push-len_example = try_push-len 5 1 start (unfold len in omega arith)

abbrev wakeups : List (Wakeup ℕ)
wakeups = record { found = []; done = false } ∷ record { found = 8 ∷ 9 ∷ []; done = false } ∷ []

abbrev idle : SimpleQueue ℕ
idle = record { items = [] }

pop_ctx_keeps_example :
    (taken (pop_ctx idle false wakeups).1 ++ (pop_ctx idle false wakeups).0.items
      ≡ seen idle.items false wakeups)
    × ((pop_ctx idle false wakeups).1 ≡ waiting
        → (idle.items ≡ []) × (false ≡ false) × All IsIdle wakeups)
pop_ctx_keeps_example = pop_ctx_keeps idle false wakeups
