-- ===== src/Delivery/Retries.antt =====
-- The retries of one row end, over any sequence of polls (internal/activitypub/delivery_queue.go over
-- the table of internal/database/delivery.go).
use Prim.Native.Nat.{max}
use apoci.Prelude.{
  ℕ, ◌+◌, ◌≤◌, ◌≡◌, refl, inl, inr, Bool, false, some, List, [], ◌∷◌, arith, Bool-cases,
  if◌then◌else◌, All, All-map, All-take,
}
use apoci.Urls.{Urls}
use apoci.Delivery.{Delivery, is_pending, due, order_by_next, pending_deliveries}
use apoci.Delivery.Rows.{row_at, IsAlive}
use apoci.Delivery.Pending.{IsReady, order_by_next-All, pending_deliveries-IsReady}
use apoci.Delivery.Polls.{
  times, times-order, times-due, times-take, AreCopies, unique-AreCopies, due-AreCopies, IsTried,
  untried, deliver_all-IsTried, deliver_all-times,
}
use apoci.Delivery.Worker.{Worker, Outcome, process_batch, delivery_batch_size}

-- One call of processBatch: its instant, whether its query fails, and what becomes of each delivery.
pub record Poll : Type 0 where
  pub now : ℕ
  pub query_fails : Bool
  pub outcome : Delivery → Outcome

module _ (urls : Urls) where
  unfoldable pub poll_all : List Poll → Worker → Worker
  poll_all [] w = w
  poll_all (p ∷ ps) w = poll_all ps (process_batch urls p.now p.query_fails p.outcome w)

  -- How often the batch of a poll has the row.
  unfoldable pub taken_by : ℕ → Poll → Worker → ℕ
  taken_by id p w =
      if p.query_fails then 0 else times id (pending_deliveries p.now delivery_batch_size w.queue)

  -- How often the batches of all polls have the row.
  unfoldable pub taken : ℕ → List Poll → Worker → ℕ
  unfolding taken_by
  taken id [] w = 0
  taken id (p ∷ ps) w =
      taken_by id p w + taken id ps (process_batch urls p.now p.query_fails p.outcome w)

  module _ (id : ℕ) where
    batch-once :
        (now : ℕ) (w : Worker)
        → times id w.queue.rows ≤ 1
        → times id (pending_deliveries now delivery_batch_size w.queue) ≤ 1
    unfolding pending_deliveries
    batch-once now w one = omega (
      arith,
      times-take id delivery_batch_size (order_by_next (due now w.queue.rows)),
      times-order id (due now w.queue.rows),
      times-due id now w.queue.rows,
    )

    batch-AreCopies :
        (now : ℕ) (r : Delivery) (w : Worker)
        → AreCopies id r w.queue.rows
        → AreCopies id r (pending_deliveries now delivery_batch_size w.queue)
    unfolding pending_deliveries
    batch-AreCopies now r w h =
        All-take (λ (e : Delivery). e.id ≡ id → e ≡ r) delivery_batch_size
          (order_by_next (due now w.queue.rows))
          (order_by_next-All (λ e. e.id ≡ id → e ≡ r) (due now w.queue.rows)
            (due-AreCopies id now r w.queue.rows h))

    poll-times :
        (p : Poll) (w : Worker)
        → times id (process_batch urls p.now p.query_fails p.outcome w).queue.rows
          ≡ times id w.queue.rows
    unfolding process_batch
    poll-times p w = elim (Bool-cases p.query_fails) [
      | inl fails ↦ rw fails refl
      | inr ok ↦ rw ok (
          deliver_all-times urls id p.outcome (pending_deliveries p.now delivery_batch_size w.queue)
            w)
    ]

    poll-IsTried :
        (p : Poll) (r : Delivery) (w : Worker)
        → ((e : Delivery) → (p.outcome e).mark_fails ≡ false)
        → row_at id w.queue.rows ≡ some r
        → times id w.queue.rows ≤ 1
        → IsAlive r
        → (r' : Delivery) × (row_at id
              (process_batch urls p.now p.query_fails p.outcome w).queue.rows
            ≡ some r')
          × IsTried r r' (taken_by id p w)
    unfolding process_batch taken_by
    poll-IsTried p r w oks at one alive = elim (Bool-cases p.query_fails) [
      | inl fails ↦ rw fails (r, at, untried r alive)
      | inr ok ↦ rw ok (
          deliver_all-IsTried urls id p.outcome oks r
            (pending_deliveries p.now delivery_batch_size w.queue) w at (batch-once p.now w one)
            (batch-AreCopies p.now r w (unique-AreCopies id r w.queue.rows at one))
            (All-map _ _ (λ e (h : IsReady p.now e). h.still_pending) _
              (pending_deliveries-IsReady p.now delivery_batch_size w.queue).0)
            alive)
    ]

    -- Over any sequence of polls, at any instants and whatever the peers and the circuits do, a row
    -- is attempted exactly as often as a batch has it, and no more often than it has attempts left;
    -- once the batches have had it that often it is settled, delivered or failed. Here the id is that
    -- of one row, the row has attempts left if it is pending, the statements on the rows succeed, and
    -- nothing else writes the table between the polls.
    pub retries_end :
        (ps : List Poll) (d : Delivery) (w : Worker)
        → row_at id w.queue.rows ≡ some d
        → times id w.queue.rows ≤ 1
        → IsAlive d
        → All (λ (p : Poll). (e : Delivery) → (p.outcome e).mark_fails ≡ false) ps
        → (r : Delivery) × (row_at id (poll_all ps w).queue.rows ≡ some r)
          × (r.attempts ≡ d.attempts + taken id ps w)
          × (r.attempts ≤ max d.attempts d.max_attempts)
          × (d.max_attempts ≤ d.attempts + taken id ps w → is_pending r.status ≡ false)
    unfolding poll_all taken
    retries_end [] d w at one alive oks =
        (d, at, omega arith, omega arith, λ enough. ground (arith, alive.attempts_left))
    retries_end (p ∷ ps) d w at one alive oks =
        let (d', at', tried) = poll-IsTried p d w oks.0 at one alive in
        let (r, found, attempts, within, settled) =
          retries_end ps d' (process_batch urls p.now p.query_fails p.outcome w) at'
            (omega (arith, poll-times p w)) tried.alive oks.1 in
        (
          r,
          found,
          omega (arith, tried.attempts),
          omega (arith, tried.attempts, tried.maximum, tried.within),
          λ enough. settled (omega (arith, tried.attempts, tried.maximum)),
        )
