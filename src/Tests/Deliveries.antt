-- ===== src/Tests/Deliveries.antt =====
-- Runs of the delivery queue: its table, one delivery, and the retries of a row.
use Prim.Native.Nat.{max}
use apoci.Prelude.{
  ℕ, suc, ◌+◌, ◌<◌, ◌≤◌, ◌≡◌, refl, true, false, none, some, List, [], ◌∷◌, codes, arith, length,
  if◌then◌else◌, All, ◌==◌, text_eq,
}
use apoci.Prelude.Maps
use apoci.Delivery.{
  Delivery, DeliveryQueue, pending, is_pending, enqueue_delivery_inserted, mark_delivered,
  mark_delivery_failed, pending_deliveries, same_key,
}
use apoci.Circuit.Delivery.{is_open, record_failure}
use apoci.Delivery.Worker.{Worker, Outcome, deliver, check_circuit, note_failure, inbox_domain}
use apoci.Delivery.Rows.{
  row_at, IsAlive, IsValid, IsCurrent, enqueue-IsValid, enqueue_idempotent, mark-IsValid,
}
use apoci.Delivery.Pending.{IsReady, IsOrdered, pending_deliveries-IsReady}
use apoci.Delivery.Attempts.{skipped, IsLeft, deliver-row_at}
use apoci.Delivery.Polls.{times}
use apoci.Delivery.Retries.{Poll, poll_all, taken, retries_end}
use apoci.Delivery.Health.{deliver-health}
use apoci.Tests.{bare_hosts, alice, bob}

abbrev to : ℕ → ℕ → Delivery
to id attempts = record {
  id = id;
  activity_id = codes "act";
  inbox_url = if id == 1 then alice else bob;
  activity_json = codes "{}";
  attempts = attempts;
  max_attempts = 10;
  next_attempt_at = 5;
  last_error = none;
  status = pending;
  created_at = 0;
}

abbrev table : DeliveryQueue
table = record { rows = to 1 8 ∷ to 2 0 ∷ []; next_id = 3 }

alive : (id attempts : ℕ) → attempts < 10 → IsAlive (to id attempts)
alive id attempts h = record { attempts_left = λ _. h }

table-IsValid : IsValid table
table-IsValid = record {
  fresh = (omega arith, (omega arith, tt));
  keys = (unfold same_key text_eq in refl, (refl, tt));
  alive = (alive 1 8 (omega arith), (alive 2 0 (omega arith), tt));
}

table-IsCurrent : IsCurrent (to 1 8) table.rows
table-IsCurrent = (λ e. refl, (λ e. absurd (ground arith), tt))

enqueue-IsValid_example :
    IsValid (enqueue_delivery_inserted 9 (codes "new") alice (codes "{}") table).0
enqueue-IsValid_example = enqueue-IsValid 9 (codes "new") alice (codes "{}") table table-IsValid

enqueue_idempotent_example :
    let (q', inserted) = enqueue_delivery_inserted 9 (codes "new") alice (codes "{}") table in
    (enqueue_delivery_inserted 11 (codes "new") alice (codes "[]") q' ≡ (q', false))
    × (length q'.rows ≡ (if inserted then suc (length table.rows) else length table.rows))
enqueue_idempotent_example =
    enqueue_idempotent 9 11 (codes "new") alice (codes "{}") (codes "[]") table

mark-IsValid_example :
    IsValid (mark_delivered 1 table) × IsValid (mark_delivery_failed 9 1 8 10 (codes "503") table)
mark-IsValid_example = mark-IsValid 9 (codes "503") (to 1 8) table table-IsValid table-IsCurrent

pending_deliveries-IsReady_example :
    All (IsReady 6) (pending_deliveries 6 1 table)
    × IsOrdered (pending_deliveries 6 1 table)
    × (length (pending_deliveries 6 1 table) ≤ 1)
pending_deliveries-IsReady_example = pending_deliveries-IsReady 6 1 table

abbrev idle : Worker
idle = record {
  circuit = record { failures = []; open_until = [] };
  queue = table;
  health = (alice, true) ∷ [];
}

-- A delivery that the peer refuses.
abbrev refusal : Outcome
refusal = record {
  start = 6;
  finish = 7;
  error = some (codes "503");
  mark_fails = false;
  health_fails = false;
}

deliver-row_at_example :
    let rows' = (deliver bare_hosts refusal (to 1 8) idle).queue.rows in
    (refusal.mark_fails ≡ true → rows' ≡ idle.queue.rows)
    × (refusal.mark_fails ≡ false
        → (r' : Delivery) × (row_at 1 rows' ≡ some r')
          × IsLeft refusal (skipped bare_hosts refusal (to 1 8) idle) (to 1 8) (to 1 8) r'
          × ((j : ℕ) → (1 == j) ≡ false → row_at j rows' ≡ row_at j idle.queue.rows))
deliver-row_at_example =
    deliver-row_at bare_hosts refusal (to 1 8) (to 1 8) idle (unfold row_at in refl)

-- Two polls in which the peer refuses: at 6 ns, and when the backoff of 2^8 seconds is over.
abbrev polls : List Poll
polls =
    record { now = 6; query_fails = false; outcome = λ d. refusal }
    ∷ record { now = 300_000_000_000; query_fails = false; outcome = λ d. refusal }
    ∷ []

retries_end_example :
    (r : Delivery) × (row_at 1 (poll_all bare_hosts polls idle).queue.rows ≡ some r)
    × (r.attempts ≡ 8 + taken bare_hosts 1 polls idle)
    × (r.attempts ≤ max 8 10)
    × (10 ≤ 8 + taken bare_hosts 1 polls idle → is_pending r.status ≡ false)
retries_end_example =
    retries_end bare_hosts 1 polls (to 1 8) idle (unfold row_at in refl)
      (unfold times in omega arith) (alive 1 8 (omega arith)) ((λ e. refl), ((λ e. refl), tt))

abbrev attempts_made : ℕ
attempts_made = taken bare_hosts 1 polls idle

still_healthy : Maps.get alice (deliver bare_hosts refusal (to 2 0) idle).health ≡ some true
unfolding deliver check_circuit note_failure inbox_domain is_open record_failure Maps.get text_eq
still_healthy = refl

deliver-health_example : Maps.get alice idle.health ≡ some true
deliver-health_example = deliver-health bare_hosts refusal (to 2 0) alice idle still_healthy
