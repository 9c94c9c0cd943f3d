-- ===== src/Delivery/Worker.antt =====
-- DeliveryQueue of internal/activitypub/delivery_queue.go: one delivery, and one batch. What the
-- network and the database answer, and the clock, are given for each delivery. Logging and metrics
-- are left out.
use apoci.Prelude.{
  ℕ, Bool, true, false, Option, none, some, List, [], ◌∷◌, Text, codes, if◌then◌else◌,
}
use apoci.Prelude.Maps
use apoci.Prelude.Maps.{Map}
use apoci.Urls.{Urls}
use apoci.Circuit.Delivery.{
  CircuitBreaker, circuit_open_duration, is_open, record_success, record_failure, force_open,
}
use apoci.Delivery.{
  Delivery, DeliveryQueue, pending_deliveries, mark_delivered, mark_delivery_failed,
  cleanup_deliveries,
}

-- The breaker, the table, and what SetPeerHealthByDomain has last written for each domain.
pub record Worker : Type 0 where
  pub circuit : CircuitBreaker
  pub queue : DeliveryQueue
  pub health : Map Bool

-- The surroundings of one delivery: the instants before and after the request, its error if it
-- had one, and for each statement on the database whether it fails.
pub record Outcome : Type 0 where
  pub start : ℕ
  pub finish : ℕ
  pub error : Option Text
  pub mark_fails : Bool
  pub health_fails : Bool

abbrev pub delivery_batch_size : ℕ
delivery_batch_size = 50

-- 7 * 24 * time.Hour
abbrev pub delivery_cleanup_age : ℕ
delivery_cleanup_age = 604_800_000_000_000

abbrev pub is_empty : Text → Bool
is_empty [] = true
is_empty (_ ∷ _) = false

unfoldable pub inbox_domain : Urls → Text → Text
inbox_domain urls inbox_url = elim (urls.parse inbox_url) [
  | none ↦ []
  | some u ↦ if is_empty u.host then [] else urls.hostname u
]

unfoldable pub set_peer_health : Outcome → Text → Bool → Worker → Worker
set_peer_health o domain healthy w =
    if o.health_fails then w else record w { health = Maps.put domain healthy w.health }

mark_failed : Outcome → ℕ → Delivery → Text → Worker → Worker
mark_failed o now d message w = if o.mark_fails then w else record w {
  queue = mark_delivery_failed now d.id d.attempts d.max_attempts message w.queue;
}

-- `domain != "" && q.circuit.isOpen(domain)`
unfoldable pub check_circuit : ℕ → Text → Worker → Worker × Bool
check_circuit now domain w =
    if is_empty domain
    then (w, false)
    else let (cb, answer) = is_open now domain w.circuit in (record w { circuit = cb }, answer)

unfoldable pub note_failure : Outcome → Text → Worker → Worker
unfolding set_peer_health
note_failure o domain w =
    if is_empty domain
    then w
    else let (cb, opened) = record_failure o.finish domain w.circuit in
      let w' = record w { circuit = cb } in if opened then set_peer_health o domain false w' else w'

unfoldable pub note_success : Outcome → Text → Worker → Worker
unfolding set_peer_health
note_success o domain w =
    if is_empty domain
    then w
    else let (cb, was_closed) = is_open o.finish domain w.circuit in
      let w' = record w { circuit = record_success domain cb } in
      if was_closed then set_peer_health o domain true w' else w'

finish_delivery : Outcome → Text → Delivery → Option Text → Worker → Worker
unfolding note_failure note_success mark_failed
finish_delivery o domain d (some message) w =
    mark_failed o o.finish d message (note_failure o domain w)
finish_delivery o domain d none w =
    let w' = note_success o domain w in
    if o.mark_fails then w' else record w' { queue = mark_delivered d.id w'.queue }

unfoldable pub deliver : Urls → Outcome → Delivery → Worker → Worker
unfolding check_circuit finish_delivery mark_failed
deliver urls o d w =
    let domain = inbox_domain urls d.inbox_url in
    let (w', circuit_open) = check_circuit o.start domain w in
    if circuit_open
    then mark_failed o o.start d (codes "circuit open") w'
    else finish_delivery o domain d o.error w'

-- The pool runs the deliveries of a batch in any order; here in the order of the list.
unfoldable pub deliver_all : Urls → (Delivery → Outcome) → List Delivery → Worker → Worker
deliver_all urls outcome [] w = w
deliver_all urls outcome (d ∷ ds) w = deliver_all urls outcome ds (deliver urls (outcome d) d w)

-- `query_fails` is the error of PendingDeliveries.
unfoldable pub process_batch : Urls → ℕ → Bool → (Delivery → Outcome) → Worker → Worker
unfolding deliver_all
process_batch urls now query_fails outcome w =
    if query_fails
    then w
    else deliver_all urls outcome (pending_deliveries now delivery_batch_size w.queue) w

force_all : ℕ → List Text → CircuitBreaker → CircuitBreaker
force_all now [] cb = cb
force_all now (d ∷ ds) cb = force_all now ds (force_open now d circuit_open_duration cb)

-- PreWarmCircuit; `none` is the error of UnhealthyPeerDomains.
unfoldable pub pre_warm_circuit : ℕ → Option (List Text) → Worker → Worker
unfolding force_all
pre_warm_circuit now none w = w
pre_warm_circuit now (some domains) w = record w { circuit = force_all now domains w.circuit }

-- `query_fails` is the error of CleanupDeliveries.
unfoldable pub cleanup : ℕ → Bool → Worker → Worker
cleanup now query_fails w =
    if query_fails
    then w
    else record w { queue = (cleanup_deliveries now delivery_cleanup_age w.queue).0 }
