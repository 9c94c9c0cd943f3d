-- ===== src/Delivery/Health.antt =====
-- What deliveries record of the health of peers (deliver of internal/activitypub/delivery_queue.go).
use apoci.Prelude.{ℕ, ◌≡◌, true, false, some, Text, text_eq_refl, ◌⊎◌, arith}
use apoci.Prelude.Maps
use apoci.Prelude.Maps.{get-put, get-delete}
use apoci.Urls.{Urls}
use apoci.Circuit.Delivery.{is_open}
use apoci.Delivery.{Delivery}
use apoci.Delivery.Worker.{
  Worker, Outcome, inbox_domain, deliver, check_circuit, note_failure, note_success, is_empty,
}

-- After a check that answers `closed`, a check at any later instant answers the same.
check_then_closed :
    (now later : ℕ) (domain : Text) (w : Worker)
    → is_empty domain ≡ false
    → (check_circuit now domain w).1 ≡ false
    → (is_open later domain (check_circuit now domain w).0.circuit).1 ≡ false
unfolding check_circuit is_open
check_then_closed now later domain w ne closed =
    ground (arith, get-delete domain domain w.circuit.open_until, text_eq_refl domain)

failure_health :
    (o : Outcome) (domain k : Text) (w : Worker)
    → Maps.get k (note_failure o domain w).health ≡ some true
    → Maps.get k w.health ≡ some true
unfolding note_failure
failure_health o domain k w h = ground (arith, get-put domain k false w.health)

success_health :
    (o : Outcome) (domain : Text) (w : Worker)
    → ((is_open o.finish domain w.circuit).1 ≡ false) ⊎ (is_empty domain ≡ true)
    → (note_success o domain w).health ≡ w.health
unfolding note_success
success_health o domain w h = ground arith

health_of_checked :
    (now : ℕ) (domain : Text) (w : Worker) → (check_circuit now domain w).0.health ≡ w.health
unfolding check_circuit
health_of_checked now domain w = ground arith

-- A delivery that no other delivery runs beside never records a peer as healthy: a domain that is
-- recorded healthy after it was recorded healthy before.
pub deliver-health :
    (urls : Urls) (o : Outcome) (d : Delivery) (k : Text) (w : Worker)
    → Maps.get k (deliver urls o d w).health ≡ some true
    → Maps.get k w.health ≡ some true
unfolding deliver
deliver-health urls o d k w h =
    let domain = inbox_domain urls d.inbox_url in
    let w' = (check_circuit o.start domain w).0 in
    ground (
      arith,
      health_of_checked o.start domain w,
      failure_health o domain k w',
      success_health o domain w',
      check_then_closed o.start o.finish domain w,
    )
