-- ===== src/Tests/Circuits.antt =====
-- Runs of the two circuit breakers.
use apoci.Prelude.{
  ◌+◌, ◌<◌, ◌≤◌, ◌≡◌, refl, false, none, some, List, [], ◌∷◌, arith, leb, if◌then◌else◌, text_eq,
}
use apoci.Prelude.Maps
use apoci.Circuit.Delivery
use apoci.Circuit.Delivery.{
  CircuitBreaker, circuit_open_duration, circuit_breaker_threshold, is_open, record_failure,
  record_success, force_open,
}
use apoci.Circuit.Upstream
use apoci.Circuit.Opening.{
  deadline, failure_count, held, record_failure_opens, is_open_until, domains_independent,
}
use apoci.Circuit.Counting.{
  Attempt, failed_at, succeeded, replay_delivery, replay_upstream, failures_in, streak,
  replay_delivery_counts, replay_upstream_counts,
}
use apoci.Tests.{alice, bob}

-- Four failures of one domain, and the circuit of the other open until 100.
abbrev near : CircuitBreaker
near = record { failures = (alice, 4) ∷ (bob, 5) ∷ []; open_until = (bob, 100) ∷ [] }

record_failure_opens_example :
    ((record_failure 7 alice near).1 ≡ (elim (deadline alice near) [
      | none ↦ leb circuit_breaker_threshold (failure_count alice near + 1)
      | some t ↦ false
    ]))
    × (deadline alice (record_failure 7 alice near).0 ≡ (
        if (record_failure 7 alice near).1
        then some (7 + circuit_open_duration)
        else deadline alice near))
    × (failure_count alice (record_failure 7 alice near).0 ≡ failure_count alice near + 1)
record_failure_opens_example = record_failure_opens 7 alice near

is_open_until_example :
    ((is_open 101 bob near).1 ≡ leb 101 100)
    × (101 ≤ 100 → (is_open 101 bob near).0 ≡ near)
    × (100 < 101
        → (deadline bob (is_open 101 bob near).0 ≡ none)
          × (failure_count bob (is_open 101 bob near).0 ≡ 0))
is_open_until_example = is_open_until 101 100 bob near (unfold Maps.get text_eq in refl)

domains_independent_example :
    (held bob (is_open 7 alice near).0 ≡ held bob near)
    × (held bob (record_success alice near) ≡ held bob near)
    × (held bob (record_failure 7 alice near).0 ≡ held bob near)
    × (held bob (force_open 7 alice 60 near) ≡ held bob near)
domains_independent_example = domains_independent 7 60 alice bob near (unfold text_eq in refl)

abbrev attempts : List Attempt
attempts = failed_at 1 ∷ succeeded ∷ failed_at 2 ∷ failed_at 3 ∷ []

replay_delivery_counts_example :
    (Maps.get alice (replay_delivery alice attempts Delivery.new_circuit_breaker).open_until ≡ none)
    × (Delivery.or_zero
          (Maps.get alice (replay_delivery alice attempts Delivery.new_circuit_breaker).failures)
        ≡ Delivery.or_zero (Maps.get alice Delivery.new_circuit_breaker.failures)
          + failures_in attempts)
replay_delivery_counts_example =
    replay_delivery_counts alice attempts Delivery.new_circuit_breaker (unfold Maps.get in refl)
      (unfold Maps.get in omega arith)

replay_upstream_counts_example :
    (Maps.get alice (replay_upstream alice attempts Upstream.new_circuit_breaker).open_until ≡ none)
    × (Upstream.or_zero
          (Maps.get alice (replay_upstream alice attempts Upstream.new_circuit_breaker).failures)
        ≡ streak 0 attempts)
replay_upstream_counts_example =
    replay_upstream_counts alice attempts (omega arith, (omega arith, (omega arith, omega arith)))
