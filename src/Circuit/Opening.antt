-- ===== src/Circuit/Opening.antt =====
-- When the circuit of a peer domain is open (internal/activitypub/delivery_queue.go).
use apoci.Prelude.{
  ℕ, ◌+◌, ◌<◌, ◌≤◌, ◌≡◌, false, Option, none, some, Text, text_eq, text_eq_refl, leb, arith,
  if◌then◌else◌,
}
use apoci.Prelude.Maps
use apoci.Prelude.Maps.{map_laws, get-put, get-delete}
use apoci.Circuit.Delivery.{
  CircuitBreaker, circuit_open_duration, circuit_breaker_threshold, or_zero, is_open,
  record_success, record_failure, force_open,
}

abbrev pub deadline : Text → CircuitBreaker → Option ℕ
deadline domain cb = Maps.get domain cb.open_until

abbrev pub failure_count : Text → CircuitBreaker → ℕ
failure_count domain cb = or_zero (Maps.get domain cb.failures)

-- A failure opens the circuit, and is reported as opening it, exactly when no deadline is set and
-- it is at least the fifth that is counted; it then sets the deadline an hour ahead. A deadline
-- that is set stays, and the failure is counted on every branch.
pub record_failure_opens :
    (now : ℕ) (domain : Text) (cb : CircuitBreaker)
    → ((record_failure now domain cb).1 ≡ (elim (deadline domain cb) [
      | none ↦ leb circuit_breaker_threshold (failure_count domain cb + 1)
      | some t ↦ false
    ]))
      × (deadline domain (record_failure now domain cb).0 ≡ (
          if (record_failure now domain cb).1
          then some (now + circuit_open_duration)
          else deadline domain cb))
      × (failure_count domain (record_failure now domain cb).0 ≡ failure_count domain cb + 1)
unfolding record_failure
record_failure_opens now domain cb = (
  ground arith,
  ground (
    arith,
    get-put domain domain (now + circuit_open_duration) cb.open_until,
    text_eq_refl domain,
  ),
  ground
      (arith, get-put domain domain (failure_count domain cb + 1) cb.failures, text_eq_refl domain),
)

-- With a deadline set the circuit reads as open up to and at the deadline, and the breaker is left
-- as it is; past it the circuit reads as closed and both the deadline and the count are dropped.
pub is_open_until :
    (now t : ℕ) (domain : Text) (cb : CircuitBreaker)
    → deadline domain cb ≡ some t
    → ((is_open now domain cb).1 ≡ leb now t)
      × (now ≤ t → (is_open now domain cb).0 ≡ cb)
      × (t < now
          → (deadline domain (is_open now domain cb).0 ≡ none)
            × (failure_count domain (is_open now domain cb).0 ≡ 0))
unfolding is_open
is_open_until now t domain cb h = (
  ground arith,
  λ le. ground arith,
  λ lt. (
    ground (arith, get-delete domain domain cb.open_until, text_eq_refl domain),
    ground (arith, get-delete domain domain cb.failures, text_eq_refl domain),
  ),
)

-- What a breaker holds of one domain.
abbrev pub held : Text → CircuitBreaker → Option ℕ × Option ℕ
held domain cb = (Maps.get domain cb.failures, Maps.get domain cb.open_until)

-- A check, a success, a failure and a forced opening of one domain change nothing that is held of
-- another.
pub domains_independent :
    (now duration : ℕ) (d e : Text) (cb : CircuitBreaker)
    → text_eq d e ≡ false
    → (held e (is_open now d cb).0 ≡ held e cb)
      × (held e (record_success d cb) ≡ held e cb)
      × (held e (record_failure now d cb).0 ≡ held e cb)
      × (held e (force_open now d duration cb) ≡ held e cb)
unfolding is_open record_success record_failure force_open
domains_independent now duration d e cb ne = (
  ground (arith, get-delete d e cb.failures, get-delete d e cb.open_until),
  ground (arith, get-delete d e cb.failures, get-delete d e cb.open_until),
  ground (
    arith,
    get-put d e (failure_count d cb + 1) cb.failures,
    get-put d e (now + circuit_open_duration) cb.open_until,
  ),
  ground (arith, get-put d e (now + duration) cb.open_until),
)
