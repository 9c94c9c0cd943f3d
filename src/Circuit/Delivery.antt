-- ===== src/Circuit/Delivery.antt =====
-- deliveryCircuitBreaker of internal/activitypub/delivery_queue.go. Each method runs under the
-- mutex, so it is one step. An instant and a duration are numbers of nanoseconds.
use apoci.Prelude.{
  ℕ, suc, ◌+◌, Bool, true, false, Option, none, some, [], ◌∷◌, Text, ltb, leb, if◌then◌else◌,
}
use apoci.Prelude.Maps
use apoci.Prelude.Maps.{Map}

abbrev pub circuit_breaker_threshold : ℕ
circuit_breaker_threshold = 5

-- time.Hour
abbrev pub circuit_open_duration : ℕ
circuit_open_duration = 3_600_000_000_000

pub record CircuitBreaker : Type 0 where
  pub failures : Map ℕ
  pub open_until : Map ℕ

abbrev pub new_circuit_breaker : CircuitBreaker
new_circuit_breaker = record { failures = []; open_until = [] }

-- The value of a Go map of int at a key: 0 where there is none.
abbrev pub or_zero : Option ℕ → ℕ
or_zero none = 0
or_zero (some n) = n

forget : Text → CircuitBreaker → CircuitBreaker
forget domain cb = record {
  failures = Maps.delete domain cb.failures;
  open_until = Maps.delete domain cb.open_until;
}

is_open_at : ℕ → Text → Option ℕ → CircuitBreaker → CircuitBreaker × Bool
unfolding forget
is_open_at now domain none cb = (cb, false)
is_open_at now domain (some t) cb = if ltb t now then (forget domain cb, false) else (cb, true)

unfoldable pub is_open : ℕ → Text → CircuitBreaker → CircuitBreaker × Bool
unfolding is_open_at
is_open now domain cb = is_open_at now domain (Maps.get domain cb.open_until) cb

record_success_at : Text → Option ℕ → CircuitBreaker → CircuitBreaker
unfolding forget
record_success_at domain none cb = cb
record_success_at domain (some t) cb = forget domain cb

unfoldable pub record_success : Text → CircuitBreaker → CircuitBreaker
unfolding record_success_at
record_success domain cb = record_success_at domain (Maps.get domain cb.open_until) cb

open_after_failure : ℕ → Text → ℕ → Option ℕ → CircuitBreaker → CircuitBreaker × Bool
open_after_failure now domain count none cb =
    if leb circuit_breaker_threshold count
    then (
      record cb { open_until = Maps.put domain (now + circuit_open_duration) cb.open_until },
      true,
    )
    else (cb, false)
open_after_failure now domain count (some t) cb = (cb, false)

unfoldable pub record_failure : ℕ → Text → CircuitBreaker → CircuitBreaker × Bool
unfolding open_after_failure
record_failure now domain cb =
    let count = or_zero (Maps.get domain cb.failures) + 1 in
    open_after_failure now domain count (Maps.get domain cb.open_until)
      (record cb { failures = Maps.put domain count cb.failures })

count_open : ℕ → Map ℕ → ℕ
count_open now [] = 0
count_open now ((k, t) ∷ m) = let rest = count_open now m in if ltb now t then suc rest else rest

unfoldable pub open_count : ℕ → CircuitBreaker → ℕ
unfolding count_open
open_count now cb = count_open now cb.open_until

unfoldable pub force_open : ℕ → Text → ℕ → CircuitBreaker → CircuitBreaker
force_open now domain duration cb = record cb {
  open_until = Maps.put domain (now + duration) cb.open_until;
}
