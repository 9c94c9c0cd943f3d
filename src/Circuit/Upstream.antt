-- ===== src/Circuit/Upstream.antt =====
-- circuitBreaker of internal/upstream/circuit.go. Each method runs under the
-- mutex, so it is one step. An instant and a duration are numbers of nanoseconds.
use apoci.Prelude.{
  ℕ, suc, ◌+◌, Bool, true, false, Option, none, some, [], ◌∷◌, Text, ltb, leb, is_some,
  if◌then◌else◌,
}
use apoci.Prelude.Maps
use apoci.Prelude.Maps.{Map}

abbrev pub circuit_threshold : ℕ
circuit_threshold = 5

-- 5 * time.Minute
abbrev pub circuit_open_duration : ℕ
circuit_open_duration = 300_000_000_000

pub record CircuitBreaker : Type 0 where
  pub failures : Map ℕ
  pub open_until : Map ℕ

abbrev pub new_circuit_breaker : CircuitBreaker
new_circuit_breaker = record { failures = []; open_until = [] }

-- The value of a Go map of int at a key: 0 where there is none.
abbrev pub or_zero : Option ℕ → ℕ
or_zero none = 0
or_zero (some n) = n

forget : Text → CircuitBreaker → CircuitBreaker
forget registry cb = record {
  failures = Maps.delete registry cb.failures;
  open_until = Maps.delete registry cb.open_until;
}

is_open_at : ℕ → Text → Option ℕ → CircuitBreaker → CircuitBreaker × Bool
unfolding forget
is_open_at now registry none cb = (cb, false)
is_open_at now registry (some t) cb = if ltb t now then (forget registry cb, false) else (cb, true)

unfoldable pub is_open : ℕ → Text → CircuitBreaker → CircuitBreaker × Bool
unfolding is_open_at
is_open now registry cb = is_open_at now registry (Maps.get registry cb.open_until) cb

-- The second result is `wasOpen`.
unfoldable pub record_success : Text → CircuitBreaker → CircuitBreaker × Bool
unfolding forget
record_success registry cb = (forget registry cb, is_some (Maps.get registry cb.open_until))

open_after_failure : ℕ → Text → ℕ → Option ℕ → CircuitBreaker → CircuitBreaker × Bool
open_after_failure now registry count none cb =
    if leb circuit_threshold count
    then (
      record cb { open_until = Maps.put registry (now + circuit_open_duration) cb.open_until },
      true,
    )
    else (cb, false)
open_after_failure now registry count (some t) cb = (cb, false)

unfoldable pub record_failure : ℕ → Text → CircuitBreaker → CircuitBreaker × Bool
unfolding open_after_failure
record_failure now registry cb =
    let count = or_zero (Maps.get registry cb.failures) + 1 in
    open_after_failure now registry count (Maps.get registry cb.open_until)
      (record cb { failures = Maps.put registry count cb.failures })

count_open : ℕ → Map ℕ → ℕ
count_open now [] = 0
count_open now ((k, t) ∷ m) = let rest = count_open now m in if ltb now t then suc rest else rest

unfoldable pub open_count : ℕ → CircuitBreaker → ℕ
unfolding count_open
open_count now cb = count_open now cb.open_until
