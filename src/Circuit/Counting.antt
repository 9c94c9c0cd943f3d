-- ===== src/Circuit/Counting.antt =====
-- What the two breakers make of a run of attempts: the breaker of the delivery queue counts the
-- failures between openings, that of the upstream fetcher the consecutive ones.
use apoci.Prelude.{ℕ, suc, ◌+◌, ◌<◌, ◌≡◌, refl, none, List, [], ◌∷◌, Text, text_eq_refl, arith}
use apoci.Prelude.Maps
use apoci.Prelude.Maps.{get-put, get-delete}
use apoci.Circuit.Delivery
use apoci.Circuit.Upstream

pub data Attempt : Type 0 where
  failed_at : ℕ → Attempt
  succeeded : Attempt

-- The attempts of one domain, fed to the breaker of the delivery queue.
unfoldable pub replay_delivery :
    Text → List Attempt → Delivery.CircuitBreaker → Delivery.CircuitBreaker
replay_delivery d [] cb = cb
replay_delivery d (failed_at now ∷ es) cb =
    replay_delivery d es (Delivery.record_failure now d cb).0
replay_delivery d (succeeded ∷ es) cb = replay_delivery d es (Delivery.record_success d cb)

unfoldable pub replay_upstream :
    Text → List Attempt → Upstream.CircuitBreaker → Upstream.CircuitBreaker
replay_upstream r [] cb = cb
replay_upstream r (failed_at now ∷ es) cb =
    replay_upstream r es (Upstream.record_failure now r cb).0
replay_upstream r (succeeded ∷ es) cb = replay_upstream r es (Upstream.record_success r cb).0

abbrev pub failures_in : List Attempt → ℕ
failures_in [] = 0
failures_in (failed_at _ ∷ es) = suc (failures_in es)
failures_in (succeeded ∷ es) = failures_in es

-- The length of the run of failures that ends the list, if `n` failures stood before it.
abbrev pub streak : ℕ → List Attempt → ℕ
streak n [] = n
streak n (failed_at _ ∷ es) = streak (suc n) es
streak n (succeeded ∷ es) = streak 0 es

-- No run of consecutive failures reaches five.
abbrev pub StaysBelow : ℕ → List Attempt → Type 0
StaysBelow n [] = n < 5
StaysBelow n (failed_at _ ∷ es) = (suc n < 5) × StaysBelow (suc n) es
StaysBelow n (succeeded ∷ es) = StaysBelow 0 es

module _ (d : Text) where
  abbrev delivery_count : Delivery.CircuitBreaker → ℕ
  delivery_count cb = Delivery.or_zero (Maps.get d cb.failures)

  failure_step :
      (now : ℕ) (cb : Delivery.CircuitBreaker)
      → Maps.get d cb.open_until ≡ none
      → delivery_count cb + 1 < 5
      → (Maps.get d (Delivery.record_failure now d cb).0.open_until ≡ none)
        × (delivery_count (Delivery.record_failure now d cb).0 ≡ delivery_count cb + 1)
  unfolding Delivery.record_failure
  failure_step now cb h lt =
      ground (arith, get-put d d (delivery_count cb + 1) cb.failures, text_eq_refl d)

  success_step :
      (cb : Delivery.CircuitBreaker)
      → Maps.get d cb.open_until ≡ none
      → Delivery.record_success d cb ≡ cb
  unfolding Delivery.record_success
  success_step cb h = ground arith

  -- Where no deadline is set and fewer than five failures are counted, those from before and those
  -- of the attempts together, the circuit of the domain stays closed and the count is the number of
  -- failures so far, whatever successes stand between them.
  pub replay_delivery_counts :
      (es : List Attempt) (cb : Delivery.CircuitBreaker)
      → Maps.get d cb.open_until ≡ none
      → Delivery.or_zero (Maps.get d cb.failures) + failures_in es < 5
      → (Maps.get d (replay_delivery d es cb).open_until ≡ none)
        × (Delivery.or_zero (Maps.get d (replay_delivery d es cb).failures)
            ≡ Delivery.or_zero (Maps.get d cb.failures) + failures_in es)
  unfolding replay_delivery
  replay_delivery_counts [] cb h lt = (h, omega arith)
  replay_delivery_counts (failed_at now ∷ es) cb h lt =
      let (closed, count) = failure_step now cb h (omega arith) in
      let (closed', count') =
        replay_delivery_counts es (Delivery.record_failure now d cb).0 closed (omega arith) in
      (closed', omega arith)
  replay_delivery_counts (succeeded ∷ es) cb h lt =
      rw (success_step cb h, replay_delivery) (replay_delivery_counts es cb h lt)

module _ (r : Text) where
  upstream_failure_step :
      (now : ℕ) (cb : Upstream.CircuitBreaker)
      → Maps.get r cb.open_until ≡ none
      → Upstream.or_zero (Maps.get r cb.failures) + 1 < 5
      → (Maps.get r (Upstream.record_failure now r cb).0.open_until ≡ none)
        × (Upstream.or_zero (Maps.get r (Upstream.record_failure now r cb).0.failures)
            ≡ suc (Upstream.or_zero (Maps.get r cb.failures)))
  unfolding Upstream.record_failure
  upstream_failure_step now cb h lt = ground (
    arith,
    get-put r r (Upstream.or_zero (Maps.get r cb.failures) + 1) cb.failures,
    text_eq_refl r,
  )

  upstream_success_step :
      (cb : Upstream.CircuitBreaker)
      → (Maps.get r (Upstream.record_success r cb).0.open_until ≡ none)
        × (Upstream.or_zero (Maps.get r (Upstream.record_success r cb).0.failures) ≡ 0)
  unfolding Upstream.record_success
  upstream_success_step cb =
      ground (arith, get-delete r r cb.failures, get-delete r r cb.open_until, text_eq_refl r)

  replay_from :
      (n : ℕ) (es : List Attempt) (cb : Upstream.CircuitBreaker)
      → Maps.get r cb.open_until ≡ none
      → Upstream.or_zero (Maps.get r cb.failures) ≡ n
      → StaysBelow n es
      → (Maps.get r (replay_upstream r es cb).open_until ≡ none)
        × (Upstream.or_zero (Maps.get r (replay_upstream r es cb).failures) ≡ streak n es)
  unfolding replay_upstream
  replay_from n [] cb h e below = (h, e)
  replay_from n (failed_at now ∷ es) cb h e below =
      let (closed, count) = upstream_failure_step now cb h (omega arith) in
      replay_from (suc n) es (Upstream.record_failure now r cb).0 closed (omega arith) below.1
  replay_from n (succeeded ∷ es) cb h e below =
      let (closed, count) = upstream_success_step cb in
      replay_from 0 es (Upstream.record_success r cb).0 closed count below

  -- From a new breaker, while no run of consecutive failures reaches five the circuit of a registry
  -- stays closed, and the count is the length of the run of failures that the attempts end in.
  pub replay_upstream_counts :
      (es : List Attempt)
      → StaysBelow 0 es
      → (Maps.get r (replay_upstream r es Upstream.new_circuit_breaker).open_until ≡ none)
        × (Upstream.or_zero
              (Maps.get r (replay_upstream r es Upstream.new_circuit_breaker).failures)
            ≡ streak 0 es)
  replay_upstream_counts es below =
      replay_from 0 es Upstream.new_circuit_breaker (unfold Maps.get in refl)
        (unfold Maps.get in refl) below
