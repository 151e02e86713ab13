-- ===== src/Client/Tripping.antt =====
-- When the circuit breaker opens and closes (sdk/go/yvonne/retry_circuit_breaker.go).
use yvonne.Base.{ℕ, ◌<◌, ◌≤◌, List, [], ◌∷◌, ◌≡◌, ◌≢◌, refl, arith}
use yvonne.Client.Breaker.{
  circuit_closed, CircuitBreakerConfig, CircuitBreaker, new_circuit_breaker, record_failure, Signal,
  asked, succeeded, failed, signal, signals, failures,
}

-- The breaker is closed exactly while the failures since the last success are fewer than the
-- threshold.
pub record IsTuned (b : CircuitBreaker) : Type 0 where
  pub closed_below : b.state ≡ circuit_closed → b.failure_count < b.config.failure_threshold
  pub tripped_at : b.state ≢ circuit_closed → b.config.failure_threshold ≤ b.failure_count

pub new-IsTuned :
    (config : CircuitBreakerConfig)
    → 0 < config.failure_threshold
    → IsTuned (new_circuit_breaker config)
unfolding new_circuit_breaker
new-IsTuned config h = record { closed_below = λ e. h; tripped_at = λ e. absurd (e refl) }

config-signal : (b : CircuitBreaker) (s : Signal) → (signal b s).config ≡ b.config
unfolding signal
config-signal b s = ground arith

signal-IsTuned :
    (b : CircuitBreaker) (s : Signal)
    → 0 < b.config.failure_threshold
    → IsTuned b
    → IsTuned (signal b s)
unfolding signal
signal-IsTuned b (asked now) h t = ground arith
signal-IsTuned b succeeded h t = record { closed_below = λ e. h; tripped_at = λ e. absurd (e refl) }
signal-IsTuned b (failed now) h t = ground arith

-- Under any questions, successes and failures, a breaker whose threshold is not 0 is closed while
-- the failures since the last success are fewer than the threshold, and open or half-open from then
-- on.
pub signals-IsTuned :
    (b : CircuitBreaker) (events : List Signal)
    → 0 < b.config.failure_threshold
    → IsTuned b
    → IsTuned (signals b events)
unfolding signals
signals-IsTuned b [] h t = t
signals-IsTuned b (s ∷ events) h t =
    signals-IsTuned (signal b s) events (ground (arith, config-signal b s)) (signal-IsTuned b s h t)

-- The breaker after those failures and one more at the last time.
abbrev pub tripped : CircuitBreaker → List ℕ → ℕ → CircuitBreaker
tripped b times last = record_failure last (failures b times)
