-- ===== src/Client/Breaker.antt =====
-- sdk/go/yvonne/retry_circuit_breaker.go: CircuitBreaker. Times are nanoseconds; each method is one
-- step.
use yvonne.Base.{ℕ, suc, ◌-◌, Bool, true, false, List, [], ◌∷◌, ltb, leb, if◌then◌else◌, Str, codes}

pub data CircuitState : Type 0 where
  circuit_closed circuit_open circuit_half_open : CircuitState

pub record CircuitBreakerConfig : Type 0 where
  pub failure_threshold : ℕ
  pub reset_timeout : ℕ

pub record CircuitBreaker : Type 0 where
  pub config : CircuitBreakerConfig
  pub state : CircuitState
  pub failure_count : ℕ
  pub last_failure_time : ℕ

-- NewCircuitBreaker
unfoldable pub new_circuit_breaker : CircuitBreakerConfig → CircuitBreaker
new_circuit_breaker config = record {
  config = config;
  state = circuit_closed;
  failure_count = 0;
  last_failure_time = 0;
}

-- Allow
unfoldable pub allow : ℕ → CircuitBreaker → CircuitBreaker × Bool
allow now b = elim b.state [
  | circuit_closed ↦ (b, true)
  | circuit_open ↦
      if ltb b.config.reset_timeout (now - b.last_failure_time)
      then (record b { state = circuit_half_open }, true)
      else (b, false)
  | circuit_half_open ↦ (b, true)
]

-- RecordSuccess
unfoldable pub record_success : CircuitBreaker → CircuitBreaker
record_success b = record b { failure_count = 0; state = circuit_closed }

-- RecordFailure
unfoldable pub record_failure : ℕ → CircuitBreaker → CircuitBreaker
record_failure now b =
    let count = suc b.failure_count in
    record b {
      failure_count = count;
      last_failure_time = now;
      state = if leb b.config.failure_threshold count then circuit_open else b.state;
    }

-- State
unfoldable pub state_name : CircuitBreaker → Str
state_name b = elim b.state [
  | circuit_closed ↦ codes "closed"
  | circuit_open ↦ codes "open"
  | circuit_half_open ↦ codes "half-open"
]

-- What can happen to a breaker, with the time where it matters.
pub data Signal : Type 0 where
  asked : ℕ → Signal
  succeeded : Signal
  failed : ℕ → Signal

unfoldable pub signal : CircuitBreaker → Signal → CircuitBreaker
unfolding allow record_success record_failure
signal b (asked now) = (allow now b).0
signal b succeeded = record_success b
signal b (failed now) = record_failure now b

unfoldable pub signals : CircuitBreaker → List Signal → CircuitBreaker
signals b [] = b
signals b (s ∷ rest) = signals (signal b s) rest

-- Failures at these times, one after another.
unfoldable pub failures : CircuitBreaker → List ℕ → CircuitBreaker
failures b [] = b
failures b (t ∷ times) = failures (record_failure t b) times
