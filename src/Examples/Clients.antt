-- ===== src/Examples/Clients.antt =====
-- The circuit breaker and the retries of sdk/go/yvonne/retry_circuit_breaker.go, on small inputs.
use yvonne.Base.{
  ℕ, zero, suc, ◌<◌, Str, codes, decimal, has_prefix, [], ◌∷◌, Option, none, some, true, false, ◌≡◌,
  refl, arith,
}
use yvonne.Client.Breaker.{
  CircuitBreakerConfig, CircuitBreaker, asked, succeeded, failed, new_circuit_breaker, signals,
  allow,
}
use yvonne.Client.Tripping.{IsTuned, new-IsTuned, signals-IsTuned}
use yvonne.Client.Retry.{
  contains_str, any_status, is_retryable, do_with_retry, on_success, done, retries_exceeded,
}
use yvonne.Client.Retrying.{failed_attempts, do_with_retry-success, do_with_retry-exceeded}

abbrev config : CircuitBreakerConfig
config = record { failure_threshold = 2; reset_timeout = 60 }

abbrev fresh : CircuitBreaker
fresh = new_circuit_breaker config

signals-IsTuned_example : IsTuned (signals fresh (failed 1 ∷ failed 2 ∷ asked 70 ∷ succeeded ∷ []))
signals-IsTuned_example =
    signals-IsTuned fresh (failed 1 ∷ failed 2 ∷ asked 70 ∷ succeeded ∷ [])
      (unfold new_circuit_breaker in omega arith) (new-IsTuned config (omega arith))

-- A server that is away for the first attempt.
abbrev away : Str
away = codes "HTTP 503"

abbrev reply : ℕ → Option Str
reply zero = some away
reply (suc n) = none

abbrev never : ℕ → Option Str
never n = some away

away_retryable : is_retryable (some (503 ∷ [])) away ≡ true
unfolding is_retryable any_status contains_str has_prefix decimal
away_retryable = refl

first_fails :
    (i : ℕ) → i < 1 → (e : Str) × (reply i ≡ some e) × (is_retryable (some (503 ∷ [])) e ≡ true)
first_fails zero h = (away, refl, away_retryable)
first_fails (suc i) h = absurd (omega arith)

allowed : allow 0 fresh ≡ (fresh, true)
unfolding allow new_circuit_breaker
allowed = refl

do_with_retry-success_example :
    do_with_retry (some (503 ∷ [])) reply (λ i. false) (λ i. i) 3 0 (some fresh)
    ≡ (on_success (failed_attempts (λ i. i) 1 0 (some fresh)), done)
do_with_retry-success_example =
    do_with_retry-success (some (503 ∷ [])) reply (λ i. false) (λ i. i) 3 0 fresh fresh allowed
      (λ i. refl) 1 (omega arith) first_fails refl

do_with_retry-exceeded_example :
    do_with_retry (some (503 ∷ [])) never (λ i. false) (λ i. i) 3 0 (some fresh)
    ≡ (failed_attempts (λ i. i) 4 0 (some fresh), retries_exceeded away)
do_with_retry-exceeded_example =
    do_with_retry-exceeded (some (503 ∷ [])) never (λ i. false) (λ i. i) 3 0 fresh fresh allowed
      (λ i. refl) away (λ i h. (away, refl, away_retryable)) refl
