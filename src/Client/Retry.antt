-- ===== src/Client/Retry.antt =====
-- sdk/go/yvonne/retry_circuit_breaker.go: doWithRetry. What doOnce answers at an attempt, whether
-- the context ended before it, and the time of its end are functions of the attempt's number; the
-- length of the pause between attempts is left out.
use yvonne.Base.{
  ℕ, zero, suc, Str, codes, decimal, has_prefix, Bool, true, false, not, ◌++◌, List, [], ◌∷◌,
  Option, none, some, if◌then◌else◌,
}
use yvonne.Client.Breaker.{CircuitBreaker, allow, record_success, record_failure}

-- `strings.Contains`: containsStr and indexOfStr.
unfoldable pub contains_str : Str → Str → Bool
contains_str [] sub = has_prefix [] sub
contains_str (c ∷ s) sub = if has_prefix (c ∷ s) sub then true else contains_str s sub

unfoldable pub any_status : List ℕ → Str → Bool
any_status [] err_str = false
any_status (code ∷ statuses) err_str =
    if contains_str err_str (codes "HTTP " ++ decimal code)
    then true
    else any_status statuses err_str

-- isRetryable, on the text of the error; `retryable_status` are the keys of RetryableStatus, `none`
-- where there is no configuration.
unfoldable pub is_retryable : Option (List ℕ) → Str → Bool
is_retryable none err_str = false
is_retryable (some statuses) err_str =
    if any_status statuses err_str then true else not (contains_str err_str (codes "HTTP "))

pub data Outcome : Type 0 where
  done : Outcome
  circuit_refused : Outcome
  context_done : Outcome
  not_retryable : Str → Outcome
  retries_exceeded : Str → Outcome

unfoldable pub on_success : Option CircuitBreaker → Option CircuitBreaker
on_success none = none
on_success (some b) = some (record_success b)

unfoldable pub on_failure : ℕ → Option CircuitBreaker → Option CircuitBreaker
on_failure now none = none
on_failure now (some b) = some (record_failure now b)

module _ (statuses : Option (List ℕ)) (reply : ℕ → Option Str) (ended : ℕ → Bool)
    (time : ℕ → ℕ) where
  -- An attempt that was made, and the rest of the loop where it goes on: the last argument.
  unfoldable pub after_attempt :
      ℕ
      → Option CircuitBreaker
      → Option Str
      → (Option CircuitBreaker → Str → Option CircuitBreaker × Outcome)
      → Option CircuitBreaker × Outcome
  after_attempt attempt b none rest = (on_success b, done)
  after_attempt attempt b (some e) rest =
      if is_retryable statuses e
      then rest (on_failure (time attempt) b) e
      else (on_failure (time attempt) b, not_retryable e)

  -- The attempts after the first, of which `left` remain.
  unfoldable pub retry : ℕ → ℕ → Option CircuitBreaker → Str → Option CircuitBreaker × Outcome
  unfolding after_attempt
  retry zero attempt b last_err = (b, retries_exceeded last_err)
  retry (suc left) attempt b last_err =
      if ended attempt
      then (b, context_done)
      else after_attempt attempt b (reply attempt) (λ b' e. retry left (suc attempt) b' e)

  -- doWithRetry, at the time of its start.
  unfoldable pub do_with_retry : ℕ → ℕ → Option CircuitBreaker → Option CircuitBreaker × Outcome
  unfolding retry
  do_with_retry max_retries now none =
      after_attempt 0 none (reply 0) (λ b e. retry max_retries 1 b e)
  do_with_retry max_retries now (some b) =
      let (b', allowed) = allow now b in
      if allowed
      then after_attempt 0 (some b') (reply 0) (λ c e. retry max_retries 1 c e)
      else (some b', circuit_refused)
