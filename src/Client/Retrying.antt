-- ===== src/Client/Retrying.antt =====
-- How doWithRetry ends (sdk/go/yvonne/retry_circuit_breaker.go).
use yvonne.Base.{
  ℕ, zero, suc, ◌+◌, ◌<◌, ◌≤◌, Str, codes, decimal, has_prefix, has_prefix-append, Bool, true,
  false, ◌++◌, List, [], ◌∷◌, Option, none, some, ◌≡◌, refl, ap, subst, ◌∙◌, sym, arith,
}
use yvonne.Client.Breaker.{CircuitBreaker, allow}
use yvonne.Client.Retry.{
  contains_str, any_status, is_retryable, Outcome, done, retries_exceeded, on_success, on_failure,
  after_attempt, retry, do_with_retry,
}

some_value {ℓ} : {A : Type ℓ} {x y : A} → some x ≡ some y → x ≡ y
some_value e = cc

-- The breaker after `count` failed attempts from that one on.
unfoldable pub failed_attempts : (ℕ → ℕ) → ℕ → ℕ → Option CircuitBreaker → Option CircuitBreaker
failed_attempts time zero attempt b = b
failed_attempts time (suc count) attempt b =
    failed_attempts time count (suc attempt) (on_failure (time attempt) b)

module _ (statuses : Option (List ℕ)) (reply : ℕ → Option Str) (ended : ℕ → Bool)
    (time : ℕ → ℕ) where
  -- The attempt failed, in a way that allows another one.
  abbrev pub FailsAt : ℕ → Type 0
  FailsAt attempt = (e : Str) × (reply attempt ≡ some e) × (is_retryable statuses e ≡ true)

  first_fails : (attempt : ℕ) → FailsAt (0 + attempt) → FailsAt attempt
  first_fails attempt f = subst FailsAt (omega arith) f

  after_failure :
      (attempt : ℕ) (b : Option CircuitBreaker)
      (rest : Option CircuitBreaker → Str → Option CircuitBreaker × Outcome) (e : Str)
      → is_retryable statuses e ≡ true
      → after_attempt statuses reply ended time attempt b (some e) rest
        ≡ rest (on_failure (time attempt) b) e
  unfolding after_attempt
  after_failure attempt b rest e h = rw h refl

  retry-step :
      (left attempt : ℕ) (b : Option CircuitBreaker) (last_err : Str) (r : Option Str)
      → ended attempt ≡ false
      → reply attempt ≡ r
      → retry statuses reply ended time (suc left) attempt b last_err
        ≡ after_attempt statuses reply ended time attempt b r
            (λ c e. retry statuses reply ended time left (suc attempt) c e)
  unfolding retry
  retry-step left attempt b last_err r alive p = rw alive (
      ap
        (λ q.
          after_attempt statuses reply ended time attempt b q
            (λ c e. retry statuses reply ended time left (suc attempt) c e))
        p)

  retry-failure :
      (left attempt : ℕ) (b : Option CircuitBreaker) (last_err e : Str)
      → ended attempt ≡ false
      → reply attempt ≡ some e
      → is_retryable statuses e ≡ true
      → retry statuses reply ended time (suc left) attempt b last_err
        ≡ retry statuses reply ended time left (suc attempt) (on_failure (time attempt) b) e
  retry-failure left attempt b last_err e alive p q =
      retry-step left attempt b last_err (some e) alive p
      ∙ after_failure attempt b (λ c e. retry statuses reply ended time left (suc attempt) c e) e q

  retry-success :
      (more left attempt : ℕ) (b : Option CircuitBreaker) (last_err : Str)
      → more < left
      → ((i : ℕ) → ended i ≡ false)
      → ((i : ℕ) → i < more → FailsAt (i + attempt))
      → reply (more + attempt) ≡ none
      → retry statuses reply ended time left attempt b last_err
        ≡ (on_success (failed_attempts time more attempt b), done)
  unfolding failed_attempts after_attempt
  retry-success more zero attempt b last_err h alive fails good = absurd (omega arith)
  retry-success zero (suc left) attempt b last_err h alive fails good =
      retry-step left attempt b last_err none (alive attempt) (ap reply (omega arith) ∙ good)
  retry-success (suc more) (suc left) attempt b last_err h alive fails good =
      let (e, p, q) = first_fails attempt (fails 0 (omega arith)) in
      retry-failure left attempt b last_err e (alive attempt) p q
      ∙ retry-success more left (suc attempt) (on_failure (time attempt) b) e (omega arith) alive
          (λ i small. subst FailsAt (omega arith) (fails (suc i) (omega arith)))
          (ap reply (omega arith) ∙ good)

  retry-exceeded :
      (left attempt : ℕ) (b : Option CircuitBreaker) (last_err e : Str)
      → ((i : ℕ) → ended i ≡ false)
      → ((i : ℕ) → i < suc left → FailsAt (i + attempt))
      → reply (left + attempt) ≡ some e
      → retry statuses reply ended time (suc left) attempt b last_err
        ≡ (failed_attempts time (suc left) attempt b, retries_exceeded e)
  unfolding failed_attempts retry
  retry-exceeded zero attempt b last_err e alive fails bad =
      let (x, p, q) = first_fails attempt (fails 0 (omega arith)) in
      retry-failure zero attempt b last_err e (alive attempt) (ap reply (omega arith) ∙ bad) (
        subst (λ y. is_retryable statuses y ≡ true)
          (some_value (sym p ∙ ap reply (omega arith) ∙ bad)) q)
  retry-exceeded (suc left) attempt b last_err e alive fails bad =
      let (x, p, q) = first_fails attempt (fails 0 (omega arith)) in
      retry-failure (suc left) attempt b last_err x (alive attempt) p q
      ∙ retry-exceeded left (suc attempt) (on_failure (time attempt) b) x e alive
          (λ i small. subst FailsAt (omega arith) (fails (suc i) (omega arith)))
          (ap reply (omega arith) ∙ bad)

  module _ (max_retries now : ℕ) (b allowed : CircuitBreaker) (asks : allow now b ≡ (allowed, true))
      (alive : (i : ℕ) → ended i ≡ false) where
    as_retry :
        do_with_retry statuses reply ended time max_retries now (some b)
        ≡ retry statuses reply ended time (suc max_retries) 0 (some allowed) []
    unfolding do_with_retry
    as_retry = rw asks (sym (retry-step max_retries 0 (some allowed) [] (reply 0) (alive 0) refl))

    -- A request that its breaker lets through, whose context does not end, and whose attempts fail
    -- in a way that allows another one until the first that succeeds, is done if that is within the
    -- retries: no further attempt is made, and the breaker has counted every failure and then the
    -- success.
    pub do_with_retry-success :
        (failing : ℕ)
        → failing ≤ max_retries
        → ((i : ℕ) → i < failing → FailsAt i)
        → reply failing ≡ none
        → do_with_retry statuses reply ended time max_retries now (some b)
          ≡ (on_success (failed_attempts time failing 0 (some allowed)), done)
    do_with_retry-success failing h fails good =
        as_retry
        ∙ retry-success failing (suc max_retries) 0 (some allowed) [] (omega arith) alive
            (λ i small. subst FailsAt (omega arith) (fails i small)) (ap reply (omega arith) ∙ good)

    -- If all of its attempts fail so, it ends after the retries with the last error, and every
    -- attempt has counted as a failure with the breaker.
    pub do_with_retry-exceeded :
        (e : Str)
        → ((i : ℕ) → i ≤ max_retries → FailsAt i)
        → reply max_retries ≡ some e
        → do_with_retry statuses reply ended time max_retries now (some b)
          ≡ (failed_attempts time (suc max_retries) 0 (some allowed), retries_exceeded e)
    do_with_retry-exceeded e fails bad =
        as_retry
        ∙ retry-exceeded max_retries 0 (some allowed) [] e alive
            (λ i small. subst FailsAt (omega arith) (fails i (omega arith)))
            (ap reply (omega arith) ∙ bad)

contains_prefix : (s sub : Str) → has_prefix s sub ≡ true → contains_str s sub ≡ true
unfolding contains_str
contains_prefix [] sub h = h
contains_prefix (c ∷ s) sub h = rw h refl

contains_str-append : (before sub after : Str) → contains_str (before ++ (sub ++ after)) sub ≡ true
unfolding contains_str
contains_str-append [] sub after = contains_prefix (sub ++ after) sub (has_prefix-append sub after)
contains_str-append (c ∷ before) sub after = ground (arith, contains_str-append before sub after)

any_status-middle :
    (before after : List ℕ) (code : ℕ) (err_str : Str)
    → contains_str err_str (codes "HTTP " ++ decimal code) ≡ true
    → any_status (before ++ code ∷ after) err_str ≡ true
unfolding any_status
any_status-middle [] after code err_str h = rw h refl
any_status-middle (c ∷ before) after code err_str h =
    ground (arith, any_status-middle before after code err_str h)

-- An error that names a configured status, wherever in its text, is retryable, and so is any error
-- that names no HTTP status at all; without a configuration nothing is retryable.
pub is_retryable_lem :
    (before after : List ℕ) (code : ℕ) (start rest : Str)
    → (is_retryable
          (some (before ++ code ∷ after))
          (start ++ ((codes "HTTP " ++ decimal code) ++ rest))
        ≡ true)
      × ((err_str : Str)
          → contains_str err_str (codes "HTTP ") ≡ false
          → is_retryable (some (before ++ code ∷ after)) err_str ≡ true)
      × ((err_str : Str) → is_retryable none err_str ≡ false)
unfolding is_retryable
is_retryable_lem before after code start rest = (
  rw
      (any_status-middle before after code (start ++ ((codes "HTTP " ++ decimal code) ++ rest))
        (contains_str-append start (codes "HTTP " ++ decimal code) rest))
      refl,
  λ err_str h. ground (arith),
  λ err_str. refl,
)
