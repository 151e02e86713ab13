-- ===== src/Auth/Mfa/Drift.antt =====
-- Which codes ValidateTOTP (internal/auth/totp.go) accepts.
use yvonne.Base.{
  ℕ, zero, suc, ◌+◌, ◌-◌, ◌*◌, ◌/◌, ◌%◌, ◌^◌, ◌<◌, ◌≤◌, Str, str_eq_iff, decimal, true, false,
  Option, none, some, length, length-append, length-replicate, replicate, ◌≡◌, ◌≢◌, ◌↔◌, inl, inr,
  refl, sym, ap, ◌∙◌, arith, Bool-cases, Option-cases, length-decimal,
}
use yvonne.Auth.Mfa.Totp.{
  TotpErr, unix, second, totp_period, truncation, six_digits, subtle_equal_string, hotp,
  generate_totp, counter_at, try_windows, validate_totp, put_uint64,
}

length-six_digits : (n : ℕ) → n < 1000000 → length (six_digits n) ≡ 6
unfolding six_digits
length-six_digits n h =
    length-append (replicate (6 - length (decimal n)) b'0') (decimal n)
    ∙ omega (
      arith,
      length-replicate {A = ℕ} (6 - length (decimal n)) b'0',
      length-decimal 6 n (omega arith),
    )

true_ne_false : true ≢ false
true_ne_false q = cc

subtle_equal_string_iff : (a b : Str) → (subtle_equal_string a b ≡ true) ↔ (a ≡ b)
unfolding subtle_equal_string
subtle_equal_string_iff a b =
    (λ h. (str_eq_iff a b).0 (ground arith), λ e. ground (arith, (str_eq_iff a b).1 e, ap length e))

module _ (hmac : Str → Str → Str) (decode : Str → Option Str) where
  length-hotp : (key : Str) (counter : ℕ) → length (hotp hmac key counter) ≡ 6
  unfolding hotp
  length-hotp key counter =
      length-six_digits (truncation (hmac key (put_uint64 counter)) % 1000000) (omega arith)

  -- After 1970's first period, and before the counters of a uint64 are used up.
  counters :
      (now skew : ℕ)
      → 0 < unix now / totp_period + skew
      → unix now / totp_period + skew ≤ 2 ^ 64
      → counter_at hmac decode now skew ≡ unix now / totp_period + skew - 1
  unfolding counter_at
  counters now skew h g = omega arith

  module _ {U : Type 0} (used : U) (code : Str) (now : ℕ) where
    -- Some window from `skew` on, of as many as are left, has the code.
    abbrev pub Matches : Str → ℕ → ℕ → Type 0
    Matches key left skew =
        (k : ℕ) × (skew ≤ k)
        × (k < skew + left)
        × (hotp hmac key (counter_at hmac decode now k) ≡ code)

    abbrev tried : Str → ℕ → ℕ → U × Option TotpErr
    tried key left skew = try_windows hmac decode none used key code now left skew

    hit :
        (key : Str) (left skew : ℕ)
        → hotp hmac key (counter_at hmac decode now skew) ≡ code
        → tried key (suc left) skew ≡ (used, none)
    unfolding try_windows
    hit key left skew e =
        let same =
          (subtle_equal_string_iff (hotp hmac key (counter_at hmac decode now skew)) code).1 e in
        rw (try_windows, same) refl

    miss :
        (key : Str) (left skew : ℕ)
        → subtle_equal_string (hotp hmac key (counter_at hmac decode now skew)) code ≡ false
        → tried key (suc left) skew ≡ tried key left (suc skew)
    unfolding try_windows
    miss key left skew h = rw (try_windows, h) refl

    accepted :
        (key : Str) (left skew : ℕ) → tried key left skew ≡ (used, none) → Matches key left skew
    unfolding try_windows
    accepted key zero skew h = absurd (cc)
    accepted key (suc left) skew h =
        elim (Bool-cases
          (subtle_equal_string (hotp hmac key (counter_at hmac decode now skew)) code)) [
            | inl same ↦ (
              skew,
              omega arith,
              omega arith,
              (subtle_equal_string_iff (hotp hmac key (counter_at hmac decode now skew)) code).0
                  same,
            )
            | inr other ↦
                let (k, low, high, e) =
                  accepted key left (suc skew) (sym (miss key left skew other) ∙ h) in
                (k, omega arith, omega arith, e)
          ]

    matching :
        (key : Str) (left skew : ℕ) → Matches key left skew → tried key left skew ≡ (used, none)
    matching key zero skew (k, low, high, e) = absurd (omega arith)
    matching key (suc left) skew (k, low, high, e) =
        elim (Bool-cases
          (subtle_equal_string (hotp hmac key (counter_at hmac decode now skew)) code)) [
            | inl same ↦ hit key left skew ((subtle_equal_string_iff _ code).0 same)
            | inr other ↦
                miss key left skew other
                ∙ matching key left (suc skew) (k, later k skew low e other, omega arith, e)
          ]
      where
        later :
            (k skew : ℕ)
            → skew ≤ k
            → hotp hmac key (counter_at hmac decode now k) ≡ code
            → subtle_equal_string (hotp hmac key (counter_at hmac decode now skew)) code ≡ false
            → suc skew ≤ k
        later k skew low e other =
            let ne : k ≢ skew = λ q. true_ne_false (
              sym (
                (subtle_equal_string_iff (hotp hmac key (counter_at hmac decode now skew)) code).1
                  (ap (λ w. hotp hmac key (counter_at hmac decode now w)) (sym q) ∙ e))
              ∙ other) in
            omega arith

    checked :
        (secret key : Str)
        → length code ≡ 6
        → decode secret ≡ some key
        → validate_totp hmac decode none used secret code now ≡ tried key 3 0
    unfolding validate_totp
    checked secret key h e = ground (arith, h, e)

    refused :
        (secret : Str)
        → validate_totp hmac decode none used secret code now ≡ (used, none)
        → (length code ≡ 6) × ((key : Str) × (decode secret ≡ some key))
    unfolding validate_totp
    refused secret h = elim (Option-cases (decode secret)) [
      | inl bad ↦ absurd (ground arith)
      | inr (key, e) ↦ (ground arith, (key, e))
    ]

    -- Without markUsed, ValidateTOTP accepts a code exactly if the secret decodes and the code is that
    -- of the current period, of the one before or of the one after.
    pub validate_totp_iff :
        (secret : Str)
        → (validate_totp hmac decode none used secret code now ≡ (used, none)) ↔ (
            (key : Str) × (decode secret ≡ some key)
            × ((k : ℕ) × (k < 3) × (hotp hmac key (counter_at hmac decode now k) ≡ code)))
    validate_totp_iff secret = (
      λ h.
          let (size, (key, e)) = refused secret h in
          let (k, low, high, same) = accepted key 3 0 (sym (checked secret key size e) ∙ h) in
          (key, e, (k, high, same)),
      λ (key, e, (k, high, same)).
          let size : length code ≡ 6 =
            sym (ap length same) ∙ length-hotp key (counter_at hmac decode now k) in
          checked secret key size e ∙ matching key 3 0 (k, omega arith, omega arith, same),
    )

  -- A code that GenerateTOTP gives is accepted from 30 seconds before to 30 seconds after its time, by
  -- clocks whose counters fit into 64 bits.
  pub validate_totp-generate_totp :
      {U : Type 0} (used : U) (secret code : Str) (t now : ℕ)
      → generate_totp hmac decode secret t ≡ some code
      → t ≤ now + 30 * second
      → now ≤ t + 30 * second
      → unix now / totp_period + 2 ≤ 2 ^ 64
      → validate_totp hmac decode none used secret code now ≡ (used, none)
  unfolding generate_totp
  validate_totp-generate_totp used secret code t now h early late small =
      elim (Option-cases (decode secret)) [
        | inl bad ↦ absurd (ground arith)
        | inr (key, e) ↦
            let made : hotp hmac key (unix t / totp_period) ≡ code = ground arith in
            let k = unix t / totp_period + 1 - unix now / totp_period in
            let count : counter_at hmac decode now k ≡ unix t / totp_period =
              counters now k (omega arith) (omega arith) ∙ omega arith in
            (validate_totp_iff used code now secret).1
              (key, e, (k, omega arith, ap (hotp hmac key) count ∙ made))
      ]
