-- ===== src/Auth/Mfa/Totp.antt =====
-- internal/auth/totp.go: time-based one-time passwords. Times are nanoseconds since 1970.
use Prim.Native.Nat.{bit_and, bit_or}
use yvonne.Base.{
  ℕ, zero, suc, ◌+◌, ◌-◌, ◌*◌, ◌/◌, ◌%◌, ◌^◌, Str, codes, str_eq, decimal, [], ◌∷◌, ◌++◌, Bool,
  false, ◌&&◌, ◌||◌, Option, none, some, ltb, leb, ◌==◌, length, get_or, replicate, if◌then◌else◌,
}

pub data TotpErr : Type 0 where
  totp_invalid totp_already_used bad_secret generation_failed : TotpErr

abbrev pub totp_digits : ℕ
totp_digits = 6

abbrev pub totp_period : ℕ
totp_period = 30

abbrev pub totp_secret_len : ℕ
totp_secret_len = 20

abbrev pub second : ℕ
second = 1_000_000_000

-- time.Time.Unix
abbrev pub unix : ℕ → ℕ
unix now = now / second

-- binary.BigEndian.PutUint64
unfoldable pub put_uint64 : ℕ → Str
put_uint64 v =
    (v / 2 ^ 56 % 256)
    ∷ (v / 2 ^ 48 % 256)
    ∷ (v / 2 ^ 40 % 256)
    ∷ (v / 2 ^ 32 % 256)
    ∷ (v / 2 ^ 24 % 256)
    ∷ (v / 2 ^ 16 % 256)
    ∷ (v / 2 ^ 8 % 256)
    ∷ (v % 256)
    ∷ []

-- The dynamic truncation of hotp.
unfoldable pub truncation : Str → ℕ
truncation hash =
    let offset = bit_and (get_or hash (length hash - 1) 0) 0x0f in
    bit_or
      (bit_or
        (bit_or (bit_and (get_or hash offset 0) 0x7f * 2 ^ 24)
          (get_or hash (offset + 1) 0 * 2 ^ 16))
        (get_or hash (offset + 2) 0 * 2 ^ 8))
      (get_or hash (offset + 3) 0)

-- fmt.Sprintf("%06d", code)
unfoldable pub six_digits : ℕ → Str
six_digits n = replicate (6 - length (decimal n)) b'0' ++ decimal n

-- subtleEqualString: the bytes are compared only where the lengths agree.
unfoldable pub subtle_equal_string : Str → Str → Bool
subtle_equal_string a b = if length a == length b then str_eq a b else false

-- markUsed, on a state `U` of what was used; `none` is its error.
abbrev pub MarkUsed : Type 0 → Type 0
MarkUsed U = U → ℕ → Str → Option U

-- `hmac key message` is HMAC-SHA1; `decode` is base32's DecodeString on the text in upper case.
module _ (hmac : Str → Str → Str) where
  unfoldable pub hotp : Str → ℕ → Str
  unfolding put_uint64 truncation six_digits
  hotp key counter = six_digits (truncation (hmac key (put_uint64 counter)) % 1000000)

  module _ (decode : Str → Option Str) where
    -- GenerateTOTP at a time that is not the zero one.
    unfoldable pub generate_totp : Str → ℕ → Option Str
    unfolding hotp
    generate_totp secret t = elim (decode secret) [
      | none ↦ none
      | some key ↦ some (hotp key (unix t / totp_period))
    ]

    -- The counter of the window at `skew - 1`, as a uint64 of an int64 sum.
    unfoldable pub counter_at : ℕ → ℕ → ℕ
    counter_at now skew = (unix now / totp_period + skew + (2 ^ 64 - 1)) % 2 ^ 64

    -- `now.Add(skew * 30 * time.Second)` for the window at `skew - 1`.
    abbrev pub window_start : ℕ → ℕ → ℕ
    window_start now skew = now + skew * (totp_period * second) - totp_period * second

    module _ {U : Type 0} where
      abbrev pub mark_window : Option (MarkUsed U) → U → ℕ → Str → U × Option TotpErr
      mark_window none used start code = (used, none)
      mark_window (some mark_used) used start code = elim (mark_used used start code) [
        | none ↦ (used, some totp_already_used)
        | some more ↦ (more, none)
      ]

      -- The loop of ValidateTOTP over the windows left; `skew` is one more than in the code.
      unfoldable pub try_windows :
          Option (MarkUsed U) → U → Str → Str → ℕ → ℕ → ℕ → U × Option TotpErr
      unfolding counter_at hotp subtle_equal_string
      try_windows mark_used used key code now zero skew = (used, some totp_invalid)
      try_windows mark_used used key code now (suc left) skew =
          let rest = try_windows mark_used used key code now left (suc skew) in
          if subtle_equal_string (hotp key (counter_at now skew)) code
          then mark_window mark_used used (window_start now skew) code
          else rest

      -- ValidateTOTP at the time `now`; `none` stands for a nil markUsed, and for a nil error.
      unfoldable pub validate_totp : Option (MarkUsed U) → U → Str → Str → ℕ → U × Option TotpErr
      unfolding try_windows
      validate_totp mark_used used secret code now =
          if length code == totp_digits
          then elim (decode secret) [
            | none ↦ (used, some bad_secret)
            | some key ↦ try_windows mark_used used key code now 3 0
          ]
          else (used, some totp_invalid)

-- GenerateTOTPSecret; `random` is what GenerateSecureRandom gives, `encode` base32's EncodeToString.
unfoldable pub generate_totp_secret : (ℕ → Option Str) → (Str → Str) → Option Str
generate_totp_secret random encode = elim (random totp_secret_len) [
  | none ↦ none
  | some bytes ↦ some (encode bytes)
]

-- `%02X` of a byte.
abbrev pub hex_digit : ℕ → ℕ
hex_digit n = if ltb n 10 then b'0' + n else b'A' + n - 10

abbrev in_range : ℕ → ℕ → ℕ → Bool
in_range low high c = leb low c && leb c high

-- What urlEscape leaves as it is.
unfoldable pub is_unreserved : ℕ → Bool
is_unreserved c =
    in_range b'a' b'z' c
    || in_range b'A' b'Z' c
    || in_range b'0' b'9' c
    || c == b'-'
    || c == b'_'
    || c == b'.'
    || c == b'~'

-- urlEscape, on ASCII text.
unfoldable pub url_escape : Str → Str
unfolding is_unreserved
url_escape [] = []
url_escape (c ∷ s) =
    let rest = url_escape s in
    if is_unreserved c
    then c ∷ rest
    else if c == b' '
    then codes "%20" ++ rest
    else if c == b':'
    then codes "%3A" ++ rest
    else b'%' ∷ hex_digit (c / 16) ∷ hex_digit (c % 16) ∷ rest

-- BuildTOTPURI
unfoldable pub build_totp_uri : Str → Str → Str → Str
unfolding url_escape
build_totp_uri issuer account secret =
    codes "otpauth://totp/"
    ++ (url_escape issuer ++ b':' ∷ url_escape account)
    ++ codes "?secret="
    ++ url_escape secret
    ++ codes "&issuer="
    ++ url_escape issuer
    ++ codes "&algorithm=SHA1&digits="
    ++ decimal totp_digits
    ++ codes "&period="
    ++ decimal totp_period
