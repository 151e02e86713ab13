-- ===== src/Crypto/Versioned/Parsing.antt =====
-- What DecodeVersionedCiphertext makes of any bytes (internal/crypto/versioned_ciphertext.go).
use yvonne.Base.{
  ℕ, zero, suc, ◌+◌, ◌*◌, ◌/◌, ◌%◌, ◌^◌, ◌≤◌, ◌<◌, Str, [], ◌∷◌, ◌++◌, ◌≡◌, refl, ap, ◌∙◌, arith,
  length, take, drop, length-take, length-drop, All, List,
}
use yvonne.Crypto.Versioned.Format.{
  ok, err, ciphertext_too_short, put_uint32, uint32, encode_versioned_ciphertext,
  decode_versioned_ciphertext, nonce_size, min_ciphertext_size,
}

take-drop {ℓ} : {A : Type ℓ} (n : ℕ) (xs : List A) → take n xs ++ drop n xs ≡ xs
take-drop zero xs = refl
take-drop (suc n) [] = refl
take-drop (suc n) (x ∷ xs) = ap (λ l. x ∷ l) (take-drop n xs)

first_byte :
    (a b c d : ℕ)
    → a < 256
    → b < 256
    → c < 256
    → d < 256
    → (a * 2 ^ 24 + b * 2 ^ 16 + c * 2 ^ 8 + d) / 2 ^ 24 % 256 ≡ a
first_byte a b c d ha hb hc hd = omega arith

second_byte :
    (a b c d : ℕ)
    → a < 256
    → b < 256
    → c < 256
    → d < 256
    → (a * 2 ^ 24 + b * 2 ^ 16 + c * 2 ^ 8 + d) / 2 ^ 16 % 256 ≡ b
second_byte a b c d ha hb hc hd = omega arith

third_byte :
    (a b c d : ℕ)
    → a < 256
    → b < 256
    → c < 256
    → d < 256
    → (a * 2 ^ 24 + b * 2 ^ 16 + c * 2 ^ 8 + d) / 2 ^ 8 % 256 ≡ c
third_byte a b c d ha hb hc hd = omega arith

fourth_byte :
    (a b c d : ℕ)
    → a < 256
    → b < 256
    → c < 256
    → d < 256
    → (a * 2 ^ 24 + b * 2 ^ 16 + c * 2 ^ 8 + d) % 256 ≡ d
fourth_byte a b c d ha hb hc hd = omega arith

put_uint32-uint32 :
    (a b c d : ℕ) (rest : Str)
    → a < 256
    → b < 256
    → c < 256
    → d < 256
    → put_uint32 (uint32 (a ∷ b ∷ c ∷ d ∷ rest)) ≡ a ∷ b ∷ c ∷ d ∷ []
unfolding put_uint32 uint32
put_uint32-uint32 a b c d rest ha hb hc hd = cc (
  first_byte a b c d ha hb hc hd,
  second_byte a b c d ha hb hc hd,
  third_byte a b c d ha hb hc hd,
  fourth_byte a b c d ha hb hc hd,
)

-- Bytes too short for a header, a nonce and a tag are refused before they are cut apart. All others
-- are cut into a version, a nonce of 12 bytes and a body of at least 16, which encode to the very
-- same bytes.
pub decode_lem :
    (raw : Str)
    → All (λ b. b < 256) raw
    → (length raw < min_ciphertext_size
        → decode_versioned_ciphertext raw ≡ err ciphertext_too_short)
      × (min_ciphertext_size ≤ length raw
          → (decode_versioned_ciphertext raw ≡ ok (uint32 raw, take 12 (drop 4 raw), drop 16 raw))
            × (encode_versioned_ciphertext (uint32 raw) (take 12 (drop 4 raw)) (drop 16 raw) ≡ raw)
            × (length (take 12 (drop 4 raw)) ≡ nonce_size)
            × (16 ≤ length (drop 16 raw)))
unfolding decode_versioned_ciphertext
decode_lem [] h = (λ s. refl, λ l. absurd (omega arith))
decode_lem (a ∷ []) h = (λ s. refl, λ l. absurd (omega arith))
decode_lem (a ∷ b ∷ []) h = (λ s. refl, λ l. absurd (omega arith))
decode_lem (a ∷ b ∷ c ∷ []) h = (λ s. refl, λ l. absurd (omega arith))
decode_lem (a ∷ b ∷ c ∷ d ∷ rest) h = (
  λ s. ground arith,
  λ l. (
    ground arith,
    unfold encode_versioned_ciphertext in
        (ap (λ p. p ++ (take 12 rest ++ drop 12 rest))
            (put_uint32-uint32 a b c d rest h.0 h.1.0 h.1.1.0 h.1.1.1.0)
          ∙ ap (λ r. a ∷ b ∷ c ∷ d ∷ r) (take-drop 12 rest)),
    omega (arith, length-take 12 rest),
    omega (arith, length-drop 12 rest),
  ),
)
