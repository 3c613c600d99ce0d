-- ===== src/Registration/Base64/RoundTrip.antt =====
-- internal/registration/sasl.go: decoding undoes the base64 encoding of credentials.
use go_bnc.Registration.Base64.{
  letter, letter_value, encode_base64, triple, decode_quad, decode_quads, skip_breaks,
  decode_base64,
}
use go_bnc.Base.{
  All, Bool, Bytes, [], ap, arith, false, is_empty, length, none, refl, some, true, ℕ, ◌%◌, ◌*◌,
  ◌+◌, ◌/◌, ◌<◌, ◌==◌, ◌||◌, ◌∙◌, ◌∷◌, ◌≡◌,
}

abbrev pub IsByte : ℕ → Type 0
IsByte c = c < 256

letter_value-letter : (i : ℕ) → i < 64 → letter_value (letter i) ≡ some i
unfolding letter letter_value
letter_value-letter i h = ground arith

letter_value-padding : letter_value b'=' ≡ none
unfolding letter_value
letter_value-padding = refl

-- A letter is neither a line break nor padding.
letter_plain :
    (i : ℕ)
    → i < 64
    → ((letter i == b'\r' || letter i == b'\n') ≡ false) × ((letter i == b'=') ≡ false)
unfolding letter
letter_plain i h = ground arith

decode_quad-one :
    (a : ℕ)
    → IsByte a
    → decode_quad (letter (a / 4)) (letter (a % 4 * 16)) b'=' b'=' true ≡ some (a ∷ [])
unfolding decode_quad
decode_quad-one a ha = ground (
  arith,
  letter_value-letter (a / 4) (omega arith),
  letter_value-letter (a % 4 * 16) (omega arith),
  letter_value-padding,
)

decode_quad-two :
    (a b : ℕ)
    → IsByte a
    → IsByte b
    → decode_quad (letter (a / 4)) (letter (a % 4 * 16 + b / 16)) (letter (b % 16 * 4)) b'=' true
      ≡ some (a ∷ b ∷ [])
unfolding decode_quad
decode_quad-two a b ha hb = ground (
  arith,
  letter_value-letter (a / 4) (omega arith),
  letter_value-letter (a % 4 * 16 + b / 16) (omega arith),
  letter_value-letter (b % 16 * 4) (omega arith),
  letter_value-padding,
)

decode_quad-three :
    (a b c : ℕ) (is_last : Bool)
    → IsByte a
    → IsByte b
    → IsByte c
    → decode_quad
        (letter (a / 4))
        (letter (a % 4 * 16 + b / 16))
        (letter (b % 16 * 4 + c / 64))
        (letter (c % 64))
        is_last
      ≡ some (a ∷ b ∷ c ∷ [])
unfolding decode_quad triple
decode_quad-three a b c is_last ha hb hc = ground (
  arith,
  letter_value-letter (a / 4) (omega arith),
  letter_value-letter (a % 4 * 16 + b / 16) (omega arith),
  letter_value-letter (b % 16 * 4 + c / 64) (omega arith),
  letter_value-letter (c % 64) (omega arith),
)

skip_breaks-encode_base64 :
    (s : Bytes) → All IsByte s → skip_breaks (encode_base64 s) ≡ encode_base64 s
unfolding skip_breaks encode_base64
skip_breaks-encode_base64 [] h = refl
skip_breaks-encode_base64 (a ∷ []) h =
    ground (arith, letter_plain (a / 4), letter_plain (a % 4 * 16))
skip_breaks-encode_base64 (a ∷ b ∷ []) h =
    ground
      (arith, letter_plain (a / 4), letter_plain (a % 4 * 16 + b / 16), letter_plain (b % 16 * 4))
skip_breaks-encode_base64 (a ∷ b ∷ c ∷ s) h = ground (
  arith,
  letter_plain (a / 4),
  letter_plain (a % 4 * 16 + b / 16),
  letter_plain (b % 16 * 4 + c / 64),
  letter_plain (c % 64),
  skip_breaks-encode_base64 s h.1.1.1,
)

decode_quads-encode_base64 : (s : Bytes) → All IsByte s → decode_quads (encode_base64 s) ≡ some s
unfolding decode_quads encode_base64 is_empty
decode_quads-encode_base64 [] h = refl
decode_quads-encode_base64 (a ∷ []) h = ground (arith, decode_quad-one a h.0)
decode_quads-encode_base64 (a ∷ b ∷ []) h = ground (arith, decode_quad-two a b h.0 h.1.0)
decode_quads-encode_base64 (a ∷ b ∷ c ∷ s) (ha, (hb, (hc, hs))) = ground (
  arith,
  decode_quad-three a b c (is_empty (encode_base64 s)) ha hb hc,
  decode_quads-encode_base64 s hs,
)

-- `DecodeString` undoes `EncodeToString`.
pub decode_base64-encode_base64 :
    (s : Bytes) → All IsByte s → decode_base64 (encode_base64 s) ≡ some s
unfolding decode_base64
decode_base64-encode_base64 s h =
    ap decode_quads (skip_breaks-encode_base64 s h) ∙ decode_quads-encode_base64 s h

pub length-encode_base64 : (s : Bytes) → length (encode_base64 s) % 4 ≡ 0
unfolding encode_base64
length-encode_base64 [] = refl
length-encode_base64 (a ∷ []) = refl
length-encode_base64 (a ∷ b ∷ []) = refl
length-encode_base64 (a ∷ b ∷ c ∷ s) = omega (arith, length-encode_base64 s)

pub length-encode_base64-pos : (a : ℕ) (s : Bytes) → 0 < length (encode_base64 (a ∷ s))
unfolding encode_base64
length-encode_base64-pos a [] = omega arith
length-encode_base64-pos a (b ∷ []) = omega arith
length-encode_base64-pos a (b ∷ c ∷ s) = omega arith
