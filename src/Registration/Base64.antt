-- ===== src/Registration/Base64.antt =====
-- Go's `base64.StdEncoding`, which internal/registration/sasl.go sends credentials in.
pub mod RoundTrip
use go_bnc.Base.{
  Bool, Bytes, Option, [], if◌then◌else◌, is_empty, leb, ltb, none, some, ℕ, ◌%◌, ◌&&◌, ◌*◌, ◌++◌,
  ◌+◌, ◌-◌, ◌/◌, ◌==◌, ◌||◌, ◌∷◌,
}

-- The letter of a number below 64.
unfoldable pub letter : ℕ → ℕ
letter i =
    if ltb i 26
    then i + b'A'
    else if ltb i 52
    then i - 26 + b'a'
    else if ltb i 62
    then i - 52 + b'0'
    else if i == 62
    then b'+'
    else b'/'

unfoldable pub letter_value : ℕ → Option ℕ
letter_value c =
    if leb b'A' c && leb c b'Z'
    then some (c - b'A')
    else if leb b'a' c && leb c b'z'
    then some (c - b'a' + 26)
    else if leb b'0' c && leb c b'9'
    then some (c - b'0' + 52)
    else if c == b'+'
    then some 62
    else if c == b'/'
    then some 63
    else none

-- `EncodeToString`
unfoldable pub encode_base64 : Bytes → Bytes
encode_base64 [] = []
encode_base64 (a ∷ []) = letter (a / 4) ∷ letter (a % 4 * 16) ∷ b'=' ∷ b'=' ∷ []
encode_base64 (a ∷ b ∷ []) =
    letter (a / 4) ∷ letter (a % 4 * 16 + b / 16) ∷ letter (b % 16 * 4) ∷ b'=' ∷ []
encode_base64 (a ∷ b ∷ c ∷ rest) =
    letter (a / 4)
    ∷ letter (a % 4 * 16 + b / 16)
    ∷ letter (b % 16 * 4 + c / 64)
    ∷ letter (c % 64)
    ∷ encode_base64 rest

-- The bytes of four letters.
unfoldable pub triple : ℕ → ℕ → ℕ → ℕ → Bytes
triple i j k l = (i * 4 + j / 16) ∷ (j % 16 * 16 + k / 4) ∷ (k % 4 * 64 + l) ∷ []

-- Four letters, the last ones perhaps padding, which nothing may follow.
unfoldable pub decode_quad : ℕ → ℕ → ℕ → ℕ → Bool → Option Bytes
decode_quad w x y z is_last = elim (letter_value w) [
  | none ↦ none
  | some i ↦ elim (letter_value x) [
    | none ↦ none
    | some j ↦ elim (letter_value y) [
      | none ↦ if is_last && y == b'=' && z == b'=' then some ((i * 4 + j / 16) ∷ []) else none
      | some k ↦ elim (letter_value z) [
        | none ↦
            if is_last && z == b'='
            then some ((i * 4 + j / 16) ∷ (j % 16 * 16 + k / 4) ∷ [])
            else none
        | some l ↦ some (triple i j k l)
      ]
    ]
  ]
]

unfoldable pub decode_quads : Bytes → Option Bytes
decode_quads [] = some []
decode_quads (w ∷ x ∷ y ∷ z ∷ rest) = elim (decode_quad w x y z (is_empty rest)) [
  | none ↦ none
  | some front ↦ elim (decode_quads rest) [ none ↦ none | some back ↦ some (front ++ back) ]
]
decode_quads _ = none

-- Line breaks are skipped wherever they stand.
unfoldable pub skip_breaks : Bytes → Bytes
skip_breaks [] = []
skip_breaks (c ∷ cs) = if c == b'\r' || c == b'\n' then skip_breaks cs else c ∷ skip_breaks cs

-- `DecodeString`
unfoldable pub decode_base64 : Bytes → Option Bytes
decode_base64 s = decode_quads (skip_breaks s)
