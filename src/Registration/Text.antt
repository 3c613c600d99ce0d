-- ===== src/Registration/Text.antt =====
-- What internal/registration uses of Go's `strings` and `strconv` for capabilities and lengths.
use go_bnc.Base.{
  Bytes, Option, [], false, if◌then◌else◌, leb, none, some, true, ℕ, ◌&&◌, ◌*◌, ◌+◌, ◌-◌, ◌==◌, ◌^◌,
  ◌||◌, ◌∷◌,
}

-- `strings.TrimPrefix(s, "-")`
unfoldable pub trim_dash : Bytes → Bytes
trim_dash [] = []
trim_dash (c ∷ cs) = if c == b'-' then cs else c ∷ cs

unfoldable pub digits_value : ℕ → Bytes → Option ℕ
digits_value acc [] = some acc
digits_value acc (c ∷ cs) = elim (leb b'0' c && leb c b'9') [
  | true ↦ digits_value (acc * 10 + (c - b'0')) cs
  | false ↦ none
]

-- `n, err := strconv.Atoi(s); err == nil && n > 0`, with 64-bit integers.
unfoldable pub positive_number : Bytes → Option ℕ
unfolding digits_value
positive_number [] = none
positive_number (c ∷ cs) =
    let digits : Bytes = if c == b'+' then cs else c ∷ cs in
    elim digits [
      | [] ↦ none
      | d ∷ ds ↦ elim (digits_value 0 (d ∷ ds)) [
        | none ↦ none
        | some n ↦ if n == 0 || leb (2 ^ 63) n then none else some n
      ]
    ]
