-- ===== src/Irc/Message/Escape.antt =====
-- internal/irc/message.go: the tag value escapes.
use go_bnc.Base.{
  Bool-cases, Bytes, Free, [], ap, arith, false, inl, inr, refl, sym, ℕ, ◌++◌, ◌==◌, ◌∙◌, ◌∷◌, ◌≡◌,
  ◌⊎◌,
}
use go_bnc.Irc.Message.{
  ok, ◌>>=◌, escape_byte, escape_tag_value, unescape_loop, contains_byte, unescape_tag_value,
  Result, unescape_byte,
}

abbrev then_put : ℕ → Result Bytes → Result Bytes
then_put c m = m >>= λ r. ok (c ∷ r)

unescape_loop-plain_byte :
    (c : ℕ) (rest : Bytes)
    → (c == b'\\') ≡ false
    → unescape_loop (c ∷ rest) ≡ then_put c (unescape_loop rest)
unfolding unescape_loop
unescape_loop-plain_byte c [] h = rw h
unescape_loop-plain_byte c (d ∷ ds) h = rw h

unescape_loop-escaped_byte :
    (d : ℕ) (rest : Bytes)
    → unescape_loop (b'\\' ∷ d ∷ rest) ≡ then_put (unescape_byte d) (unescape_loop rest)
unfolding unescape_loop
unescape_loop-escaped_byte d rest = refl

-- The five escapes, and the plain bytes.
escape_byte-cases :
    (c : ℕ)
    → ((d : ℕ) × (escape_byte c ≡ b'\\' ∷ d ∷ []) × (unescape_byte d ≡ c))
      ⊎ ((escape_byte c ≡ c ∷ []) × ((c == b'\\') ≡ false))
unfolding escape_byte unescape_byte
escape_byte-cases c = ground arith

unescape-escape_byte :
    (c : ℕ) (rest : Bytes) → unescape_loop (escape_byte c ++ rest) ≡ then_put c (unescape_loop rest)
unescape-escape_byte c rest = elim (escape_byte-cases c) [
  | inl (d, e, u) ↦ rw e (unescape_loop-escaped_byte d rest ∙ rw u)
  | inr (e, p) ↦ rw e (unescape_loop-plain_byte c rest p)
]

unescape_loop-escape : (v : Bytes) → unescape_loop (escape_tag_value v) ≡ ok v
unfolding escape_tag_value
unescape_loop-escape [] = unfold unescape_loop in refl
unescape_loop-escape (c ∷ cs) =
    unescape-escape_byte c (escape_tag_value cs) ∙ ap (then_put c) (unescape_loop-escape cs)

-- The shortcut for a value with no backslash gives what the loop gives.
pub unescape_loop-plain : (v : Bytes) → contains_byte b'\\' v ≡ false → unescape_loop v ≡ ok v
unfolding unescape_loop contains_byte
unescape_loop-plain [] h = refl
unescape_loop-plain (c ∷ []) h = ground arith
unescape_loop-plain (c ∷ d ∷ ds) h = ground (arith, unescape_loop-plain (d ∷ ds))

-- `UnescapeTagValue` undoes `EscapeTagValue`, on every value.
pub unescape-escape : (v : Bytes) → unescape_tag_value (escape_tag_value v) ≡ ok v
unfolding unescape_tag_value
unescape-escape v = elim (Bool-cases (contains_byte b'\\' (escape_tag_value v))) [
  | inl some_escape ↦ rw some_escape (unescape_loop-escape v)
  | inr plain ↦
      rw plain (sym (unescape_loop-plain (escape_tag_value v) plain) ∙ unescape_loop-escape v)
]

-- An escaped value holds none of the bytes that end a tag, a tag section or a line.
pub escape-IsSafe :
    (v : Bytes)
    → Free b';' (escape_tag_value v)
      × Free b' ' (escape_tag_value v)
      × Free b'\r' (escape_tag_value v)
      × Free b'\n' (escape_tag_value v)
unfolding escape_tag_value escape_byte
escape-IsSafe [] = (tt, tt, tt, tt)
escape-IsSafe (c ∷ cs) = ground (arith, escape-IsSafe cs)
