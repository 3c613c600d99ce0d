-- ===== src/Irc/Isupport/Lines.antt =====
-- internal/irc/isupport.go: the length of the lines that `RPL005` writes.
use go_bnc.Irc.Message.{Message}
use go_bnc.Irc.Isupport.{lines_for, isupport_line, trailing_text, batch_loop, prefix_len}
use go_bnc.Irc.Message.Encode.{encode, encode_params}
use go_bnc.Base.{
  All, Bool-cases, Bytes, List, [], arith, if◌then◌else◌, inl, inr, length, length-append, ltb,
  refl, subst, sym, ℕ, ◌++◌, ◌+◌, ◌<◌, ◌==◌, ◌∷◌, ◌≡◌, ◌≤◌, ◌⊎◌,
}

-- What the tokens of a batch add to its length.
cost : List Bytes → ℕ
cost [] = 0
cost (t ∷ ts) = length t + 1 + cost ts

cost-concat :
    (batch : List Bytes) (t : Bytes) → cost (batch ++ (t ∷ [])) ≡ cost batch + (length t + 1)
unfolding cost
cost-concat [] t = omega arith
cost-concat (b ∷ batch) t = omega (arith, cost-concat batch t)

length-encode_params :
    (batch : List Bytes)
    → length (encode_params (batch ++ (trailing_text ∷ [])))
      ≡ cost batch + (length trailing_text + 2)
unfolding encode_params cost
length-encode_params [] = refl
length-encode_params (t ∷ []) = omega (arith, length-append t (encode_params (trailing_text ∷ [])))
length-encode_params (t ∷ u ∷ us) = omega (
  arith,
  length-encode_params (u ∷ us),
  length-append t (encode_params (u ∷ (us ++ (trailing_text ∷ [])))),
)

length-line :
    (nick : Bytes) (batch : List Bytes)
    → length (encode (isupport_line nick batch)) + 1 ≡ prefix_len nick + cost batch
unfolding encode encode_params isupport_line cost
length-line nick [] = omega (arith, length-append nick (encode_params (trailing_text ∷ [])))
length-line nick (t ∷ ts) = omega (
  arith,
  length-encode_params (t ∷ ts),
  length-append nick (encode_params (t ∷ (ts ++ (trailing_text ∷ [])))),
)

-- The encoded line is shorter than the bound, or it holds a single token.
abbrev pub IsShort : Bytes → ℕ → Message → Type 0
IsShort nick max_len m =
    (length (encode m) < max_len) ⊎ ((t : Bytes) × (m ≡ isupport_line nick (t ∷ [])))

abbrev Fits : Bytes → ℕ → List Bytes → Type 0
Fits nick max_len [] = Unit
Fits nick max_len (t ∷ []) = Unit
Fits nick max_len (t ∷ u ∷ us) = prefix_len nick + cost (t ∷ u ∷ us) ≤ max_len

line-IsShort :
    (nick : Bytes) (max_len : ℕ) (batch : List Bytes) (t : Bytes)
    → Fits nick max_len (t ∷ batch)
    → IsShort nick max_len (isupport_line nick (t ∷ batch))
line-IsShort nick max_len [] t h = inr (t, refl)
line-IsShort nick max_len (u ∷ us) t h = inl (omega (arith, length-line nick (t ∷ u ∷ us)))

append-Fits :
    (nick : Bytes) (max_len : ℕ) (b t : Bytes) (batch : List Bytes)
    → prefix_len nick + cost (b ∷ batch) + (length t + 1) ≤ max_len
    → Fits nick max_len (b ∷ batch ++ (t ∷ []))
unfolding cost
append-Fits nick max_len b t [] h = omega arith
append-Fits nick max_len b t (u ∷ us) h = omega (arith, cost-concat us t)

batch_loop-IsShort :
    (nick : Bytes) (max_len : ℕ) (ts batch : List Bytes) (len : ℕ)
    → len ≡ prefix_len nick + cost batch
    → Fits nick max_len batch
    → All (IsShort nick max_len) (batch_loop nick max_len batch len ts)
unfolding batch_loop
batch_loop-IsShort nick max_len [] [] len e h = tt
batch_loop-IsShort nick max_len [] (b ∷ batch) len e h = (line-IsShort nick max_len batch b h, tt)
batch_loop-IsShort nick max_len (t ∷ ts) [] len e h =
    batch_loop-IsShort nick max_len ts (t ∷ []) (len + (length t + 1)) (unfold cost in omega arith)
      tt
batch_loop-IsShort nick max_len (t ∷ ts) (b ∷ batch) len e h =
    elim (Bool-cases (ltb max_len (len + (length t + 1)))) [
      | inl full ↦
          let same : batch_loop nick max_len (b ∷ batch) len (t ∷ ts)
              ≡ isupport_line nick (b ∷ batch)
                ∷ batch_loop nick max_len (t ∷ []) (prefix_len nick + (length t + 1)) ts =
            ground arith in
          subst (All (IsShort nick max_len)) (sym same) (
            line-IsShort nick max_len batch b h,
            batch_loop-IsShort nick max_len ts (t ∷ []) (prefix_len nick + (length t + 1))
                (unfold cost in omega arith) tt,
          )
      | inr fits ↦
          let same : batch_loop nick max_len (b ∷ batch) len (t ∷ ts)
              ≡ batch_loop nick max_len (b ∷ batch ++ (t ∷ [])) (len + (length t + 1)) ts =
            ground arith in
          subst (All (IsShort nick max_len)) (sym same) (
            batch_loop-IsShort nick max_len ts (b ∷ batch ++ (t ∷ [])) (len + (length t + 1))
              (omega (arith, cost-concat (b ∷ batch) t))
              (append-Fits nick max_len b t batch (ground arith)))
    ]

-- Every line that `RPL005` writes for at least one token encodes to fewer than `maxLen` bytes (500
-- if none is given), or carries a single token.
pub lines_for-IsShort :
    (nick : Bytes) (max_len : ℕ) (t : Bytes) (ts : List Bytes)
    → All (IsShort nick (if max_len == 0 then 500 else max_len)) (lines_for nick max_len (t ∷ ts))
unfolding lines_for
lines_for-IsShort nick max_len t ts =
    batch_loop-IsShort nick _ (t ∷ ts) [] (prefix_len nick) (unfold cost in omega arith) tt
