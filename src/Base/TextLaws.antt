-- ===== src/Base/TextLaws.antt =====
-- Laws of cutting, splitting and trimming text.
use mathlib.Core.Path.{◌≡◌, refl, ap, ◌∙◌}
use mathlib.Core.Logic.{inl, inr}
use mathlib.Core.Bool.{false}
use mathlib.Core.List.{List, [], ◌∷◌, ◌++◌}
use mathlib.Core.Option.{none, some}
use Prim.Native.Nat.{ℕ, ◌<◌, ◌≤◌}
use native.Mathlib.Omega.{arith}
use go_bnc.Base.Compare.{Option-cases, ◌==◌}
use go_bnc.Base.Lists.{All, length}
use go_bnc.Base.Text.{Bytes, cut_byte, trim_left, split, join, Free}

pub Free-append : (c : ℕ) (a b : Bytes) → Free c a → Free c b → Free c (a ++ b)
Free-append c [] b ha hb = hb
Free-append c (x ∷ a) b ha hb = (ha.0, Free-append c a b ha.1 hb)

-- The first separator is found, whatever follows it.
pub cut_byte-append : (c : ℕ) (a b : Bytes) → Free c a → cut_byte c (a ++ (c ∷ b)) ≡ some (a, b)
unfolding cut_byte
cut_byte-append c [] b h = ground arith
cut_byte-append c (x ∷ a) b h = rw (h.0, cut_byte-append c a b h.1)

pub cut_byte-Free : (c : ℕ) (a : Bytes) → Free c a → cut_byte c a ≡ none
unfolding cut_byte
cut_byte-Free c [] h = refl
cut_byte-Free c (x ∷ a) h = rw (h.0, cut_byte-Free c a h.1)

pub trim_left-ne : (c x : ℕ) (xs : Bytes) → (x == c) ≡ false → trim_left c (x ∷ xs) ≡ x ∷ xs
unfolding trim_left
trim_left-ne c x xs h = rw (h, trim_left)

pub length-trim_left : (c : ℕ) (s : Bytes) → length (trim_left c s) ≤ length s
unfolding trim_left
length-trim_left c [] = omega arith
length-trim_left c (x ∷ xs) = ground (arith, length-trim_left c xs)

-- What is cut off is shorter than the text.
pub length-cut_byte :
    (c : ℕ) (s : Bytes) {a b : Bytes} → cut_byte c s ≡ some (a, b) → length b < length s
unfolding cut_byte
length-cut_byte c [] h = cc
length-cut_byte c (x ∷ xs) h = elim (Option-cases (cut_byte c xs)) [
  | inl e ↦ ground arith
  | inr ((a, b), e) ↦ ground (arith, length-cut_byte c xs e)
]

split-Free : (c : ℕ) (p : Bytes) → Free c p → split c p ≡ p ∷ []
unfolding split
split-Free c [] h = refl
split-Free c (x ∷ p) h = rw (h.0, split-Free c p h.1)

split-append : (c : ℕ) (p s : Bytes) → Free c p → split c (p ++ (c ∷ s)) ≡ p ∷ split c s
unfolding split
split-append c [] s h = ground arith
split-append c (x ∷ p) s h = rw (h.0, split-append c p s h.1)

-- Splitting undoes joining, for at least one part and parts without the separator.
pub split-join :
    (c : ℕ) (p : Bytes) (ps : List Bytes)
    → All (Free c) (p ∷ ps)
    → split c (join c (p ∷ ps)) ≡ p ∷ ps
unfolding join
split-join c p [] h = split-Free c p h.0
split-join c p (q ∷ ps) h =
    split-append c p (join c (q ∷ ps)) h.0 ∙ ap (λ r. p ∷ r) (split-join c q ps h.1)

pub Free-join :
    (d c : ℕ) (ps : List Bytes) → (c == d) ≡ false → All (Free d) ps → Free d (join c ps)
unfolding join
Free-join d c [] e h = tt
Free-join d c (p ∷ []) e h = h.0
Free-join d c (p ∷ q ∷ ps) e h =
    Free-append d p (c ∷ join c (q ∷ ps)) h.0 (e, Free-join d c (q ∷ ps) e h.1)
