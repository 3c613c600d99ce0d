-- ===== src/Irc/CaseMap/Laws.antt =====
-- internal/irc/casemap.go: folding is a normal form, and the three mappings refine one another.
use go_bnc.Base.{Bytes, [], ap, arith, refl, sym, text_eq_iff, true, ℕ, ◌↔◌, ◌∙◌, ◌∷◌, ◌≡◌}
use go_bnc.Irc.CaseMap.{CaseMapping, rfc1459, strict_rfc1459, ascii, fold_byte, fold, equal}

fold_byte-fold_byte : (m : CaseMapping) (c : ℕ) → fold_byte m (fold_byte m c) ≡ fold_byte m c
unfolding fold_byte
fold_byte-fold_byte ascii c = ground arith
fold_byte-fold_byte _ c = ground arith

-- Folding a folded name changes nothing, under every mapping: a map key is its own key.
pub fold-fold : (m : CaseMapping) (s : Bytes) → fold m (fold m s) ≡ fold m s
unfolding fold
fold-fold m [] = refl
fold-fold m (c ∷ s) = cc (fold_byte-fold_byte m c, fold-fold m s)

pub equal_iff : (m : CaseMapping) (a b : Bytes) → (equal m a b ≡ true) ↔ (fold m a ≡ fold m b)
unfolding equal
equal_iff m a b = text_eq_iff (fold m a) (fold m b)

byte_strict-ascii :
    (c : ℕ) → fold_byte strict_rfc1459 (fold_byte ascii c) ≡ fold_byte strict_rfc1459 c
unfolding fold_byte
byte_strict-ascii c = ground arith

byte_rfc1459-strict : (c : ℕ) → fold_byte rfc1459 (fold_byte strict_rfc1459 c) ≡ fold_byte rfc1459 c
unfolding fold_byte
byte_rfc1459-strict c = ground arith

fold_strict-ascii : (s : Bytes) → fold strict_rfc1459 (fold ascii s) ≡ fold strict_rfc1459 s
unfolding fold
fold_strict-ascii [] = refl
fold_strict-ascii (c ∷ s) = cc (byte_strict-ascii c, fold_strict-ascii s)

fold_rfc1459-strict : (s : Bytes) → fold rfc1459 (fold strict_rfc1459 s) ≡ fold rfc1459 s
unfolding fold
fold_rfc1459-strict [] = refl
fold_rfc1459-strict (c ∷ s) = cc (byte_rfc1459-strict c, fold_rfc1459-strict s)

-- Names that are equal under ascii are equal under strict-rfc1459, and those that are equal
-- under strict-rfc1459 are equal under rfc1459.
pub equal_refines :
    (a b : Bytes)
    → (equal ascii a b ≡ true → equal strict_rfc1459 a b ≡ true)
      × (equal strict_rfc1459 a b ≡ true → equal rfc1459 a b ≡ true)
equal_refines a b = (
  λ h. (equal_iff strict_rfc1459 a b).1 (
      sym (fold_strict-ascii a)
      ∙ ap (fold strict_rfc1459) ((equal_iff ascii a b).0 h)
      ∙ fold_strict-ascii b),
  λ h. (equal_iff rfc1459 a b).1 (
      sym (fold_rfc1459-strict a)
      ∙ ap (fold rfc1459) ((equal_iff strict_rfc1459 a b).0 h)
      ∙ fold_rfc1459-strict b),
)
