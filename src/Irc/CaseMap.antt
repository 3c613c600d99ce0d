-- ===== src/Irc/CaseMap.antt =====
-- internal/irc/casemap.go: the CASEMAPPING algorithms.
pub mod Laws
use go_bnc.Base.{
  ℕ, ◌+◌, Bool, ◌&&◌, List, [], ◌∷◌, map, ◌==◌, leb, if◌then◌else◌, Bytes, codes, text_eq,
}

pub data CaseMapping : Type 0 where
  rfc1459 strict_rfc1459 ascii : CaseMapping

pub is_upper : ℕ → Bool
is_upper c = leb b'A' c && leb c b'Z'

-- One byte of `foldASCII`.
unfoldable pub fold_ascii : ℕ → ℕ
unfolding is_upper
fold_ascii c = if is_upper c then c + 32 else c

-- One byte of `foldRFC1459`.
unfoldable pub fold_rfc1459 : ℕ → ℕ
unfolding is_upper
fold_rfc1459 c =
    if is_upper c
    then c + 32
    else if c == b'['
    then b'{'
    else if c == b']'
    then b'}'
    else if c == b'\\'
    then b'|'
    else if c == b'~'
    then b'^'
    else c

-- One byte of `foldStrictRFC1459`.
unfoldable pub fold_strict_rfc1459 : ℕ → ℕ
unfolding is_upper
fold_strict_rfc1459 c =
    if is_upper c
    then c + 32
    else if c == b'['
    then b'{'
    else if c == b']'
    then b'}'
    else if c == b'\\'
    then b'|'
    else c

unfoldable pub fold_byte : CaseMapping → ℕ → ℕ
unfolding fold_ascii fold_rfc1459 fold_strict_rfc1459
fold_byte ascii c = fold_ascii c
fold_byte strict_rfc1459 c = fold_strict_rfc1459 c
fold_byte rfc1459 c = fold_rfc1459 c

-- `Fold`, and its alias `Canonical`.
unfoldable pub fold : CaseMapping → Bytes → Bytes
unfolding fold_byte
fold m s = map (fold_byte m) s

-- `Equal`
unfoldable pub equal : CaseMapping → Bytes → Bytes → Bool
unfolding text_eq
equal m a b = text_eq (fold m a) (fold m b)
