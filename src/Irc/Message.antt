-- ===== src/Irc/Message.antt =====
-- internal/irc/message.go: parsing and encoding of one IRC line. A Go string is a list of bytes,
-- a tag map an association list; a nil map and an empty one are not told apart.
pub mod Encode
pub mod Escape
pub mod Sorting
pub mod RoundTrip
pub mod Wire
pub mod Total
pub mod Access
pub mod LineBreaks
use go_bnc.Base.{
  ℕ, zero, suc, Bool, true, false, not, List, [], ◌∷◌, ◌++◌, none, some, ◌==◌, ◌||◌, if◌then◌else◌,
  Bytes, cut_byte, trim_left, split, length, insert, text_key,
}

-- `out_of_fuel` belongs to the model only.
pub data ParseError : Type 0 where
  empty_message tags_without_command missing_command prefix_without_command : ParseError
  trailing_escape empty_tag_key out_of_fuel : ParseError

-- What Go returns as a value with an `error`.
pub data Result {ℓ} (T : Type ℓ) : Type ℓ where
  err : ParseError → Result T
  ok : T → Result T

infixl 5 ◌>>=◌
abbrev pub ◌>>=◌ {ℓ κ} : {T : Type ℓ} {U : Type κ} → Result T → (T → Result U) → Result U
err reason >>= next = err reason
ok value >>= next = next value

abbrev pub Tags : Type 0
Tags = List (Bytes × Bytes)

pub record Message : Type 0 where
  pub tags : Tags
  pub source : Bytes
  pub command : Bytes
  pub params : List Bytes
  pub raw : Bytes

-- What `EscapeTagValue` writes for one byte.
unfoldable pub escape_byte : ℕ → Bytes
escape_byte c =
    if c == b';'
    then b'\\' ∷ b':' ∷ []
    else if c == b' '
    then b'\\' ∷ b's' ∷ []
    else if c == b'\\'
    then b'\\' ∷ b'\\' ∷ []
    else if c == b'\r'
    then b'\\' ∷ b'r' ∷ []
    else if c == b'\n'
    then b'\\' ∷ b'n' ∷ []
    else c ∷ []

-- `EscapeTagValue`
unfoldable pub escape_tag_value : Bytes → Bytes
unfolding escape_byte
escape_tag_value [] = []
escape_tag_value (c ∷ cs) = escape_byte c ++ escape_tag_value cs

-- The switch of `UnescapeTagValue` on the byte after a backslash.
unfoldable pub unescape_byte : ℕ → ℕ
unescape_byte c =
    if c == b':'
    then b';'
    else if c == b's'
    then b' '
    else if c == b'\\'
    then b'\\'
    else if c == b'r'
    then b'\r'
    else if c == b'n'
    then b'\n'
    else c

-- The loop of `UnescapeTagValue`.
unfoldable pub unescape_loop : Bytes → Result Bytes
unfolding unescape_byte
unescape_loop [] = ok []
unescape_loop (c ∷ []) = if not (c == b'\\') then ok (c ∷ []) else err trailing_escape
unescape_loop (c ∷ d ∷ ds) =
    let plain = (do r ← unescape_loop (d ∷ ds); ok (c ∷ r)) in
    let escaped = (do r ← unescape_loop ds; ok (unescape_byte d ∷ r)) in
    if not (c == b'\\') then plain else escaped

unfoldable pub contains_byte : ℕ → Bytes → Bool
contains_byte c [] = false
contains_byte c (x ∷ xs) = x == c || contains_byte c xs

-- `UnescapeTagValue`
unfoldable pub unescape_tag_value : Bytes → Result Bytes
unfolding unescape_loop contains_byte
unescape_tag_value v = if not (contains_byte b'\\' v) then ok v else unescape_loop v

-- One round of the loop of `parseTags`, on the `key` and `val` that it has read.
unfoldable pub put_tag : Tags → Bytes → Bytes → Result Tags
put_tag tags [] val = err empty_tag_key
put_tag tags (k ∷ ks) val = ok (insert (k ∷ ks) val tags)

unfoldable pub parse_tag : Tags → Bytes → Result Tags
unfolding put_tag
parse_tag tags part = elim (cut_byte b'=' part) [
  | none ↦ put_tag tags part []
  | some (key, escaped) ↦ unescape_tag_value escaped >>= λ val. put_tag tags key val
]

-- The loop of `parseTags` over the parts.
unfoldable pub parse_parts : Tags → List Bytes → Result Tags
unfolding parse_tag
parse_parts tags [] = ok tags
parse_parts tags ([] ∷ parts) = parse_parts tags parts
parse_parts tags ((c ∷ cs) ∷ parts) = parse_tag tags (c ∷ cs) >>= λ t. parse_parts t parts

-- `parseTags`
unfoldable pub parse_tags : Bytes → Result Tags
unfolding parse_parts
parse_tags s = parse_parts [] (split b';' s)

-- The loop over the parameters. The fuel is the length of the text: each round takes a byte.
unfoldable pub parse_params : ℕ → Bytes → Result (List Bytes)
parse_params f [] = ok []
parse_params zero (c ∷ cs) = err out_of_fuel
parse_params (suc f) (c ∷ cs) = elim (c == b':') [
  | true ↦ ok (cs ∷ [])
  | false ↦ elim (cut_byte b' ' (c ∷ cs)) [
    | none ↦ ok ((c ∷ cs) ∷ [])
    | some (p, rest) ↦ parse_params f (trim_left b' ' rest) >>= λ ps. ok (p ∷ ps)
  ]
]

-- `Parse` from the command on.
unfoldable pub parse_command : Tags → Bytes → Bytes → Bytes → Result Message
unfolding parse_params
parse_command tags source raw [] = err missing_command
parse_command tags source raw (c ∷ cs) = elim (cut_byte b' ' (c ∷ cs)) [
  | none ↦ ok (record { tags = tags; source = source; command = c ∷ cs; params = []; raw = raw })
  | some (command, rest) ↦ parse_params (length rest) (trim_left b' ' rest) >>= λ ps.
      ok (record { tags = tags; source = source; command = command; params = ps; raw = raw })
]

-- `Parse` from the prefix on.
unfoldable pub parse_source : Tags → Bytes → Bytes → Result Message
unfolding parse_command
parse_source tags raw [] = err missing_command
parse_source tags raw (c ∷ cs) =
    if c == b':'
    then elim (cut_byte b' ' cs) [
      | none ↦ err prefix_without_command
      | some (source, rest) ↦ parse_command tags source raw (trim_left b' ' rest)
    ]
    else parse_command tags [] raw (c ∷ cs)

-- `Parse`
unfoldable pub parse : Bytes → Result Message
unfolding parse_source parse_tags
parse [] = err empty_message
parse (c ∷ cs) =
    if c == b'@'
    then elim (cut_byte b' ' cs) [
      | none ↦ err tags_without_command
      | some (tag_str, rest) ↦
          parse_tags tag_str >>= λ tags. parse_source tags (c ∷ cs) (trim_left b' ' rest)
    ]
    else parse_source [] (c ∷ cs) (c ∷ cs)
