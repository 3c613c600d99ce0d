-- ===== src/Irc/Message/LineBreaks.antt =====
-- internal/irc/limits.go: a message without raw line breaks is one line on the wire.
use go_bnc.Irc.Message.{Message, Tags, contains_byte}
use go_bnc.Irc.Message.Access.{has_crlf, params_crlf, tags_crlf, has_raw_crlf}
use go_bnc.Irc.Message.Encode.{
  encode, encode_params, encode_source, encode_tags, format_tag_prefix, tag_text, tag_value_text,
  sort_strings, keys, value_of,
}
use go_bnc.Irc.Message.Escape.{escape-IsSafe}
use go_bnc.Irc.Message.Sorting.{sort_strings-All}
use go_bnc.Base.{
  All, Bytes, Free, Free-append, Free-join, List, [], arith, false, map, refl, ℕ, ◌++◌, ◌∷◌, ◌≡◌,
}

-- The text holds neither CR nor LF.
abbrev pub IsClean : Bytes → Type 0
IsClean s = Free b'\r' s × Free b'\n' s

contains_byte-Free : (d : ℕ) (s : Bytes) → contains_byte d s ≡ false → Free d s
unfolding contains_byte
contains_byte-Free d [] h = tt
contains_byte-Free d (c ∷ cs) h = ground (arith, contains_byte-Free d cs)

has_crlf-IsClean : (s : Bytes) → has_crlf s ≡ false → IsClean s
unfolding has_crlf
has_crlf-IsClean s h = ground (arith, contains_byte-Free b'\r' s, contains_byte-Free b'\n' s)

append-IsClean : (a b : Bytes) → IsClean a → IsClean b → IsClean (a ++ b)
append-IsClean a b ha hb = (Free-append b'\r' a b ha.0 hb.0, Free-append b'\n' a b ha.1 hb.1)

encode_params-IsClean : (ps : List Bytes) → params_crlf ps ≡ false → IsClean (encode_params ps)
unfolding encode_params params_crlf
encode_params-IsClean [] h = (tt, tt)
encode_params-IsClean (p ∷ []) h = ground (arith, has_crlf-IsClean p)
encode_params-IsClean (p ∷ q ∷ ps) h = ground (
  arith,
  has_crlf-IsClean p,
  encode_params-IsClean (q ∷ ps),
  append-IsClean p (encode_params (q ∷ ps)),
)

encode_source-IsClean :
    (source rest : Bytes)
    → has_crlf source ≡ false
    → IsClean rest
    → IsClean (encode_source source rest)
unfolding encode_source
encode_source-IsClean [] rest h hr = hr
encode_source-IsClean (c ∷ cs) rest h hr =
    ground (arith, has_crlf-IsClean (c ∷ cs) h, append-IsClean cs (b' ' ∷ rest))

tag_text-IsClean : (tags : Tags) (k : Bytes) → IsClean k → IsClean (tag_text tags k)
unfolding tag_text
tag_text-IsClean tags k h =
    append-IsClean k (tag_value_text (value_of tags k)) h (value (value_of tags k))
  where
    value : (v : Bytes) → IsClean (tag_value_text v)
    value [] = (tt, tt)
    value (c ∷ cs) = ground (arith, escape-IsSafe (c ∷ cs))

keys-IsClean : (tags : Tags) → tags_crlf tags ≡ false → All IsClean (keys tags)
unfolding tags_crlf
keys-IsClean [] h = tt
keys-IsClean ((k, v) ∷ tags) h =
    (has_crlf-IsClean k (ground arith), keys-IsClean tags (ground arith))

module _ (tags : Tags) where
  texts-IsClean : (ks : List Bytes) → All IsClean ks → All IsClean (map (tag_text tags) ks)
  texts-IsClean [] h = tt
  texts-IsClean (k ∷ ks) h = (tag_text-IsClean tags k h.0, texts-IsClean ks h.1)

  All-without_cr : (ts : List Bytes) → All IsClean ts → All (Free b'\r') ts
  All-without_cr [] h = tt
  All-without_cr (t ∷ ts) h = (h.0.0, All-without_cr ts h.1)

  All-without_lf : (ts : List Bytes) → All IsClean ts → All (Free b'\n') ts
  All-without_lf [] h = tt
  All-without_lf (t ∷ ts) h = (h.0.1, All-without_lf ts h.1)

  prefix-IsClean : tags_crlf tags ≡ false → IsClean (format_tag_prefix tags)
  unfolding format_tag_prefix
  prefix-IsClean h =
      let ts = map (tag_text tags) (sort_strings (keys tags)) in
      let clean = texts-IsClean _ (sort_strings-All IsClean (keys tags) (keys-IsClean tags h)) in
      (
        (refl, Free-join b'\r' b';' ts refl (All-without_cr ts clean)),
        (refl, Free-join b'\n' b';' ts refl (All-without_lf ts clean)),
      )

encode_tags-IsClean :
    (tags : Tags) (rest : Bytes)
    → tags_crlf tags ≡ false
    → IsClean rest
    → IsClean (encode_tags tags rest)
unfolding encode_tags
encode_tags-IsClean [] rest h hr = hr
encode_tags-IsClean (t ∷ ts) rest h hr =
    append-IsClean (format_tag_prefix (t ∷ ts)) (b' ' ∷ rest) (prefix-IsClean (t ∷ ts) h)
      ((refl, hr.0), (refl, hr.1))

-- A message that `HasRawCRLF` lets pass encodes to a line without CR and LF, so that it cannot
-- bring a second line with it.
pub encode-IsClean : (msg : Message) → has_raw_crlf msg ≡ false → IsClean (encode msg)
unfolding has_raw_crlf encode
encode-IsClean msg h =
    let body : IsClean (msg.command ++ encode_params msg.params) =
      append-IsClean msg.command (encode_params msg.params)
        (has_crlf-IsClean msg.command (ground arith))
        (encode_params-IsClean msg.params (ground arith)) in
    encode_tags-IsClean msg.tags _ (ground arith)
      (encode_source-IsClean msg.source _ (ground arith) body)
