-- ===== src/Irc/Message/RoundTrip/Line.antt =====
-- internal/irc/message.go: the whole line, from the tags to the parameters.
use go_bnc.Base.{
  All, Bytes, Free, List, [], ap, append-nil, arith, byte_key, cut_byte-append, cut_byte-Free,
  false, if◌then◌else◌, insert, length, lookup, lookup-insert, none, refl, some, sym, text_eq_iff,
  text_in, text_key, trim_left, trim_left-ne, ℕ, ◌++◌, ◌==◌, ◌∙◌, ◌∷◌, ◌≡◌,
}
use go_bnc.Irc.Message.{Tags, Message, ok, parse_params, parse_command, parse_source, parse}
use go_bnc.Irc.Message.Encode.{
  keys, value_of, format_tag_prefix, encode_params, encode_source, encode_tags, encode,
  sort_strings,
}
use go_bnc.Irc.Message.Sorting.{text_in-sort_strings}
use go_bnc.Irc.Message.RoundTrip.{
  StartsWithout, IsKey, AreParams, IsEncodable, put_all, read_back, parse_tag_section,
  tag_section-Free, parse_params-encode, encode_params-cons, trim_left-space,
}

module _ (tags : Tags) (source raw : Bytes) (c : ℕ) (cs : Bytes) (word : Free b' ' (c ∷ cs)) where
  abbrev parsed : List Bytes → Message
  parsed ps = record { tags = tags; source = source; command = c ∷ cs; params = ps; raw = raw }

  parse_command-encode :
      (ps : List Bytes)
      → AreParams ps
      → parse_command tags source raw (c ∷ (cs ++ encode_params ps)) ≡ ok (parsed ps)
  unfolding parse_command encode_params
  parse_command-encode [] h = rw append-nil (rw (cut_byte-Free b' ' (c ∷ cs) word, parse_command))
  parse_command-encode (p ∷ ps) h =
      let (t, e) = encode_params-cons p ps in
      let read : parse_params (length t) (trim_left b' ' (encode_params (p ∷ ps))) ≡ ok (p ∷ ps) =
        parse_params-encode (length t) (p ∷ ps) h (rw e (omega arith)) in
      let read_tail : parse_params (length t) (trim_left b' ' t) ≡ ok (p ∷ ps) =
        ap (parse_params (length t)) (sym (trim_left-space t)) ∙ rw e at read in
      rw e (rw (cut_byte-append b' ' (c ∷ cs) t word, parse_command) (rw read_tail))

-- What `Encode` writes behind the tags, read from the prefix on.
module _ (s : Bytes) (c : ℕ) (r : Bytes) where
  abbrev body : Bytes
  body = encode_source s (c ∷ r)

  parse_source-body :
      (tags : Tags) (raw : Bytes)
      → Free b' ' s
      → (c == b' ') ≡ false
      → (c == b':') ≡ false
      → parse_source tags raw body ≡ parse_command tags s raw (c ∷ r)
  unfolding parse_source parse_command
  parse_source-body tags raw f space colon = by_source s f
    where
      by_source :
          (s : Bytes)
          → Free b' ' s
          → parse_source tags raw (encode_source s (c ∷ r)) ≡ parse_command tags s raw (c ∷ r)
      by_source [] f = unfold parse_source encode_source in rw colon
      by_source (x ∷ xs) f =
          unfold encode_source in
          rw (cut_byte-append b' ' (x ∷ xs) (c ∷ r) f, parse_source)
            (rw (trim_left-ne b' ' c r space))

  trim_left-body : (c == b' ') ≡ false → trim_left b' ' body ≡ body
  trim_left-body space = by_source s
    where
      by_source : (s : Bytes) → trim_left b' ' (encode_source s (c ∷ r)) ≡ encode_source s (c ∷ r)
      by_source [] = unfold encode_source in trim_left-ne b' ' c r space
      by_source (x ∷ xs) = unfold encode_source trim_left in refl

  parse-body : (c == b'@') ≡ false → parse body ≡ parse_source [] body body
  unfolding parse parse_source
  parse-body at = by_source s
    where
      by_source :
          (s : Bytes)
          → parse (encode_source s (c ∷ r))
            ≡ parse_source [] (encode_source s (c ∷ r)) (encode_source s (c ∷ r))
      by_source [] = unfold encode_source in rw (at, parse)
      by_source (x ∷ xs) = unfold encode_source parse in refl

-- A tag section in front of any text that does not begin with a space.
pub parse-tagged :
    (body : Bytes) (t : Bytes × Bytes) (ts : Tags)
    → All IsKey (keys (t ∷ ts))
    → trim_left b' ' body ≡ body
    → parse (encode_tags (t ∷ ts) body)
      ≡ parse_source (read_back (t ∷ ts)) (encode_tags (t ∷ ts) body) body
unfolding parse encode_tags format_tag_prefix
parse-tagged body t ts keys_valid trimmed =
    rw (cut_byte-append b' ' _ body (tag_section-Free t ts keys_valid))
      (rw (parse_tag_section t ts keys_valid) (rw trimmed))

-- Looking up a key in the map that is read back.
pub lookup-put_all :
    (tags acc : Tags) (j : Bytes) (ks : List Bytes)
    → lookup j (put_all tags acc ks)
      ≡ (if text_in j ks then some (value_of tags j) else lookup j acc)
unfolding text_in
lookup-put_all tags acc j [] = refl
lookup-put_all tags acc j (k ∷ ks) = ground (
  arith,
  lookup-put_all tags (insert k (value_of tags k) acc) j ks,
  lookup-insert k j (value_of tags k) acc,
  text_eq_iff k j,
  text_eq_iff j k,
)

lookup-keys :
    (tags : Tags) (j : Bytes)
    → lookup j tags ≡ (if text_in j (keys tags) then some (value_of tags j) else none)
unfolding lookup text_in value_of
lookup-keys [] j = refl
lookup-keys ((k, v) ∷ ts) j = ground (arith, lookup-keys ts j, text_eq_iff k j, text_eq_iff j k)

pub lookup-read_back : (tags : Tags) (j : Bytes) → lookup j (read_back tags) ≡ lookup j tags
unfolding lookup
lookup-read_back tags j =
    lookup-put_all tags [] j (sort_strings (keys tags))
    ∙ rw (text_in-sort_strings j (keys tags)) (sym (lookup-keys tags j))

tagged_parse :
    (tags : Tags) (s : Bytes) (c : ℕ) (r : Bytes)
    → All IsKey (keys tags)
    → Free b' ' s
    → (c == b' ') ≡ false
    → (c == b':') ≡ false
    → (c == b'@') ≡ false
    → (line : Bytes) → encode_tags tags (encode_source s (c ∷ r)) ≡ line
    → parse line ≡ parse_command (read_back tags) s line (c ∷ r)
unfolding sort_strings
tagged_parse [] s c r k f space colon at line e = rw (← e) (
    unfold encode_tags in
    (parse-body s c r at ∙ parse_source-body s c r [] (encode_source s (c ∷ r)) f space colon))
tagged_parse (t ∷ ts) s c r k f space colon at line e = rw (← e) (
    parse-tagged (encode_source s (c ∷ r)) t ts k (trim_left-body s c r space)
    ∙ parse_source-body s c r (read_back (t ∷ ts)) _ f space colon)

-- For a message that `Encode` can carry, `Parse` of the encoded line gives back the source, the
-- command and the parameters, keeps the line as `Raw`, and gives a tag map with the same value,
-- or absence, at every key.
pub parse-encode :
    (m : Message)
    → IsEncodable m
    → (t : Tags) × (parse (encode m) ≡ ok (record m { tags = t; raw = encode m }))
      × ((k : Bytes) → lookup k t ≡ lookup k m.tags)
unfolding encode
parse-encode m v = by_command m.command v.command_word v.command_not_source v.command_not_tags refl
  where
    by_command :
        (command : Bytes)
        → Free b' ' command
        → StartsWithout b':' command
        → StartsWithout b'@' command
        → m.command ≡ command
        → (t : Tags) × (parse (encode m) ≡ ok (record m { tags = t; raw = encode m }))
          × ((k : Bytes) → lookup k t ≡ lookup k m.tags)
    by_command [] word colon at e = absurd colon
    by_command (c ∷ cs) word colon at e = (
      read_back m.tags,
      tagged_parse m.tags m.source c (cs ++ encode_params m.params) v.tag_keys v.source_word word.0
            colon at (encode m) (rw e)
          ∙ parse_command-encode (read_back m.tags) m.source (encode m) c cs word m.params
              v.middle_params
          ∙ rw (← e),
      lookup-read_back m.tags,
    )
