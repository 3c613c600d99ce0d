-- ===== src/Irc/Message/RoundTrip.antt =====
-- internal/irc/message.go: `Parse` reads back what `Encode` writes.
pub mod Line
use go_bnc.Base.{
  All, Bytes, Free, Free-append, Free-join, List, [], ap, append-nil, arith, byte_key,
  cut_byte-append, cut_byte-Free, false, insert, join, length, length-append, map, refl, split,
  split-join, suc, sym, text_key, trim_left, trim_left-ne, zero, ℕ, ◌++◌, ◌==◌, ◌∙◌, ◌∷◌, ◌≡◌, ◌≤◌,
}
use go_bnc.Irc.Message.{
  Tags, Message, ok, ◌>>=◌, escape_tag_value, put_tag, parse_tag, parse_parts, parse_tags,
  parse_params,
}
use go_bnc.Irc.Message.Encode.{
  sort_strings, keys, value_of, tag_value_text, tag_text, encode_params,
}
use go_bnc.Irc.Message.Escape.{unescape-escape, escape-IsSafe}
use go_bnc.Irc.Message.Sorting.{sort_strings-All, sort_strings-cons}

-- The text begins with a byte other than `c`.
abbrev pub StartsWithout : ℕ → Bytes → Type 0
StartsWithout c [] = ⊥
StartsWithout c (x ∷ xs) = (x == c) ≡ false

-- A tag key that the tag grammar can carry.
pub record IsKey (k : Bytes) : Type 0 where
  pub nonempty : (c : ℕ) × (cs : Bytes) × (k ≡ c ∷ cs)
  pub no_semicolon : Free b';' k
  pub no_space : Free b' ' k
  pub no_equals : Free b'=' k

-- Every parameter but the last is a word that does not begin with a colon.
abbrev pub AreParams : List Bytes → Type 0
AreParams [] = Unit
AreParams (p ∷ []) = Unit
AreParams (p ∷ q ∷ ps) = StartsWithout b':' p × Free b' ' p × AreParams (q ∷ ps)

-- What `Encode` is given by its callers.
pub record IsEncodable (m : Message) : Type 0 where
  pub tag_keys : All IsKey (keys m.tags)
  pub source_word : Free b' ' m.source
  pub command_word : Free b' ' m.command
  pub command_not_source : StartsWithout b':' m.command
  pub command_not_tags : StartsWithout b'@' m.command
  pub middle_params : AreParams m.params

-- The tags that `parseTags` builds from the texts of some keys.
abbrev pub put_all : Tags → Tags → List Bytes → Tags
put_all tags acc [] = acc
put_all tags acc (k ∷ ks) = put_all tags (insert k (value_of tags k) acc) ks

parse_tag-plain :
    (acc : Tags) (part : Bytes) → Free b'=' part → parse_tag acc part ≡ put_tag acc part []
unfolding parse_tag
parse_tag-plain acc part h = rw (cut_byte-Free b'=' part h, parse_tag)

parse_tag-pair :
    (acc : Tags) (k v : Bytes)
    → Free b'=' k
    → parse_tag acc (k ++ (b'=' ∷ escape_tag_value v)) ≡ put_tag acc k v
unfolding parse_tag
parse_tag-pair acc k v h =
    rw (cut_byte-append b'=' k (escape_tag_value v) h, parse_tag) (rw (unescape-escape v))

parse_tag-tag_text :
    (tags acc : Tags) (k : Bytes)
    → IsKey k
    → parse_tag acc (tag_text tags k) ≡ ok (insert k (value_of tags k) acc)
unfolding tag_text
parse_tag-tag_text tags acc k h = tag_case (value_of tags k)
  where
    put_key : (v : Bytes) → put_tag acc k v ≡ ok (insert k v acc)
    put_key v = let (c, cs, e) = h.nonempty in rw e (unfold put_tag in refl)

    tag_case : (v : Bytes) → parse_tag acc (k ++ tag_value_text v) ≡ ok (insert k v acc)
    tag_case [] = rw append-nil (parse_tag-plain acc k h.no_equals ∙ put_key [])
    tag_case (c ∷ cs) = parse_tag-pair acc k (c ∷ cs) h.no_equals ∙ put_key (c ∷ cs)

parse_parts-tag_text :
    (tags acc : Tags) (ks : List Bytes)
    → All IsKey ks
    → parse_parts acc (map (tag_text tags) ks) ≡ ok (put_all tags acc ks)
unfolding parse_parts
parse_parts-tag_text tags acc [] h = refl
parse_parts-tag_text tags acc (k ∷ ks) (h, t) =
    parse_parts-cons (h.nonempty)
    ∙ rw (parse_tag-tag_text tags acc k h)
        (parse_parts-tag_text tags (insert k (value_of tags k) acc) ks t)
  where
    rest : List Bytes
    rest = map (tag_text tags) ks

    parse_parts-cons :
        (c : ℕ) × (cs : Bytes) × (k ≡ c ∷ cs)
        → parse_parts acc (tag_text tags k ∷ rest)
          ≡ (parse_tag acc (tag_text tags k) >>= λ t. parse_parts t rest)
    parse_parts-cons (c, cs, e) = unfold tag_text in rw e

tag_text-Free :
    (tags : Tags) (k : Bytes) → IsKey k → Free b';' (tag_text tags k) × Free b' ' (tag_text tags k)
unfolding tag_text
tag_text-Free tags k h = (
  Free-append b';' k _ h.no_semicolon (value_free (value_of tags k)).0,
  Free-append b' ' k _ h.no_space (value_free (value_of tags k)).1,
)
  where
    value_free : (v : Bytes) → Free b';' (tag_value_text v) × Free b' ' (tag_value_text v)
    value_free [] = (tt, tt)
    value_free (c ∷ cs) =
        let (semicolon, space, _, _) = escape-IsSafe (c ∷ cs) in ((refl, semicolon), (refl, space))

tag_texts-Free :
    (tags : Tags) (ks : List Bytes)
    → All IsKey ks
    → All (Free b';') (map (tag_text tags) ks) × All (Free b' ') (map (tag_text tags) ks)
tag_texts-Free tags [] h = (tt, tt)
tag_texts-Free tags (k ∷ ks) (h, t) =
    let (a, b) = tag_text-Free tags k h in
    let (as_, bs) = tag_texts-Free tags ks t in ((a, as_), (b, bs))

-- The map that is read back from the tag section of a map.
abbrev pub read_back : Tags → Tags
read_back tags = put_all tags [] (sort_strings (keys tags))

module _ (t : Bytes × Bytes) (ts : Tags) (valid : All IsKey (keys (t ∷ ts))) where
  abbrev pub tags : Tags
  tags = t ∷ ts

  abbrev pub sorted : List Bytes
  sorted = sort_strings (keys tags)

  pub tag_section-Free : Free b' ' (join b';' (map (tag_text tags) sorted))
  tag_section-Free =
      Free-join b' ' b';' (map (tag_text tags) sorted) refl
        (tag_texts-Free tags sorted (sort_strings-All IsKey (keys tags) valid)).1

  pub parse_tag_section : parse_tags (join b';' (map (tag_text tags) sorted)) ≡ ok (read_back tags)
  unfolding parse_tags
  parse_tag_section = ap (parse_parts []) parts ∙ parse_parts-tag_text tags [] sorted all_keys
    where
      all_keys : All IsKey sorted
      all_keys = sort_strings-All IsKey (keys tags) valid

      parts : split b';' (join b';' (map (tag_text tags) sorted)) ≡ map (tag_text tags) sorted
      parts =
          let (k, ks, e) = sort_strings-cons t.0 (keys ts) in
          rw e (
            split-join b';' (tag_text tags k) (map (tag_text tags) ks)
              (rw e at (tag_texts-Free tags sorted all_keys).0))

parse_params-word :
    (f c : ℕ) (cs t : Bytes)
    → (c == b':') ≡ false
    → Free b' ' (c ∷ cs)
    → parse_params (suc f) (c ∷ (cs ++ (b' ' ∷ t)))
      ≡ (parse_params f (trim_left b' ' t) >>= λ ps. ok ((c ∷ cs) ∷ ps))
unfolding parse_params
parse_params-word f c cs t colon word =
    rw (colon, parse_params) (rw (cut_byte-append b' ' (c ∷ cs) t word))

pub encode_params-cons :
    (q : Bytes) (ps : List Bytes) → (t : Bytes) × (encode_params (q ∷ ps) ≡ b' ' ∷ t)
unfolding encode_params
encode_params-cons q [] = (b':' ∷ q, refl)
encode_params-cons q (p ∷ ps) = (q ++ encode_params (p ∷ ps), refl)

pub trim_left-space : (t : Bytes) → trim_left b' ' (b' ' ∷ t) ≡ trim_left b' ' t
unfolding trim_left
trim_left-space t = refl

pub trim_left-word :
    (c : ℕ) (cs : Bytes)
    → Free b' ' (c ∷ cs)
    → (t : Bytes) → trim_left b' ' (c ∷ (cs ++ t)) ≡ c ∷ (cs ++ t)
trim_left-word c cs word t = trim_left-ne b' ' c (cs ++ t) word.0

-- Reading back the parameters, whatever fuel above their length is given.
pub parse_params-encode :
    (f : ℕ) (ps : List Bytes)
    → AreParams ps
    → length (encode_params ps) ≤ suc f
    → parse_params f (trim_left b' ' (encode_params ps)) ≡ ok ps
unfolding encode_params
parse_params-encode f [] h le = unfold trim_left parse_params in refl
parse_params-encode zero (p ∷ []) h le = absurd (omega arith)
parse_params-encode (suc f) (p ∷ []) h le = unfold trim_left parse_params in refl
parse_params-encode zero ([] ∷ q ∷ ps) h le = absurd h.0
parse_params-encode zero ((c ∷ cs) ∷ q ∷ ps) h le = absurd (omega arith)
parse_params-encode (suc f) ([] ∷ q ∷ ps) h le = absurd h.0
parse_params-encode (suc f) ((c ∷ cs) ∷ q ∷ ps) (colon, word, others) le =
    let (t, e) = encode_params-cons q ps in
    let short = length-append cs (encode_params (q ∷ ps)) in
    let rest = parse_params-encode f (q ∷ ps) others (omega (arith, short)) in
    rw (trim_left-space (c ∷ (cs ++ encode_params (q ∷ ps)))) (
      rw (trim_left-word c cs word (encode_params (q ∷ ps))) (
        rw e (
          parse_params-word f c cs t colon word
          ∙ ap (λ r. r >>= λ ps. ok ((c ∷ cs) ∷ ps))
              (sym (ap (parse_params f) (trim_left-space t)) ∙ rw e at rest))))
