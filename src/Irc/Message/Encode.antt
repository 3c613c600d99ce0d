-- ===== src/Irc/Message/Encode.antt =====
-- internal/irc/message.go: `Encode`, `Wire` and the tag prefix.
use go_bnc.Base.{
  List, [], ◌∷◌, ◌++◌, none, some, map, ◌==◌, if◌then◌else◌, Bytes, text_lt, cut_byte, trim_left,
  join, lookup, text_key,
}
use go_bnc.Irc.Message.{Tags, Message, escape_tag_value}

-- The inner loop of `sortStrings`: `x` moves left past each greater neighbour. The part of the
-- slice that stands before it is given from its end.
unfoldable pub sink : Bytes → List Bytes → List Bytes
sink x [] = x ∷ []
sink x (y ∷ ys) = if text_lt x y then y ∷ sink x ys else x ∷ y ∷ ys

-- The outer loop of `sortStrings`.
unfoldable pub sort_loop : List Bytes → List Bytes → List Bytes
unfolding sink
sort_loop done [] = done
sort_loop done (x ∷ xs) = sort_loop (sink x done) xs

abbrev pub reverse_onto {ℓ} : {A : Type ℓ} → List A → List A → List A
reverse_onto acc [] = acc
reverse_onto acc (x ∷ xs) = reverse_onto (x ∷ acc) xs

-- `sortStrings`
unfoldable pub sort_strings : List Bytes → List Bytes
unfolding sort_loop
sort_strings xs = reverse_onto [] (sort_loop [] xs)

-- The keys of the map, in the order in which the map is walked.
abbrev pub keys : Tags → List Bytes
keys tags = map (λ t. t.0) tags

-- `tags[k]`, the empty text if it is missing.
unfoldable pub value_of : Tags → Bytes → Bytes
value_of tags k = elim (lookup k tags) [ none ↦ [] | some v ↦ v ]

abbrev pub tag_value_text : Bytes → Bytes
tag_value_text [] = []
tag_value_text (c ∷ cs) = b'=' ∷ escape_tag_value (c ∷ cs)

-- What the loop of `formatTagPrefix` writes for one key.
unfoldable pub tag_text : Tags → Bytes → Bytes
unfolding value_of
tag_text tags k = k ++ tag_value_text (value_of tags k)

-- `formatTagPrefix`
unfoldable pub format_tag_prefix : Tags → Bytes
unfolding sort_strings tag_text
format_tag_prefix tags = b'@' ∷ join b';' (map (tag_text tags) (sort_strings (keys tags)))

-- The loop of `Encode` over the parameters: the last one is written as a trailing parameter.
unfoldable pub encode_params : List Bytes → Bytes
encode_params [] = []
encode_params (p ∷ []) = b' ' ∷ b':' ∷ p
encode_params (p ∷ q ∷ ps) = b' ' ∷ (p ++ encode_params (q ∷ ps))

unfoldable pub encode_source : Bytes → Bytes → Bytes
encode_source [] rest = rest
encode_source (c ∷ cs) rest = b':' ∷ (c ∷ cs ++ (b' ' ∷ rest))

unfoldable pub encode_tags : Tags → Bytes → Bytes
encode_tags [] rest = rest
encode_tags (t ∷ ts) rest = format_tag_prefix (t ∷ ts) ++ (b' ' ∷ rest)

-- `Encode`
unfoldable pub encode : Message → Bytes
unfolding encode_tags encode_source encode_params
encode m = encode_tags m.tags (encode_source m.source (m.command ++ encode_params m.params))

-- `stripTagPrefix`
unfoldable pub strip_tag_prefix : Bytes → Bytes
strip_tag_prefix [] = []
strip_tag_prefix (c ∷ cs) =
    if c == b'@'
    then elim (cut_byte b' ' (c ∷ cs)) [ none ↦ c ∷ cs | some (before, rest) ↦ trim_left b' ' rest ]
    else c ∷ cs

-- `Wire` on a raw line; without one it is `Encode`.
unfoldable pub wire_from : Message → Bytes → Bytes
unfolding encode encode_tags strip_tag_prefix
wire_from m [] = encode m
wire_from m (c ∷ cs) = encode_tags m.tags (strip_tag_prefix (c ∷ cs))

-- `Wire`
unfoldable pub wire : Message → Bytes
unfolding wire_from
wire m = wire_from m m.raw
