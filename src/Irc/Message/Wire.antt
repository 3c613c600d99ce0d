-- ===== src/Irc/Message/Wire.antt =====
-- internal/irc/message.go: `Wire` rewrites the tags of a received line and nothing else.
use go_bnc.Irc.Message.RoundTrip.Line.{parse-tagged, lookup-read_back}
use go_bnc.Irc.Message.RoundTrip.{IsKey, read_back}
use go_bnc.Irc.Message.Encode.{wire, strip_tag_prefix, keys, encode_tags, wire_from}
use go_bnc.Base.{
  All, Bool-cases, Bytes, Option-cases, [], ap, arith, byte_key, cut_byte, inl, inr, lookup, refl,
  sym, text_key, trim_left, trim_left-ne, ◌==◌, ◌∙◌, ◌∷◌, ◌≡◌, ◌≢◌,
}
use go_bnc.Irc.Message.{
  Tags, Message, ok, parse_command, parse_source, parse, Result, ◌>>=◌, err, parse_tags,
}

abbrev retag : Tags → Bytes → Message → Message
retag tags raw m = record m { tags = tags; raw = raw }

parse_command-retag :
    (t t' : Tags) (source raw raw' s : Bytes) {m : Message}
    → parse_command t source raw s ≡ ok m
    → parse_command t' source raw' s ≡ ok (retag t' raw' m)
unfolding parse_command
parse_command-retag t t' source raw raw' [] h = cc
parse_command-retag t t' source raw raw' (c ∷ cs) h = ground arith

parse_source-retag :
    (t t' : Tags) (raw raw' s : Bytes) {m : Message}
    → parse_source t raw s ≡ ok m
    → parse_source t' raw' s ≡ ok (retag t' raw' m)
unfolding parse_source
parse_source-retag t t' raw raw' [] h = cc
parse_source-retag t t' raw raw' (c ∷ cs) {m} h = elim (Bool-cases (c == b':')) [
  | inr e ↦
      rw (e, parse_source)
        (parse_command-retag t t' [] raw raw' (c ∷ cs) (rw (e, parse_source) at h))
  | inl e ↦ elim (Option-cases (cut_byte b' ' cs)) [
    | inl n ↦ ground arith
    | inr ((source, rest), n) ↦
        rw (e, parse_source)
          (rw n
            (parse_command-retag t t' source raw raw' (trim_left b' ' rest) {m = m} (ground arith)))
  ]
]

parse_command-raw :
    (t : Tags) (source raw s : Bytes) {m : Message}
    → parse_command t source raw s ≡ ok m
    → m.raw ≡ raw
unfolding parse_command
parse_command-raw t source raw [] h = cc
parse_command-raw t source raw (c ∷ cs) h = ground arith

parse_source-raw :
    (t : Tags) (raw s : Bytes) {m : Message} → parse_source t raw s ≡ ok m → m.raw ≡ raw
unfolding parse_source
parse_source-raw t raw [] h = cc
parse_source-raw t raw (c ∷ cs) {m} h = elim (Bool-cases (c == b':')) [
  | inr e ↦ parse_command-raw t [] raw (c ∷ cs) (rw (e, parse_source) at h)
  | inl e ↦ elim (Option-cases (cut_byte b' ' cs)) [
    | inl n ↦ ground arith
    | inr ((source, rest), n) ↦
        parse_command-raw t source raw (trim_left b' ' rest) {m = m} (ground arith)
  ]
]

-- A parse that goes on after its tags has read them.
tags_read :
    (read : Result Tags) (next : Tags → Result Message) {m : Message}
    → (read >>= next) ≡ ok m
    → (t : Tags) × (next t ≡ ok m)
tags_read (err reason) next accepted = cc
tags_read (ok t) next accepted = (t, accepted)

-- A received line is read from its body on, whatever its tags.
parse_body :
    (line : Bytes) {m : Message}
    → parse line ≡ ok m
    → (t : Tags) × (parse_source t line (strip_tag_prefix line) ≡ ok m)
unfolding parse strip_tag_prefix cut_byte
parse_body [] h = cc
parse_body (c ∷ cs) h = elim (Bool-cases (c == b'@')) [
  | inr e ↦ ([], rw e (rw (e, parse) at h))
  | inl e ↦ elim (Option-cases (cut_byte b' ' cs)) [
    | inl n ↦ absurd (ground arith)
    | inr ((tag_str, rest), n) ↦
        let stripped : strip_tag_prefix (c ∷ cs) ≡ trim_left b' ' rest = ground arith in
        let (t, read) = tags_read (parse_tags tag_str) _ (rw n at (rw (e, parse) at h)) in
        (t, rw stripped read)
  ]
]

starts_with_word :
    (t : Tags) (raw s : Bytes) {m : Message}
    → parse_source t raw s ≡ ok m
    → m.command ≢ []
    → trim_left b' ' s ≡ s
unfolding parse_source parse_command trim_left cut_byte
starts_with_word t raw [] h k = refl
starts_with_word t raw (c ∷ cs) h k = elim (Bool-cases (c == b' ')) [
  | inr e ↦ trim_left-ne b' ' c cs e
  | inl e ↦ absurd (k (ground arith))
]

parse_nil : {m : Message} → parse [] ≡ ok m → ⊥
unfolding parse
parse_nil h = cc

wire_from-raw :
    (m : Message) (line : Bytes)
    → line ≢ []
    → m.raw ≡ line
    → wire m ≡ encode_tags m.tags (strip_tag_prefix line)
unfolding wire
wire_from-raw m [] h e = absurd (h refl)
wire_from-raw m (c ∷ cs) h e = ap (wire_from m) e

-- For a line that `Parse` accepted, with a command, and new tags that the tag grammar can carry
-- (at least one), `Wire` writes a line that parses to the same source, command and parameters,
-- with the new tags at every key.
pub parse-wire :
    (line : Bytes) (m : Message) (t : Bytes × Bytes) (ts : Tags)
    → parse line ≡ ok m
    → m.command ≢ []
    → All IsKey (keys (t ∷ ts))
    → let w = wire (record m { tags = t ∷ ts }) in
      (tags : Tags) × (parse w ≡ ok (record m { tags = tags; raw = w }))
      × ((k : Bytes) → lookup k tags ≡ lookup k (t ∷ ts))
parse-wire line m t ts h k v =
    let (t0, read) = parse_body line h in
    let body = strip_tag_prefix line in
    let trimmed = starts_with_word t0 line body read k in
    let new = record m { tags = t ∷ ts } in
    let wired : wire new ≡ encode_tags (t ∷ ts) body =
      wire_from-raw new line (λ e. parse_nil (rw e at h)) (parse_source-raw t0 line body read) in
    (
      read_back (t ∷ ts),
      ap parse wired
          ∙ parse-tagged body t ts v trimmed
          ∙ parse_source-retag t0 (read_back (t ∷ ts)) line (encode_tags (t ∷ ts) body) body read
          ∙ ap (λ w. ok (record m { tags = read_back (t ∷ ts); raw = w })) (sym wired),
      lookup-read_back (t ∷ ts),
    )
