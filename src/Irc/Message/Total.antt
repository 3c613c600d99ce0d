-- ===== src/Irc/Message/Total.antt =====
-- internal/irc/message.go: the fuel of the model's parameter loop is enough on every line.
use go_bnc.Base.{
  Bool-cases, Bytes, List, Option-cases, [], arith, cut_byte, inl, inr, length, length-cut_byte,
  length-trim_left, refl, split, suc, trim_left, zero, ℕ, ◌==◌, ◌∷◌, ◌≡◌, ◌≢◌, ◌≤◌,
}
use go_bnc.Irc.Message.{
  Tags, Result, ok, err, ◌>>=◌, out_of_fuel, put_tag, parse_tag, parse_parts, parse_tags,
  parse_params, parse_command, parse_source, parse, unescape_loop, unescape_tag_value,
}

abbrev Runs {ℓ} : {A : Type ℓ} → Result A → Type ℓ
Runs r = r ≢ err out_of_fuel

>>=-Runs {ℓ κ} :
    {A : Type ℓ} {B : Type κ} (m : Result A) (f : A → Result B)
    → Runs m
    → ((a : A) → Runs (f a))
    → Runs (m >>= f)
>>=-Runs (ok a) f h k = k a
>>=-Runs (err e) f h k = λ p. h (cc)

ok-Runs {ℓ} : {A : Type ℓ} (a : A) → Runs (ok a)
ok-Runs a = λ p. cc

-- The parameter loop always gives a list.
pub parse_params_total :
    (f : ℕ) (s : Bytes) → length s ≤ f → (ps : List Bytes) × (parse_params f s ≡ ok ps)
unfolding parse_params
parse_params_total f [] h = ([], refl)
parse_params_total zero (c ∷ cs) h = absurd (omega arith)
parse_params_total (suc f) (c ∷ cs) h = elim (Bool-cases (c == b':')) [
  | inl colon ↦ (cs ∷ [], rw (colon, parse_params))
  | inr word ↦ elim (Option-cases (cut_byte b' ' (c ∷ cs))) [
    | inl last ↦ ((c ∷ cs) ∷ [], rw (word, parse_params) (rw last))
    | inr ((p, rest), cut) ↦
        let (ps, e) =
          parse_params_total f (trim_left b' ' rest)
            (omega (arith, length-trim_left b' ' rest, length-cut_byte b' ' (c ∷ cs) cut)) in
        (p ∷ ps, rw (word, parse_params) (rw cut (rw e)))
  ]
]

unescape_loop-Runs : (v : Bytes) → Runs (unescape_loop v)
unfolding unescape_loop
unescape_loop-Runs [] = λ p. cc
unescape_loop-Runs (c ∷ []) = ground arith
unescape_loop-Runs (c ∷ d ∷ ds) = elim (Bool-cases (c == b'\\')) [
  | inl e ↦ rw e (>>=-Runs (unescape_loop ds) _ (unescape_loop-Runs ds) (λ r. ok-Runs _))
  | inr e ↦
      rw e (>>=-Runs (unescape_loop (d ∷ ds)) _ (unescape_loop-Runs (d ∷ ds)) (λ r. ok-Runs _))
]

unescape_tag_value-Runs : (v : Bytes) → Runs (unescape_tag_value v)
unfolding unescape_tag_value
unescape_tag_value-Runs v = ground (arith, unescape_loop-Runs v)

put_tag-Runs : (tags : Tags) (k v : Bytes) → Runs (put_tag tags k v)
unfolding put_tag
put_tag-Runs tags [] v = λ p. cc
put_tag-Runs tags (c ∷ cs) v = λ p. cc

parse_tag-Runs : (tags : Tags) (part : Bytes) → Runs (parse_tag tags part)
unfolding parse_tag
parse_tag-Runs tags part = elim (Option-cases (cut_byte b'=' part)) [
  | inl e ↦ rw (e, parse_tag) (put_tag-Runs tags part [])
  | inr ((k, v), e) ↦
      rw (e, parse_tag)
        (>>=-Runs (unescape_tag_value v) _ (unescape_tag_value-Runs v) (put_tag-Runs tags k))
]

parse_parts-Runs : (tags : Tags) (parts : List Bytes) → Runs (parse_parts tags parts)
unfolding parse_parts
parse_parts-Runs tags [] = λ p. cc
parse_parts-Runs tags ([] ∷ parts) = parse_parts-Runs tags parts
parse_parts-Runs tags ((c ∷ cs) ∷ parts) =
    >>=-Runs (parse_tag tags (c ∷ cs)) _ (parse_tag-Runs tags (c ∷ cs))
      (λ t. parse_parts-Runs t parts)

parse_command-Runs : (tags : Tags) (source raw s : Bytes) → Runs (parse_command tags source raw s)
unfolding parse_command
parse_command-Runs tags source raw [] = λ p. cc
parse_command-Runs tags source raw (c ∷ cs) = elim (Option-cases (cut_byte b' ' (c ∷ cs))) [
  | inl e ↦ rw (e, parse_command) (λ p. cc)
  | inr ((command, rest), e) ↦
      let (ps, read) =
        parse_params_total (length rest) (trim_left b' ' rest) (length-trim_left b' ' rest) in
      rw (e, parse_command) (rw read (λ p. cc))
]

parse_source-Runs : (tags : Tags) (raw s : Bytes) → Runs (parse_source tags raw s)
unfolding parse_source
parse_source-Runs tags raw [] = λ p. cc
parse_source-Runs tags raw (c ∷ cs) = elim (Bool-cases (c == b':')) [
  | inr e ↦ rw (e, parse_source) (parse_command-Runs tags [] raw (c ∷ cs))
  | inl e ↦ elim (Option-cases (cut_byte b' ' cs)) [
    | inl n ↦ rw (e, parse_source) (rw n (λ p. cc))
    | inr ((source, rest), n) ↦
        rw (e, parse_source) (rw n (parse_command-Runs tags source raw (trim_left b' ' rest)))
  ]
]

-- On every line `Parse` ends with a message or with one of the source's own errors.
pub parse-Runs : (line : Bytes) → parse line ≢ err out_of_fuel
unfolding parse
parse-Runs [] = λ p. cc
parse-Runs (c ∷ cs) = elim (Bool-cases (c == b'@')) [
  | inr e ↦ rw (e, parse) (parse_source-Runs [] (c ∷ cs) (c ∷ cs))
  | inl e ↦ elim (Option-cases (cut_byte b' ' cs)) [
    | inl n ↦ rw (e, parse) (rw n (λ p. cc))
    | inr ((tag_str, rest), n) ↦
        rw (e, parse)
          (rw n (
            >>=-Runs (parse_tags tag_str) _
              (unfold parse_tags in parse_parts-Runs [] (split b';' tag_str))
              (λ t. parse_source-Runs t (c ∷ cs) (trim_left b' ' rest))))
  ]
]
