-- ===== src/Irc/Isupport/RoundTrip.antt =====
-- internal/irc/isupport.go: `Parse005` reads back what `RPL005` writes.
use go_bnc.Irc.Isupport.{
  put_token, rpl_005, put_known, tokens, batch_loop, parse_005, Isupport, split_kv, parse_tokens,
  token_text, trailing_text, Message, prefix_len, isupport_line, Tags, new_isupport, lines_for,
}
use go_bnc.Base.{
  All, Bytes, Free, List, [], ap, append-nil, append_assoc, arith, byte_key, cut_byte-Free,
  cut_byte-append, insert, length, lookup, map, refl, text_eq, text_key, ℕ, ◌++◌, ◌+◌, ◌∙◌, ◌∷◌,
  ◌≡◌,
}
use go_bnc.Irc.Message.RoundTrip.{put_all}
use go_bnc.Irc.Message.RoundTrip.Line.{lookup-read_back}
use go_bnc.Irc.Message.Sorting.{sort_strings-All}
use go_bnc.Irc.Message.Encode.{sort_strings, keys, value_of}

-- `Parse005` on some lines, one after the other.
unfoldable pub parse_all : Isupport → List Message → Isupport
parse_all s [] = s
parse_all s (m ∷ ms) = parse_all (parse_005 s m.params) ms

-- The effect of some tokens.
put_tokens : Isupport → List Bytes → Isupport
put_tokens s [] = s
put_tokens s (t ∷ ts) = put_tokens (put_token s t) ts

put_tokens-append :
    (s : Isupport) (xs ys : List Bytes) → put_tokens s (xs ++ ys) ≡ put_tokens (put_tokens s xs) ys
unfolding put_tokens
put_tokens-append s [] ys = refl
put_tokens-append s (x ∷ xs) ys = put_tokens-append (put_token s x) xs ys

parse_tokens-line :
    (s : Isupport) (batch : List Bytes)
    → parse_tokens s (batch ++ (trailing_text ∷ [])) ≡ put_tokens s batch
unfolding parse_tokens put_tokens text_eq
parse_tokens-line s [] = refl
parse_tokens-line s (t ∷ []) = refl
parse_tokens-line s (t ∷ u ∷ us) = parse_tokens-line (put_token s t) (u ∷ us)

parse_005-line :
    (s : Isupport) (nick : Bytes) (batch : List Bytes)
    → parse_005 s (isupport_line nick batch).params ≡ put_tokens s batch
unfolding parse_005 isupport_line
parse_005-line s nick batch = parse_tokens-line s batch

parse_all-batch_loop :
    (nick : Bytes) (max_len : ℕ) (ts : List Bytes) (s : Isupport) (batch : List Bytes) (len : ℕ)
    → parse_all s (batch_loop nick max_len batch len ts) ≡ put_tokens s (batch ++ ts)
unfolding batch_loop parse_all
parse_all-batch_loop nick max_len [] s [] len = unfold put_tokens in refl
parse_all-batch_loop nick max_len [] s (b ∷ batch) len =
    parse_005-line s nick (b ∷ batch) ∙ rw append-nil refl
parse_all-batch_loop nick max_len (t ∷ ts) s [] len =
    parse_all-batch_loop nick max_len ts s (t ∷ []) (len + (length t + 1))
parse_all-batch_loop nick max_len (t ∷ ts) s (b ∷ batch) len = ground (
  arith,
  parse_005-line s nick (b ∷ batch),
  parse_all-batch_loop nick max_len ts (put_tokens s (b ∷ batch)) (t ∷ [])
      (prefix_len nick + (length t + 1)),
  put_tokens-append s (b ∷ batch) (t ∷ ts),
  parse_all-batch_loop nick max_len ts s (b ∷ batch ++ (t ∷ [])) (len + (length t + 1)),
  append_assoc (b ∷ batch) (t ∷ []) ts,
)

parse_all-lines_for :
    (nick : Bytes) (max_len : ℕ) (s : Isupport) (ts : List Bytes)
    → parse_all s (lines_for nick max_len ts) ≡ put_tokens s ts
unfolding lines_for parse_all
parse_all-lines_for nick max_len s [] = parse_005-line s nick []
parse_all-lines_for nick max_len s (t ∷ ts) = parse_all-batch_loop nick _ (t ∷ ts) s [] _

split_kv-token_text :
    (raw : Tags) (k : Bytes) → Free b'=' k → split_kv (token_text raw k) ≡ (k, value_of raw k)
unfolding split_kv token_text
split_kv-token_text raw k h = by_value (value_of raw k)
  where
    by_value :
        (v : Bytes)
        → split_kv (elim v as (λ (x : Bytes). Bytes) [ [] ↦ k | c ∷ cs ↦ k ++ (b'=' ∷ c ∷ cs) ])
          ≡ (k, v)
    by_value [] = rw (cut_byte-Free b'=' k h, split_kv) refl
    by_value (c ∷ cs) = rw (cut_byte-append b'=' k (c ∷ cs) h, split_kv) refl

put_known-raw : (s : Isupport) (key val : Bytes) → (put_known s key val).raw ≡ s.raw
unfolding put_known
put_known-raw s key val = ground arith

put_token-raw :
    (s : Isupport) (raw : Tags) (k : Bytes)
    → Free b'=' k
    → (put_token s (token_text raw k)).raw ≡ insert k (value_of raw k) s.raw
unfolding put_token
put_token-raw s raw k h = rw (split_kv-token_text raw k h) (put_known-raw _ k (value_of raw k))

put_tokens-raw :
    (s : Isupport) (raw : Tags) (ks : List Bytes)
    → All (Free b'=') ks
    → (put_tokens s (map (token_text raw) ks)).raw ≡ put_all raw s.raw ks
unfolding put_tokens
put_tokens-raw s raw [] h = refl
put_tokens-raw s raw (k ∷ ks) (h, hs) =
    put_tokens-raw (put_token s (token_text raw k)) raw ks hs ∙ rw (put_token-raw s raw k h) refl

-- The lines that `RPL005` writes for some tokens, whose keys hold no `=`, are read by `Parse005`
-- into a map with the same value, or absence, at every key, whatever the nick and the length of a
-- line.
pub lookup-parse_all :
    (nick : Bytes) (raw : Tags) (max_len : ℕ)
    → All (Free b'=') (keys raw)
    → (k : Bytes) → lookup k (parse_all new_isupport (rpl_005 nick raw max_len)).raw ≡ lookup k raw
unfolding tokens new_isupport rpl_005
lookup-parse_all nick raw max_len h k =
    ap (λ (s : Isupport). lookup k s.raw)
      (parse_all-lines_for nick max_len new_isupport (tokens raw))
    ∙ ap (lookup k) (
        put_tokens-raw new_isupport raw (sort_strings (keys raw))
          (sort_strings-All (Free b'=') (keys raw) h))
    ∙ lookup-read_back raw k
