-- ===== src/Irc/Isupport.antt =====
-- internal/irc/isupport.go: the tokens of RPL_ISUPPORT. `Raw` is an association list.
pub mod RoundTrip
pub mod Lines
use go_bnc.Irc.Message.{Message, Tags}
use go_bnc.Base.{
  Bool, Bytes, List, [], byte_key, codes, cut_byte, erase, false, if◌then◌else◌, insert, length,
  ltb, map, none, some, text_eq, text_key, true, ℕ, ◌++◌, ◌+◌, ◌==◌, ◌||◌, ◌∷◌,
}
use go_bnc.Irc.CaseMap.{CaseMapping, ascii, strict_rfc1459, rfc1459, fold}
use go_bnc.Irc.Modes.{ModeSet, default_mode_set, parse_chanmodes, parse_prefix}
use go_bnc.Irc.Message.Encode.{sort_strings, keys, value_of}

pub record Isupport : Type 0 where
  pub raw : Tags
  pub case_mapping : CaseMapping
  pub modes : ModeSet
  pub whox : Bool
  pub utf8_only : Bool
  pub prefix_value : Bytes
  pub chan_modes : Bytes

-- `NewISUPPORT`
pub new_isupport : Isupport
new_isupport = record {
  raw = [];
  case_mapping = rfc1459;
  modes = default_mode_set;
  whox = false;
  utf8_only = false;
  prefix_value = [];
  chan_modes = [];
}

-- `ParseCaseMapping` of internal/irc/casemap.go, on ASCII text.
unfoldable pub parse_case_mapping : Bytes → CaseMapping
parse_case_mapping s =
    let t = fold ascii s in
    if text_eq t (codes "ascii")
    then ascii
    else if text_eq t (codes "strict-rfc1459")
    then strict_rfc1459
    else rfc1459

-- `splitKV`
unfoldable pub split_kv : Bytes → Bytes × Bytes
split_kv p = elim (cut_byte b'=' p) [ none ↦ (p, []) | some (key, val) ↦ (key, val) ]

-- The effect of one token, once it is in `Raw`.
unfoldable pub put_known : Isupport → Bytes → Bytes → Isupport
unfolding parse_case_mapping
put_known s key val =
    if text_eq key (codes "CASEMAPPING")
    then record s { case_mapping = parse_case_mapping val }
    else if text_eq key (codes "CHANMODES")
    then record s { chan_modes = val; modes = parse_chanmodes s.modes val }
    else if text_eq key (codes "PREFIX")
    then record s { prefix_value = val; modes = parse_prefix s.modes val }
    else if text_eq key (codes "WHOX")
    then record s { whox = true }
    else if text_eq key (codes "UTF8ONLY")
    then record s { utf8_only = true }
    else s

-- One round of `Parse005`.
unfoldable pub put_token : Isupport → Bytes → Isupport
unfolding split_kv put_known
put_token s p =
    let (key, val) = split_kv p in put_known (record s { raw = insert key val s.raw }) key val

-- `p == "are supported by this server" || p == "is supported by this server"`
unfoldable pub is_trailer : Bytes → Bool
is_trailer p =
    text_eq p (codes "are supported by this server")
    || text_eq p (codes "is supported by this server")

-- The loop of `Parse005` behind the nick.
unfoldable pub parse_tokens : Isupport → List Bytes → Isupport
unfolding put_token is_trailer
parse_tokens s [] = s
parse_tokens s (p ∷ []) = if is_trailer p then s else put_token s p
parse_tokens s (p ∷ q ∷ ps) = parse_tokens (put_token s p) (q ∷ ps)

-- `Parse005`
unfoldable pub parse_005 : Isupport → List Bytes → Isupport
unfolding parse_tokens
parse_005 s [] = s
parse_005 s (nick ∷ ps) = parse_tokens s ps

-- The token of one key.
unfoldable pub token_text : Tags → Bytes → Bytes
unfolding value_of
token_text raw k = elim (value_of raw k) [ [] ↦ k | c ∷ cs ↦ k ++ (b'=' ∷ c ∷ cs) ]

-- `Tokens`; `sort.Strings` is taken as `sortStrings`, which sorts by the same order.
unfoldable pub tokens : Tags → List Bytes
unfolding sort_strings token_text
tokens raw = map (token_text raw) (sort_strings (keys raw))

-- The loop of `CloneRaw` over the overrides.
unfoldable pub override : Tags → Tags → Tags
override raw [] = raw
override raw ((k, []) ∷ os) = override (erase k raw) os
override raw ((k, c ∷ cs) ∷ os) = override (insert k (c ∷ cs) raw) os

-- `CloneRaw`
unfoldable pub clone_raw : Isupport → Tags → Tags
unfolding override
clone_raw s overrides = override s.raw overrides

abbrev pub trailing_text : Bytes
trailing_text = codes "are supported by this server"

-- `len("005 ") + len(nick) + 1 + len(isupportTrailing) + 2`
abbrev pub prefix_len : Bytes → ℕ
prefix_len nick = 4 + length nick + 1 + length trailing_text + 2

-- The message that `flush` appends.
unfoldable pub isupport_line : Bytes → List Bytes → Message
isupport_line nick batch = record {
  tags = [];
  source = [];
  command = codes "005";
  params = nick ∷ (batch ++ (trailing_text ∷ []));
  raw = [];
}

-- `flush`
unfoldable pub flush : Bytes → List Bytes → List Message
unfolding isupport_line
flush nick [] = []
flush nick (t ∷ batch) = isupport_line nick (t ∷ batch) ∷ []

-- The loop of `RPL005` with the batch and its length.
unfoldable pub batch_loop : Bytes → ℕ → List Bytes → ℕ → List Bytes → List Message
unfolding flush
batch_loop nick max_len batch batch_len [] = flush nick batch
batch_loop nick max_len [] batch_len (t ∷ ts) =
    batch_loop nick max_len (t ∷ []) (batch_len + (length t + 1)) ts
batch_loop nick max_len (b ∷ batch) batch_len (t ∷ ts) =
    let need = length t + 1 in
    elim (ltb max_len (batch_len + need)) [
      | true ↦
          isupport_line nick (b ∷ batch)
          ∷ batch_loop nick max_len (t ∷ []) (prefix_len nick + need) ts
      | false ↦ batch_loop nick max_len (b ∷ batch ++ (t ∷ [])) (batch_len + need) ts
    ]

-- `RPL005`, once it has its tokens, and as a whole; a `maxLen` that is not positive is 0.
unfoldable pub lines_for : Bytes → ℕ → List Bytes → List Message
unfolding batch_loop isupport_line
lines_for nick max_len [] = isupport_line nick [] ∷ []
lines_for nick max_len (t ∷ ts) =
    batch_loop nick (if max_len == 0 then 500 else max_len) [] (prefix_len nick) (t ∷ ts)

unfoldable pub rpl_005 : Bytes → Tags → ℕ → List Message
unfolding tokens lines_for
rpl_005 nick raw max_len = lines_for nick max_len (tokens raw)
