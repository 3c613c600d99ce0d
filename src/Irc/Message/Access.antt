-- ===== src/Irc/Message/Access.antt =====
-- internal/irc/message.go and limits.go: what handlers read of a message, and its limits.
use go_bnc.Irc.Message.{Message, contains_byte, Tags}
use go_bnc.Base.{Bool, Bytes, List, [], codes, cut_byte, false, get_or, none, some, ℕ, ◌||◌, ◌∷◌}

-- `Nick`
unfoldable pub nick_of : Message → Bytes
nick_of msg = elim (cut_byte b'!' msg.source) [ none ↦ msg.source | some (nick, rest) ↦ nick ]

-- `Param`, for an index that is not negative.
unfoldable pub param : Message → ℕ → Bytes
param msg i = get_or msg.params i []

-- The last parameter.
unfoldable pub last_of : List Bytes → Bytes
last_of [] = []
last_of (p ∷ []) = p
last_of (p ∷ q ∷ ps) = last_of (q ∷ ps)

-- `Trailing`
unfoldable pub trailing : Message → Bytes
trailing msg = last_of msg.params

-- `strings.ContainsAny(s, "\r\n")`
unfoldable pub has_crlf : Bytes → Bool
has_crlf s = contains_byte b'\r' s || contains_byte b'\n' s

unfoldable pub params_crlf : List Bytes → Bool
params_crlf [] = false
params_crlf (p ∷ ps) = has_crlf p || params_crlf ps

unfoldable pub tags_crlf : Tags → Bool
tags_crlf [] = false
tags_crlf ((k, v) ∷ tags) = has_crlf k || has_crlf v || tags_crlf tags

-- `HasRawCRLF`
unfoldable pub has_raw_crlf : Message → Bool
has_raw_crlf msg =
    has_crlf msg.source || has_crlf msg.command || params_crlf msg.params || tags_crlf msg.tags

-- `InputTooLong`
unfoldable pub input_too_long : Bytes → Message
input_too_long nick = record {
  tags = [];
  source = codes "gobnc";
  command = codes "417";
  params = elim nick [ [] ↦ codes "*" | c ∷ cs ↦ c ∷ cs ] ∷ codes "Input line was too long" ∷ [];
  raw = [];
}
