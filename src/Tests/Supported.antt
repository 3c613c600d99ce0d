-- ===== src/Tests/Supported.antt =====
-- Concrete tokens of RPL_ISUPPORT, and a message without line breaks.
use go_bnc.Irc.Isupport.{new_isupport, rpl_005, lines_for}
use go_bnc.Irc.Isupport.RoundTrip.{lookup-parse_all, parse_all}
use go_bnc.Irc.Isupport.Lines.{lines_for-IsShort, IsShort}
use go_bnc.Irc.Message.LineBreaks.{encode-IsClean, IsClean}
use go_bnc.Irc.Message.Access.{has_raw_crlf, has_crlf, params_crlf, tags_crlf}
use go_bnc.Irc.Message.{Message, Tags, contains_byte}
use go_bnc.Irc.Message.Encode.{encode}
use go_bnc.Base.{All, [], byte_key, codes, lookup, refl, text_key, ◌∷◌, ◌≡◌}

abbrev two_tokens : Tags
two_tokens = (codes "NICKLEN", codes "9") ∷ (codes "WHOX", []) ∷ []

lookup-parse_all_example :
    lookup (codes "WHOX") (parse_all new_isupport (rpl_005 (codes "al") two_tokens 40)).raw
    ≡ lookup (codes "WHOX") two_tokens
lookup-parse_all_example =
    lookup-parse_all (codes "al") two_tokens 40
      (
        (refl, (refl, (refl, (refl, (refl, (refl, (refl, tt))))))),
        ((refl, (refl, (refl, (refl, tt)))), tt),
      )
      (codes "WHOX")

lines_for-IsShort_example :
    All
      (IsShort (codes "al") 60)
      (lines_for (codes "al") 60 (codes "NICKLEN=9" ∷ codes "WHOX" ∷ codes "MONITOR=100" ∷ []))
lines_for-IsShort_example =
    lines_for-IsShort (codes "al") 60 (codes "NICKLEN=9") (codes "WHOX" ∷ codes "MONITOR=100" ∷ [])

abbrev tagged_line : Message
tagged_line = record {
  tags = (codes "id", codes "a;b") ∷ [];
  source = codes "al";
  command = codes "PRIVMSG";
  params = codes "#c" ∷ codes "hi you" ∷ [];
  raw = [];
}

encode-IsClean_example : IsClean (encode tagged_line)
unfolding has_crlf contains_byte params_crlf tags_crlf
encode-IsClean_example = encode-IsClean tagged_line (unfold has_raw_crlf in refl)
