-- ===== src/Tests/Messages.antt =====
-- Concrete messages and lines.
use go_bnc.Irc.Message.RoundTrip.Line.{parse-encode}
use go_bnc.Irc.Message.Wire.{parse-wire}
use go_bnc.Irc.Message.Escape.{unescape-escape}
use go_bnc.Irc.Message.Total.{parse-Runs}
use go_bnc.Irc.Message.Encode.{wire, encode}
use go_bnc.Irc.Message.RoundTrip.{IsEncodable, IsKey}
use go_bnc.Irc.Message.{
  parse, unescape_tag_value, Message, escape_tag_value, Tags, parse_source, err, ok, out_of_fuel,
  parse_command, parse_params, parse_tags, parse_parts, parse_tag, put_tag, unescape_loop,
  contains_byte,
}
use go_bnc.Irc.CaseMap.Laws.{equal_refines}
use go_bnc.Irc.CaseMap.{ascii, equal, rfc1459, strict_rfc1459}
use go_bnc.Base.{
  Bytes, [], arith, byte_key, codes, cut_byte, insert, lookup, refl, split, text_eq, text_key,
  trim_left, true, ◌∷◌, ◌≡◌, ◌≢◌,
}

abbrev tagged : Message
tagged = record {
  tags = (codes "id", codes "a;b") ∷ (codes "t", []) ∷ [];
  source = codes "al";
  command = codes "MSG";
  params = codes "#c" ∷ codes ":hi you" ∷ [];
  raw = [];
}

id-IsKey : IsKey (codes "id")
id-IsKey = record {
  nonempty = (b'i', b'd' ∷ [], refl);
  no_semicolon = (refl, (refl, tt));
  no_space = (refl, (refl, tt));
  no_equals = (refl, (refl, tt));
}

t-IsKey : IsKey (codes "t")
t-IsKey = record {
  nonempty = (b't', [], refl);
  no_semicolon = (refl, tt);
  no_space = (refl, tt);
  no_equals = (refl, tt);
}

tagged-IsEncodable : IsEncodable tagged
tagged-IsEncodable = record {
  tag_keys = (id-IsKey, (t-IsKey, tt));
  source_word = (refl, (refl, tt));
  command_word = (refl, (refl, (refl, tt)));
  command_not_source = refl;
  command_not_tags = refl;
  middle_params = (refl, (refl, (refl, tt)), tt);
}

parse-encode_example :
    (t : Tags) × (parse (encode tagged) ≡ ok (record tagged { tags = t; raw = encode tagged }))
    × ((k : Bytes) → lookup k t ≡ lookup k tagged.tags)
parse-encode_example = parse-encode tagged tagged-IsEncodable

abbrev received : Bytes
received = codes "@x=1 :al MSG #c :hi"

abbrev received_message : Message
received_message = record {
  tags = (codes "x", codes "1") ∷ [];
  source = codes "al";
  command = codes "MSG";
  params = codes "#c" ∷ codes "hi" ∷ [];
  raw = received;
}

parse-received : parse received ≡ ok received_message
unfolding parse parse_source parse_command parse_params parse_tags parse_parts parse_tag put_tag
    unescape_tag_value unescape_loop contains_byte cut_byte trim_left split insert text_eq
parse-received = refl

parse-wire_example :
    let w = wire (record received_message { tags = (codes "t", codes "9") ∷ [] }) in
    (tags : Tags) × (parse w ≡ ok (record received_message { tags = tags; raw = w }))
    × ((k : Bytes) → lookup k tags ≡ lookup k ((codes "t", codes "9") ∷ []))
parse-wire_example =
    parse-wire received received_message (codes "t", codes "9") [] parse-received (ground arith)
      (t-IsKey, tt)

unescape-escape_example :
    unescape_tag_value (escape_tag_value (codes "a;b c\\")) ≡ ok (codes "a;b c\\")
unescape-escape_example = unescape-escape (codes "a;b c\\")

parse-Runs_example : parse (codes "PING a b :c") ≢ err out_of_fuel
parse-Runs_example = parse-Runs (codes "PING a b :c")

equal_refines_example :
    (equal ascii (codes "Al[") (codes "al[") ≡ true
      → equal strict_rfc1459 (codes "Al[") (codes "al[") ≡ true)
    × (equal strict_rfc1459 (codes "Al[") (codes "al[") ≡ true
        → equal rfc1459 (codes "Al[") (codes "al[") ≡ true)
equal_refines_example = equal_refines (codes "Al[") (codes "al[")
