-- ===== src/Caps.antt =====
-- internal/caps/caps.go: the capabilities that clients are offered.
pub mod Changes
use go_bnc.Base.{
  Bool, Bytes, List, [], codes, cut_byte, if◌then◌else◌, join, none, not, set, some, text_in, ◌++◌,
  ◌∷◌,
}
use go_bnc.Session.Tracker.Codes.{texts}

-- `AlwaysOffer`
abbrev pub always_offer : List Bytes
always_offer = texts (
    "cap-notify" ∷ "message-tags" ∷ "server-time" ∷ "batch" ∷ "echo-message" ∷ "chathistory"
    ∷ "draft/chathistory" ∷ "event-playback" ∷ "draft/event-playback" ∷ "draft/read-marker" ∷ [])

-- `UplinkOffer`
abbrev pub uplink_offer : List Bytes
uplink_offer = texts (
    "away-notify" ∷ "chghost" ∷ "invite-notify" ∷ "account-notify" ∷ "extended-join"
    ∷ "labeled-response" ∷ [])

-- `AllOffer`
abbrev pub all_offer : List Bytes
all_offer = always_offer ++ uplink_offer

-- The loop of `Offered`; a nil map has no capability.
unfoldable pub enabled : (Bytes → Bool) → List Bytes → List Bytes
enabled uplink_has [] = []
enabled uplink_has (c ∷ cs) =
    if uplink_has c then c ∷ enabled uplink_has cs else enabled uplink_has cs

-- `Offered`
unfoldable pub offered : (Bytes → Bool) → List Bytes
unfolding enabled
offered uplink_has = always_offer ++ enabled uplink_has uplink_offer

-- `CapName`
unfoldable pub cap_name : Bytes → Bytes
cap_name raw = elim (cut_byte b'=' raw) [ none ↦ raw | some (name, value) ↦ name ]

-- `IsUplinkOffer`
unfoldable pub is_uplink_offer : Bytes → Bool
unfolding cap_name
is_uplink_offer name = text_in (cap_name name) uplink_offer

-- `FormatSASL`
unfoldable pub format_sasl : List Bytes → Bytes
format_sasl [] = codes "sasl"
format_sasl (m ∷ ms) = codes "sasl=" ++ join b',' (m ∷ ms)

-- `WithoutValues`, and the keys of the map in `Diff`.
unfoldable pub without_values : List Bytes → List Bytes
unfolding cap_name
without_values [] = []
without_values (c ∷ cs) = cap_name c ∷ without_values cs

-- The second loop of `Diff`, with the keys of its map.
unfoldable pub not_in : List Bytes → List Bytes → List Bytes
not_in set [] = []
not_in set (c ∷ cs) = if not (text_in (cap_name c) set) then c ∷ not_in set cs else not_in set cs

-- `Diff`
unfoldable pub diff : List Bytes → List Bytes → List Bytes
unfolding without_values not_in
diff before after = not_in (without_values before) after
