-- ===== src/Session/Tracker/Route/Targets.antt =====
-- internal/session/tracker.go: what a numeric says about the request it answers, and the searches
-- for that request. Where several requests are equally old, a search takes the first of the list.
use go_bnc.Session.Tracker.Begin.{mode_map_key}
use go_bnc.Session.Tracker.Queues.{queue_at}
use go_bnc.Irc.Message.{contains_byte, Message}
use go_bnc.Session.Tracker.{Pending, Queues}
use go_bnc.Session.Tracker.Codes.{one_of, is}
use go_bnc.Irc.CaseMap.{CaseMapping, fold}
use go_bnc.Base.{
  Bool, Bytes, List, Option, [], codes, cut_byte, false, get_or, if◌then◌else◌, leb, ltb, none, not,
  some, text_eq, text_in, trim_space, true, ℕ, ◌&&◌, ◌||◌, ◌∷◌,
}

-- `IsWHOISReply` of internal/irc/ircd.go
unfoldable pub is_whois_reply : Bytes → Bytes → Bool
is_whois_reply numeric ircd =
    if one_of numeric ("301" ∷ "311" ∷ "312" ∷ "313" ∷ "317" ∷ "318" ∷ "319" ∷ "401" ∷ [])
    then true
    else if one_of ircd ("ircu" ∷ "snircd" ∷ [])
    then one_of numeric ("330" ∷ "338" ∷ "671" ∷ [])
    else if is ircd "unrealircd"
    then one_of numeric ("276" ∷ "307" ∷ "310" ∷ "320" ∷ "335" ∷ "378" ∷ "379" ∷ "671" ∷ [])
    else if is ircd "bahamut"
    then one_of numeric ("307" ∷ "338" ∷ [])
    else if one_of ircd ("inspircd" ∷ "ergo" ∷ "oragono" ∷ [])
    then one_of numeric ("276" ∷ "330" ∷ "671" ∷ "672" ∷ "673" ∷ "674" ∷ [])
    else if one_of ircd ("ratbox" ∷ "charybdis" ∷ "solanum" ∷ "ircd-seven" ∷ "hybrid" ∷ [])
    then one_of numeric ("276" ∷ "330" ∷ "335" ∷ "337" ∷ "338" ∷ "671" ∷ [])
    else if one_of ircd ("ngircd" ∷ "ircd-irc2" ∷ [])
    then false
    else one_of numeric (
        "276" ∷ "307" ∷ "310" ∷ "320" ∷ "325" ∷ "330" ∷ "335" ∷ "336" ∷ "337" ∷ "338" ∷ "378"
        ∷ "379" ∷ "671" ∷ "672" ∷ "673" ∷ "674" ∷ [])

-- The folded parameter at an index, "" if there is none.
abbrev folded_at : CaseMapping → List Bytes → ℕ → Bytes
folded_at cm params i = fold cm (get_or params i [])

-- `modeEnquiryNumericTarget`
unfoldable pub mode_enquiry_numeric_target : Message → CaseMapping → Bytes
mode_enquiry_numeric_target msg cm =
    if is msg.command "221"
    then folded_at cm msg.params 0
    else if one_of msg.command (
        "324" ∷ "329" ∷ "367" ∷ "368" ∷ "348" ∷ "349" ∷ "346" ∷ "347" ∷ "728" ∷ "729" ∷ "403"
        ∷ "442" ∷ "472" ∷ "482" ∷ "401" ∷ "461" ∷ [])
    then folded_at cm msg.params 1
    else []

-- `topicEnquiryNumericTarget`
unfoldable pub topic_enquiry_numeric_target : Message → CaseMapping → Bytes
topic_enquiry_numeric_target msg cm =
    if one_of msg.command ("331" ∷ "332" ∷ "333" ∷ "401" ∷ "403" ∷ "442" ∷ "461" ∷ [])
    then folded_at cm msg.params 1
    else []

-- `namesNumericTarget`
unfoldable pub names_numeric_target : Message → CaseMapping → Bytes
names_numeric_target msg cm =
    if is msg.command "353"
    then folded_at cm msg.params 2
    else if one_of msg.command ("366" ∷ "401" ∷ "403" ∷ [])
    then folded_at cm msg.params 1
    else []

-- `modeNumericLetter`
unfoldable pub mode_numeric_letter : Bytes → Option Bytes
mode_numeric_letter cmd =
    if one_of cmd ("221" ∷ "324" ∷ "329" ∷ [])
    then some []
    else if one_of cmd ("367" ∷ "368" ∷ [])
    then some (codes "b")
    else if one_of cmd ("348" ∷ "349" ∷ [])
    then some (codes "e")
    else if one_of cmd ("346" ∷ "347" ∷ [])
    then some (codes "I")
    else if one_of cmd ("728" ∷ "729" ∷ [])
    then some (codes "q")
    else none

-- `modeKeyTarget`
unfoldable pub mode_key_target : Bytes → Bytes
mode_key_target key = elim (cut_byte 0 key) [ none ↦ key | some (target, letters) ↦ target ]

-- `modeKeyLetters`
unfoldable pub mode_key_letters : Bytes → Bytes
mode_key_letters key = elim (cut_byte 0 key) [ none ↦ [] | some (target, letters) ↦ letters ]

abbrev is_digit : ℕ → Bool
is_digit c = leb b'0' c && leb c b'9'

-- `isLikelyReply`
unfoldable pub is_likely_reply : Bytes → Bool
is_likely_reply (a ∷ b ∷ c ∷ []) = is_digit a && is_digit b && is_digit c
is_likely_reply _ = false

-- The space bytes of `strings.TrimSpace` on ASCII text.
-- `foldServer`, and `foldStatsLetter`, which is the same code; on ASCII text.
unfoldable pub fold_server : Bytes → Bytes
unfolding trim_space
fold_server s = fold CaseMapping.ascii (trim_space s)

-- The older of two finds; the first if they are equally old.
abbrev older : Bytes → Pending → Option (Bytes × Pending) → Option (Bytes × Pending)
older k r none = some (k, r)
older k r (some (j, s)) = if ltb s.created r.created then some (j, s) else some (k, r)

-- The oldest request of a map that passes a test.
unfoldable pub oldest : (Bytes → Pending → Bool) → List (Bytes × Pending) → Option (Bytes × Pending)
oldest test [] = none
oldest test ((k, r) ∷ m) = let rest = oldest test m in if test k r then older k r rest else rest

-- The first requests of the queues that have one.
unfoldable pub heads : Queues → List (Bytes × Pending)
heads [] = []
heads ((k, []) ∷ queues) = heads queues
heads ((k, r ∷ rs) ∷ queues) = (k, r) ∷ heads queues

-- `strings.Contains(s, letter)` for a letter of one byte.
abbrev has_letter : Bytes → Bytes → Bool
has_letter letters [] = true
has_letter letters (c ∷ cs) = contains_byte c letters

-- `findModeWaiters`: the key and the first of its waiters.
unfoldable pub find_mode_waiters : Queues → Bytes → Bytes → Option (Bytes × Pending)
unfolding oldest heads mode_key_target mode_key_letters queue_at mode_map_key
find_mode_waiters mode target letter =
    let exact = mode_map_key target letter in
    elim (queue_at mode exact) [
      | r ∷ rs ↦ some (exact, r)
      | [] ↦ if text_eq letter [] then any else lettered
    ]
  where
    any : Option (Bytes × Pending)
    any = oldest (λ (k : Bytes) (r : Pending). text_eq (mode_key_target k) target) (heads mode)

    or_any : Option (Bytes × Pending) → Option (Bytes × Pending)
    or_any none = any
    or_any (some best) = some best

    lettered : Option (Bytes × Pending)
    lettered = or_any (
        oldest
          (λ (k : Bytes) (r : Pending).
            text_eq (mode_key_target k) target && has_letter (mode_key_letters k) letter)
          (heads mode))

-- `whoxByMask`
unfoldable pub whox_by_mask : List (Bytes × Pending) → Bytes → Option (Bytes × Pending)
unfolding oldest
whox_by_mask whox mask =
    if text_eq mask []
    then none
    else oldest (λ (k : Bytes) (r : Pending). not (text_eq r.target []) && text_eq r.target mask)
        whox

-- `singleStatsPending`
unfoldable pub single_stats_pending : Queues → Option Pending
unfolding heads
single_stats_pending stats = only (heads stats)
  where
    only : List (Bytes × Pending) → Option Pending
    only ((letter, r) ∷ []) = some r
    only _ = none

-- `serialHeadFor`
unfoldable pub serial_head_for : Queues → Bytes → List Bytes → Option (Bytes × Pending)
unfolding queue_at is_likely_reply
serial_head_for serial numeric [] = none
serial_head_for serial numeric (kind ∷ kinds) =
    let rest = serial_head_for serial numeric kinds in
    elim (queue_at serial kind) [
      | [] ↦ rest
      | head ∷ q ↦
          if text_in numeric head.reply_codes || is_nil head.reply_codes && is_likely_reply numeric
          then some (kind, head)
          else rest
    ]
  where
    is_nil : List Bytes → Bool
    is_nil [] = true
    is_nil (c ∷ cs) = false
