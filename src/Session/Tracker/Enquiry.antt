-- ===== src/Session/Tracker/Enquiry.antt =====
-- internal/session/tracker.go: what a client's enquiry asks for. `strings.EqualFold` is taken on
-- ASCII text, where it compares without regard to case.
use go_bnc.Session.Tracker.Begin.{whois_remote_nick}
use go_bnc.Session.Tracker.Codes.{is, one_of}
use go_bnc.Session.Tracker.Route.Targets.{fold_server}
use go_bnc.Irc.CaseMap.{CaseMapping, equal}
use go_bnc.Base.{
  Bytes, List, [], get_elem?, if◌then◌else◌, none, some, split, text_eq, trim_space, ℕ, ◌∷◌,
}

-- `ParseWHOISRemote`
unfoldable pub parse_whois_remote : List Bytes → CaseMapping → Bytes
unfolding fold_server
parse_whois_remote (a ∷ b ∷ rest) cm =
    if text_eq b [] then [] else if equal cm a b then whois_remote_nick else fold_server a
parse_whois_remote _ cm = []

-- A parameter folded as a server, "" if there is none.
unfoldable pub server_at : List Bytes → ℕ → Bytes
unfolding fold_server
server_at params i = elim (get_elem? params i) [ none ↦ [] | some p ↦ fold_server p ]

-- `EnquiryRemote`
unfoldable pub enquiry_remote : Bytes → List Bytes → CaseMapping → Bytes
unfolding parse_whois_remote server_at
enquiry_remote cmd params cm =
    if is cmd "WHOIS"
    then parse_whois_remote params cm
    else if is cmd "STATS"
    then server_at params 1
    else if one_of cmd ("NAMES" ∷ "LIST" ∷ [])
    then server_at params 1
    else if one_of cmd ("TIME" ∷ "ADMIN" ∷ "USERS" ∷ "TRACE" ∷ "MAP" ∷ [])
    then server_at params 0
    else if is cmd "LUSERS"
    then server_at params 1
    else if is cmd "LINKS"
    then server_at params 0
    else if is cmd "WHOWAS"
    then server_at params 2
    else []

-- The loop of `ParseWHOISTargets`: the nicks that are not blank.
unfoldable pub nonblank : List Bytes → List Bytes
unfolding trim_space
nonblank [] = []
nonblank (n ∷ ns) =
    let rest = nonblank ns in elim (trim_space n) [ [] ↦ rest | c ∷ cs ↦ (c ∷ cs) ∷ rest ]

-- `ParseWHOISTargets`
unfoldable pub parse_whois_targets : List Bytes → List Bytes
unfolding nonblank split
parse_whois_targets [] = []
parse_whois_targets (a ∷ []) = nonblank (split b',' a)
parse_whois_targets (a ∷ b ∷ rest) =
    nonblank (split b',' (if equal CaseMapping.ascii a b then a else b))

-- `ParseStatsLetter`
unfoldable pub parse_stats_letter : List Bytes → Bytes
unfolding fold_server
parse_stats_letter [] = []
parse_stats_letter (p ∷ ps) = if text_eq p [] then [] else fold_server p
