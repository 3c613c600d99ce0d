-- ===== src/Session/Tracker/Route/Keyed.antt =====
-- internal/session/tracker.go: the steps of `routeLocked` for labels, channels and nicks.
use go_bnc.Session.Tracker.Codes.{is, is_mode_enquiry_error}
use go_bnc.Session.Tracker.Queues.{pop_waiters, queue_at}
use go_bnc.Session.Tracker.Route.Targets.{
  is_whois_reply, mode_enquiry_numeric_target, mode_key_target, names_numeric_target,
  topic_enquiry_numeric_target, mode_numeric_letter, find_mode_waiters,
}
use go_bnc.Session.Tracker.{
  RequestTracker, Pending, dests_of, Message, Queues, RouteDest, StickyRoute,
}
use go_bnc.Irc.CaseMap.{CaseMapping, fold}
use go_bnc.Base.{
  Bool, Bytes, List, Option, [], byte_key, codes, erase, false, get_elem?, get_or, if◌then◌else◌,
  insert, lookup, none, not, some, text_eq, text_in, text_key, ℕ, ◌&&◌, ◌++◌, ◌||◌, ◌∷◌,
}

-- What a step of `routeLocked` returns; `none` is the nil with which the next step is tried.
abbrev pub Routed : Type 0
Routed = Option (RequestTracker × List RouteDest)

abbrev pub or_else : Routed → Routed → Routed
or_else none next = next
or_else (some r) next = some r

-- `req.EndCodes[cmd]`
abbrev pub ends : Pending → Bytes → Bool
ends req cmd = text_in cmd req.end_codes

-- `len(req.ReplyCodes) > 0 && !req.ReplyCodes[cmd]`
abbrev refuses : Pending → Bytes → Bool
refuses req cmd = elim req.reply_codes [ [] ↦ false | c ∷ cs ↦ not (text_in cmd (c ∷ cs)) ]

-- The test for a 324 after which a 329 may come.
abbrev keeps_sticky : Pending → Bytes → Bool
keeps_sticky req cmd =
    is req.command "MODE" && is cmd "324" && text_in (codes "329") req.reply_codes

abbrev put_sticky : ℕ → RequestTracker → Bytes → Pending → RequestTracker
put_sticky now rt target req = record rt {
  sticky =
      insert target (record { dests = dests_of req; code = codes "329"; created = now }) rt.sticky;
}

-- The step for the tag `label`.
unfoldable pub route_labeled : ℕ → RequestTracker → Message → CaseMapping → Routed
route_labeled now rt msg cm = by_label (get_label (lookup (codes "label") msg.tags))
  where
    get_label : Option Bytes → Bytes
    get_label none = []
    get_label (some l) = l

    follow_up : Pending → Bytes → RequestTracker
    follow_up req [] = rt
    follow_up req (c ∷ cs) = put_sticky now rt (c ∷ cs) req

    ended : Bytes → Pending → RequestTracker
    ended label req =
        let rt' =
          if keeps_sticky req msg.command
          then follow_up req
              (if text_eq req.target [] then fold cm (get_or msg.params 1 []) else req.target)
          else rt in
        record rt' { labeled = erase label rt'.labeled }

    by_request : Bytes → Option Pending → Routed
    by_request label none = none
    by_request label (some req) =
        some (if ends req msg.command then ended label req else rt, dests_of req)

    by_label : Bytes → Routed
    by_label [] = none
    by_label (c ∷ cs) = by_request (c ∷ cs) (lookup (c ∷ cs) rt.labeled)

-- The step for the 329 after a 324.
unfoldable pub route_sticky : RequestTracker → Message → CaseMapping → Routed
route_sticky rt msg cm = if is msg.command "329" then by_param (get_elem? msg.params 1) else none
  where
    by_route : Bytes → Option StickyRoute → Routed
    by_route target none = none
    by_route target (some s) =
        if is s.code "329"
        then some (record rt { sticky = erase target rt.sticky }, s.dests)
        else none

    by_param : Option Bytes → Routed
    by_param none = none
    by_param (some p) = by_route (fold cm p) (lookup (fold cm p) rt.sticky)

-- `routeTargetQueue`: what is left of the queues, the lines that become ready, and the clients.
-- Its callers pass false for `sticky324`.
unfoldable pub route_target_queue :
    Queues → Bytes → Bytes → Option (Queues × List Message × List RouteDest)
unfolding pop_waiters queue_at
route_target_queue queues target cmd = elim (queue_at queues target) [
  | [] ↦ none
  | req ∷ q ↦
      if refuses req cmd
      then none
      else if ends req cmd
      then (let (queues', lines) = pop_waiters queues target in some (queues', lines, dests_of req))
      else some (queues, [], dests_of req)
]

-- The loop of `popAllModeTarget`: the clients, and the map without the queues that end.
unfoldable pub pop_all_mode_target : Queues → Bytes → Bytes → Queues × List RouteDest
unfolding mode_key_target
pop_all_mode_target [] target cmd = ([], [])
pop_all_mode_target ((k, []) ∷ mode) target cmd =
    let (rest, dests) = pop_all_mode_target mode target cmd in ((k, []) ∷ rest, dests)
pop_all_mode_target ((k, r ∷ rs) ∷ mode) target cmd =
    let (rest, dests) = pop_all_mode_target mode target cmd in
    if not (text_eq (mode_key_target k) target) || refuses r cmd
    then ((k, r ∷ rs) ∷ rest, dests)
    else (rest, dests_of r ++ dests)

-- `rt.mode[key] = waiters[1:]`, or the key deleted.
unfoldable pub drop_first : Queues → Bytes → Queues
unfolding queue_at
drop_first mode key = elim (queue_at mode key) [
  | [] ↦ erase key mode
  | r ∷ [] ↦ erase key mode
  | r ∷ s ∷ rs ↦ insert key (s ∷ rs) mode
]

-- `routeModeLocked`
unfoldable pub route_mode : ℕ → RequestTracker → Message → CaseMapping → Routed
unfolding mode_enquiry_numeric_target is_mode_enquiry_error pop_all_mode_target mode_numeric_letter
    find_mode_waiters drop_first
route_mode now rt msg cm = by_target (mode_enquiry_numeric_target msg cm)
  where
    fan_out : Queues × List RouteDest → Routed
    fan_out (mode, []) = none
    fan_out (mode, d ∷ ds) = some (record rt { mode = mode }, d ∷ ds)

    ended : Bytes → Bytes → Pending → RequestTracker
    ended target key req =
        let rt' = if keeps_sticky req msg.command then put_sticky now rt target req else rt in
        record rt' { mode = drop_first rt'.mode key }

    by_waiter : Bytes → Option (Bytes × Pending) → Routed
    by_waiter target none = none
    by_waiter target (some (key, req)) =
        if refuses req msg.command
        then none
        else some (if ends req msg.command then ended target key req else rt, dests_of req)

    by_letter : Bytes → Option Bytes → Routed
    by_letter target none = none
    by_letter target (some letter) = by_waiter target (find_mode_waiters rt.mode target letter)

    by_target : Bytes → Routed
    by_target [] = none
    by_target (c ∷ cs) =
        if is_mode_enquiry_error msg.command
        then fan_out (pop_all_mode_target rt.mode (c ∷ cs) msg.command)
        else by_letter (c ∷ cs) (mode_numeric_letter msg.command)

-- The steps for TOPIC and NAMES.
unfoldable pub route_topic : RequestTracker → Message → CaseMapping → Routed
unfolding topic_enquiry_numeric_target route_target_queue
route_topic rt msg cm =
    let target = topic_enquiry_numeric_target msg cm in
    if text_eq target [] then none else elim (route_target_queue rt.topic target msg.command) [
      | none ↦ none
      | some (q, lines, dests) ↦ some (record rt { topic = q; ready = rt.ready ++ lines }, dests)
    ]

unfoldable pub route_names : RequestTracker → Message → CaseMapping → Routed
unfolding names_numeric_target route_target_queue
route_names rt msg cm =
    let target = names_numeric_target msg cm in
    if text_eq target [] then none else elim (route_target_queue rt.names target msg.command) [
      | none ↦ none
      | some (q, lines, dests) ↦ some (record rt { names = q; ready = rt.ready ++ lines }, dests)
    ]

-- The step for WHOIS: with the queue of the nick, with the parameter that names it, and as a whole.
unfoldable pub whois_head : RequestTracker → Message → Bytes → List Pending → Routed
unfolding pop_waiters
whois_head rt msg nick [] = none
whois_head rt msg nick (req ∷ q) =
    let (whois, lines) = pop_waiters rt.whois nick in
    some (
      if ends req msg.command then record rt { whois = whois; ready = rt.ready ++ lines } else rt,
      dests_of req,
    )

unfoldable pub whois_at : RequestTracker → Message → CaseMapping → Option Bytes → Routed
unfolding whois_head queue_at
whois_at rt msg cm none = none
whois_at rt msg cm (some p) = whois_head rt msg (fold cm p) (queue_at rt.whois (fold cm p))

unfoldable pub route_whois : RequestTracker → Message → CaseMapping → Routed
unfolding is_whois_reply whois_at
route_whois rt msg cm =
    if is_whois_reply msg.command rt.ircd then whois_at rt msg cm (get_elem? msg.params 1) else none
