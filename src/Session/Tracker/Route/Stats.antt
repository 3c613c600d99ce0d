-- ===== src/Session/Tracker/Route/Stats.antt =====
-- internal/session/tracker.go: the steps of `routeLocked` for STATS, for WHO and WHOX, and for the
-- commands that have one queue each.
use go_bnc.Session.Tracker.Route.Keyed.{Routed, ends, or_else}
use go_bnc.Session.Tracker.Codes.{is, one_of, serial_kind_order, is_stats_numeric}
use go_bnc.Session.Tracker.Queues.{pop_waiters, queue_at}
use go_bnc.Session.Tracker.Route.Targets.{
  serial_head_for, oldest, heads, whox_by_mask, fold_server, single_stats_pending,
}
use go_bnc.Session.Tracker.{RequestTracker, Pending, dests_of, Message}
use go_bnc.Irc.CaseMap.{CaseMapping, fold}
use go_bnc.Base.{
  Bool, Bytes, List, Option, [], byte_key, erase, get_elem?, get_or, if◌then◌else◌, lookup, none,
  not, some, text_eq, text_key, ◌&&◌, ◌++◌, ◌||◌, ◌∷◌,
}

-- The end of a STATS request.
unfoldable pub stats_end : RequestTracker → Bytes → Pending → Routed
unfolding pop_waiters
stats_end rt letter req =
    let (stats, lines) = pop_waiters rt.stats letter in
    some (record rt { stats = stats; ready = rt.ready ++ lines }, dests_of req)

-- The step for 402: the loop over the heads, and the parameter that it looks for.
unfoldable pub stats_remote : RequestTracker → Bytes → List (Bytes × Pending) → Routed
unfolding stats_end
stats_remote rt remote [] = none
stats_remote rt remote ((letter, r) ∷ rest) =
    let later = stats_remote rt remote rest in
    if text_eq r.remote [] || not (text_eq r.remote remote) then later else stats_end rt letter r

unfoldable pub stats_no_server : RequestTracker → Option Bytes → Routed
unfolding heads fold_server stats_remote
stats_no_server rt none = none
stats_no_server rt (some p) = stats_remote rt (fold_server p) (heads rt.stats)

-- The step for 219.
unfoldable pub stats_head : RequestTracker → Bytes → List Pending → Routed
unfolding stats_end
stats_head rt letter [] = none
stats_head rt letter (req ∷ q) = stats_end rt letter req

unfoldable pub stats_at : RequestTracker → Option Bytes → Routed
unfolding stats_head fold_server queue_at
stats_at rt none = none
stats_at rt (some p) = stats_head rt (fold_server p) (queue_at rt.stats (fold_server p))

-- The step for the numerics in between.
unfoldable pub stats_between : RequestTracker → Option Pending → Routed
stats_between rt none = none
stats_between rt (some req) = some (rt, dests_of req)

unfoldable pub route_stats : RequestTracker → Message → Routed
unfolding stats_no_server stats_at stats_between is_stats_numeric single_stats_pending
route_stats rt msg =
    or_else (if is msg.command "402" then stats_no_server rt (get_elem? msg.params 1) else none) (
      or_else (if is msg.command "219" then stats_at rt (get_elem? msg.params 1) else none) (
        if is_stats_numeric msg.command && not (is msg.command "219")
        then stats_between rt (single_stats_pending rt.stats)
        else none))

-- `whoxQuirkyIRCd`
abbrev pub whox_quirky : Bytes → Bool
whox_quirky ircd = one_of ircd ("ircu" ∷ "snircd" ∷ [])

abbrev pub end_whox : RequestTracker → Option (Bytes × Pending) → Routed
end_whox rt none = none
end_whox rt (some (tok, req)) = some (record rt { whox = erase tok rt.whox }, dests_of req)

-- The two fallbacks for WHOX: the oldest request at the end, the only one at any time.
unfoldable pub route_whox_quirky : RequestTracker → Message → Routed
unfolding oldest
route_whox_quirky rt msg =
    if whox_quirky rt.ircd
    then or_else
        (if is msg.command "315"
          then end_whox rt
              (oldest (λ (k : Bytes) (r : Pending). one_of r.command ("WHO" ∷ "WHOX" ∷ [])) rt.whox)
          else none)
        (if one_of msg.command ("354" ∷ "315" ∷ []) then single rt.whox else none)
    else none
  where
    single : List (Bytes × Pending) → Routed
    single ((tok, req) ∷ []) =
        if is msg.command "315" then end_whox rt (some (tok, req)) else some (rt, dests_of req)
    single _ = none

-- The step for 315 and all that comes after it; `rest` is what comes after WHOX.
unfoldable pub whox_end : RequestTracker → Message → CaseMapping → Routed → Routed
unfolding whox_by_mask route_whox_quirky
whox_end rt msg cm rest =
    or_else
      (if is msg.command "315"
        then end_whox rt (whox_by_mask rt.whox (fold cm (get_or msg.params 1 [])))
        else none)
      (or_else (route_whox_quirky rt msg) rest)

-- The steps for WHOX and all that comes after them.
unfoldable pub route_whox : RequestTracker → Message → CaseMapping → Routed → Routed
unfolding whox_end
route_whox rt msg cm rest =
    if is msg.command "354" then by_token (get_elem? msg.params 1) else whox_end rt msg cm rest
  where
    found : Bytes → Option Pending → Routed
    found tok none = if is tok "0" then whox_end rt msg cm rest else none
    found tok (some req) = some (rt, dests_of req)

    by_token : Option Bytes → Routed
    by_token none = whox_end rt msg cm rest
    by_token (some tok) = found tok (lookup tok rt.whox)

-- The last step: the first kind in `serialKindOrder` whose head takes the numeric.
unfoldable pub route_serial : RequestTracker → Message → Routed
unfolding serial_head_for pop_waiters
route_serial rt msg = by_head (serial_head_for rt.serial msg.command serial_kind_order)
  where
    by_head : Option (Bytes × Pending) → Routed
    by_head none = none
    by_head (some (kind, req)) =
        let (serial, lines) = pop_waiters rt.serial kind in
        some (
          if ends req msg.command
              then record rt { serial = serial; ready = rt.ready ++ lines }
              else rt,
          dests_of req,
        )
