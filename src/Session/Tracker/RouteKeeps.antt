-- ===== src/Session/Tracker/RouteKeeps.antt =====
-- internal/session/tracker.go: routing a reply keeps a tracker well-formed.
pub mod Steps
use go_bnc.Session.Tracker.Lifecycle.{expire}
use go_bnc.Session.Tracker.Codes.{is, is_stats_numeric}
use go_bnc.Session.Tracker.Route.Stats.{whox_end, end_whox}
use go_bnc.Session.Tracker.Route.{route_fresh, route_all}
use go_bnc.Session.Tracker.Invariant.{expire-IsTracker}
use go_bnc.Session.Tracker.Route.Stats.{
  stats_end, stats_remote, stats_head, stats_at, stats_between, stats_no_server,
}
use go_bnc.Session.Tracker.Route.Keyed.{whois_head, whois_at, ends}
use go_bnc.Session.Tracker.Route.Targets.{
  names_numeric_target, is_whois_reply, single_stats_pending, whox_by_mask,
}
use go_bnc.Session.Tracker.AllInFlight.{pop_waiters-AllInFlight, AllInFlight}
use go_bnc.Session.Tracker.Route.Stats.{route_whox_quirky, route_stats, route_whox}
use go_bnc.Irc.CaseMap.{CaseMapping, fold}
use go_bnc.Session.Tracker.{RequestTracker, Message, Queues, RouteDest, Pending}
use go_bnc.Session.Tracker.Invariant.{IsTracker, SameQueues, same_queues}
use go_bnc.Session.Tracker.Route.Keyed.{
  route_sticky, route_labeled, route_mode, route_topic, Routed, or_else, route_names, route_whois,
  route_target_queue,
}
use go_bnc.Session.Tracker.Route.Stats.{route_serial}
use go_bnc.Base.{
  Bool, Bool-cases, Bytes, List, Option, [], arith, get_elem?, get_or, if◌then◌else◌, inl, inr,
  none, not, refl, some, text_eq, ℕ, ◌&&◌, ◌||◌, ◌∷◌,
}
use go_bnc.Session.Tracker.RouteKeeps.Steps.{
  AfterRoute, or_else-AfterRoute, LeavesQueues, leaves, route_sticky-leaves, route_labeled-leaves,
  route_mode-leaves, route_topic-leaves, route_serial-leaves, whox_quirky-leaves,
  route_names-AfterRoute, whois_at-AfterRoute, if-AfterRoute,
}

-- A step with what it leaves.
abbrev Step : Type 0
Step = (r : Routed) × AfterRoute r

abbrev first : Step → Step → Step
first (r, h) (next, k) = (or_else r next, or_else-AfterRoute r next h k)

abbrev when : Bool → Step → Step
when b (r, h) = (if b then r else none, if-AfterRoute b r h)

route_whois-AfterRoute :
    (rt : RequestTracker) (msg : Message) (cm : CaseMapping)
    → IsTracker rt
    → AfterRoute (route_whois rt msg cm)
unfolding route_whois
route_whois-AfterRoute rt msg cm v =
    if-AfterRoute (is_whois_reply msg.command rt.ircd) (whois_at rt msg cm (get_elem? msg.params 1))
      (whois_at-AfterRoute rt msg cm _ v)

stats_end-AfterRoute :
    (rt : RequestTracker) (letter : Bytes) (req : Pending)
    → IsTracker rt
    → AfterRoute (stats_end rt letter req)
unfolding stats_end
stats_end-AfterRoute rt letter req v = record {
  whois_in_flight = v.whois_in_flight;
  stats_in_flight = pop_waiters-AllInFlight rt.stats letter v.stats_in_flight;
  names_in_flight = v.names_in_flight;
}

stats_remote-AfterRoute :
    (rt : RequestTracker) (remote : Bytes) (hs : List (Bytes × Pending))
    → IsTracker rt
    → AfterRoute (stats_remote rt remote hs)
unfolding stats_remote
stats_remote-AfterRoute rt remote [] v = tt
stats_remote-AfterRoute rt remote ((letter, r) ∷ rest) v =
    elim (Bool-cases (text_eq r.remote [] || not (text_eq r.remote remote))) [
      | inl skip ↦ rw (skip) (stats_remote-AfterRoute rt remote rest v)
      | inr found ↦ rw (found) (stats_end-AfterRoute rt letter r v)
    ]

stats_head-AfterRoute :
    (rt : RequestTracker) (letter : Bytes) (q : List Pending)
    → IsTracker rt
    → AfterRoute (stats_head rt letter q)
unfolding stats_head
stats_head-AfterRoute rt letter [] v = tt
stats_head-AfterRoute rt letter (req ∷ q) v = stats_end-AfterRoute rt letter req v

route_stats-AfterRoute :
    (rt : RequestTracker) (msg : Message) → IsTracker rt → AfterRoute (route_stats rt msg)
unfolding route_stats stats_no_server stats_at stats_between
route_stats-AfterRoute rt msg v =
    (first (when (is msg.command "402") (stats_no_server rt p, no_server p)) (
      first (when (is msg.command "219") (stats_at rt p, by_letter p)) (
        when (is_stats_numeric msg.command && not (is msg.command "219"))
          (stats_between rt only, between only)))).1
  where
    p : Option Bytes
    p = get_elem? msg.params 1

    only : Option Pending
    only = single_stats_pending rt.stats

    no_server : (p : Option Bytes) → AfterRoute (stats_no_server rt p)
    no_server none = tt
    no_server (some p) = stats_remote-AfterRoute rt _ _ v

    by_letter : (p : Option Bytes) → AfterRoute (stats_at rt p)
    by_letter none = tt
    by_letter (some p) = stats_head-AfterRoute rt _ _ v

    between : (r : Option Pending) → AfterRoute (stats_between rt r)
    between none = tt
    between (some r) = v

end_whox-leaves :
    (rt : RequestTracker) (found : Option (Bytes × Pending)) → LeavesQueues rt (end_whox rt found)
end_whox-leaves rt none = tt
end_whox-leaves rt (some (tok, req)) = (refl, refl, refl)

whox_end-AfterRoute :
    (rt : RequestTracker) (msg : Message) (cm : CaseMapping) (rest : Routed)
    → IsTracker rt
    → AfterRoute rest
    → AfterRoute (whox_end rt msg cm rest)
unfolding whox_end
whox_end-AfterRoute rt msg cm rest v h =
    (first (when (is msg.command "315") (by_mask, leaves rt by_mask (end_whox-leaves rt _) v))
      (first (route_whox_quirky rt msg, leaves rt _ (whox_quirky-leaves rt msg) v) (rest, h))).1
  where
    by_mask : Routed
    by_mask = end_whox rt (whox_by_mask rt.whox (fold cm (get_or msg.params 1 [])))

route_whox-AfterRoute :
    (rt : RequestTracker) (msg : Message) (cm : CaseMapping) (rest : Routed)
    → IsTracker rt
    → AfterRoute rest
    → AfterRoute (route_whox rt msg cm rest)
unfolding route_whox
route_whox-AfterRoute rt msg cm rest v h = ground (arith, whox_end-AfterRoute rt msg cm rest v h, v)

route_fresh-AfterRoute :
    (now : ℕ) (rt : RequestTracker) (msg : Message) (cm : CaseMapping)
    → IsTracker rt
    → AfterRoute (route_fresh now rt msg cm)
unfolding route_fresh
route_fresh-AfterRoute now rt msg cm v =
    (first (still _ (route_labeled-leaves now rt msg cm)) (
      first (still _ (route_sticky-leaves rt msg cm)) (
        first (still _ (route_mode-leaves now rt msg cm)) (
          first (still _ (route_topic-leaves rt msg cm)) (
            first (_, route_names-AfterRoute rt msg cm v)
              (first (_, route_whois-AfterRoute rt msg cm v)
                (first (_, route_stats-AfterRoute rt msg v)
                  (
                    _,
                    route_whox-AfterRoute rt msg cm _ v
                        (leaves rt _ (route_serial-leaves rt msg) v),
                  )))))))).1
  where
    still : (r : Routed) → LeavesQueues rt r → Step
    still r h = (r, leaves rt r h v)

-- A line from the uplink keeps a tracker well-formed, whichever request it answers or ends.
pub route_all-IsTracker :
    (now : ℕ) (rt : RequestTracker) (msg : Message) (cm : CaseMapping)
    → IsTracker rt
    → IsTracker (route_all now rt msg cm).0
unfolding route_all
route_all-IsTracker now rt msg cm v =
    by_answer (route_fresh now (expire now rt) msg cm)
      (route_fresh-AfterRoute now (expire now rt) msg cm (expire-IsTracker now rt v))
  where
    by_answer :
        (r : Routed)
        → AfterRoute r
        → IsTracker
            (elim r as (λ (x : Routed). RequestTracker × List RouteDest) [
              | none ↦ (expire now rt, [])
              | some answer ↦ answer
            ]).0
    by_answer none h = expire-IsTracker now rt v
    by_answer (some (rt', dests)) h = h
