-- ===== src/Session/Tracker/Route.antt =====
-- internal/session/tracker.go: `routeLocked`, which finds the clients that a reply is for.
pub mod Targets
pub mod Keyed
pub mod Stats
use go_bnc.Session.Tracker.Route.Stats.{route_stats, route_whox, route_serial}
use go_bnc.Session.Tracker.Route.Keyed.{
  route_labeled, route_sticky, route_mode, route_topic, route_names, route_whois, Routed, or_else,
}
use go_bnc.Session.Tracker.Begin.Request.{new_request, BeginOpts}
use go_bnc.Session.Tracker.Lifecycle.{expire}
use go_bnc.Session.Tracker.Codes.{
  is, is_mode_enquiry_error, one_of, serial_kind_order, is_stats_numeric,
}
use go_bnc.Session.Tracker.Queues.{pop_waiters, queue_at}
use go_bnc.Session.Tracker.Route.Targets.{
  is_whois_reply, mode_enquiry_numeric_target, mode_key_target, names_numeric_target,
  topic_enquiry_numeric_target, mode_numeric_letter, find_mode_waiters, serial_head_for, oldest,
  heads, whox_by_mask, fold_server, single_stats_pending,
}
use go_bnc.Session.Tracker.{
  RequestTracker, Pending, dests_of, Message, Queues, RouteDest, StickyRoute,
}
use go_bnc.Irc.CaseMap.{CaseMapping, fold}
use go_bnc.Base.{List, [], none, some, ℕ}

-- `routeLocked` behind the expiry.
unfoldable pub route_fresh : ℕ → RequestTracker → Message → CaseMapping → Routed
unfolding route_labeled route_sticky route_mode route_topic route_names route_whois route_stats
    route_whox route_serial
route_fresh now rt msg cm = or_else (route_labeled now rt msg cm) (
    or_else (route_sticky rt msg cm) (
      or_else (route_mode now rt msg cm) (
        or_else (route_topic rt msg cm) (
          or_else (route_names rt msg cm) (
            or_else (route_whois rt msg cm)
              (or_else (route_stats rt msg) (route_whox rt msg cm (route_serial rt msg))))))))

-- `RouteAll`: the tracker afterwards, and the clients; no client is a broadcast.
unfoldable pub route_all :
    ℕ → RequestTracker → Message → CaseMapping → RequestTracker × List RouteDest
unfolding route_fresh
route_all now rt msg cm =
    let fresh = expire now rt in
    elim (route_fresh now fresh msg cm) [ none ↦ (fresh, []) | some r ↦ r ]
