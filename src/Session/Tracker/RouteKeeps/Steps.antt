-- ===== src/Session/Tracker/RouteKeeps/Steps.antt =====
-- internal/session/tracker.go: the single steps of the routing keep a tracker well-formed.
use go_bnc.Session.Tracker.Route.Keyed.{whois_head, whois_at, ends}
use go_bnc.Session.Tracker.Route.Targets.{names_numeric_target}
use go_bnc.Session.Tracker.AllInFlight.{pop_waiters-AllInFlight, AllInFlight}
use go_bnc.Session.Tracker.Route.Stats.{route_whox_quirky}
use go_bnc.Irc.CaseMap.{CaseMapping}
use go_bnc.Session.Tracker.{RequestTracker, Message, Queues, RouteDest, Pending}
use go_bnc.Session.Tracker.Invariant.{IsTracker, SameQueues, same_queues}
use go_bnc.Session.Tracker.Route.Keyed.{
  route_sticky, route_labeled, route_mode, route_topic, Routed, or_else, route_names,
  route_target_queue,
}
use go_bnc.Session.Tracker.Route.Stats.{route_serial}
use go_bnc.Base.{
  Bool, Bool-cases, Bytes, List, Option, [], arith, false, if◌then◌else◌, inl, inr, none, some,
  text_eq, true, ℕ, ◌++◌, ◌∷◌,
}

-- What a step of the routing leaves, if it is the one that answers.
abbrev pub AfterRoute : Routed → Type 0
AfterRoute none = Unit
AfterRoute (some (rt, dests)) = IsTracker rt

pub or_else-AfterRoute :
    (r next : Routed) → AfterRoute r → AfterRoute next → AfterRoute (or_else r next)
or_else-AfterRoute none next h k = k
or_else-AfterRoute (some (rt, dests)) next h k = h

abbrev pub LeavesQueues : RequestTracker → Routed → Type 0
LeavesQueues rt none = Unit
LeavesQueues rt (some (rt', dests)) = SameQueues rt rt'

pub leaves : (rt : RequestTracker) (r : Routed) → LeavesQueues rt r → IsTracker rt → AfterRoute r
leaves rt none h v = tt
leaves rt (some (rt', dests)) h v = same_queues rt rt' h v

pub route_sticky-leaves :
    (rt : RequestTracker) (msg : Message) (cm : CaseMapping)
    → LeavesQueues rt (route_sticky rt msg cm)
unfolding route_sticky
route_sticky-leaves rt msg cm = ground arith

pub route_labeled-leaves :
    (now : ℕ) (rt : RequestTracker) (msg : Message) (cm : CaseMapping)
    → LeavesQueues rt (route_labeled now rt msg cm)
unfolding route_labeled
route_labeled-leaves now rt msg cm = ground arith

pub route_mode-leaves :
    (now : ℕ) (rt : RequestTracker) (msg : Message) (cm : CaseMapping)
    → LeavesQueues rt (route_mode now rt msg cm)
unfolding route_mode
route_mode-leaves now rt msg cm = ground arith

pub route_topic-leaves :
    (rt : RequestTracker) (msg : Message) (cm : CaseMapping)
    → LeavesQueues rt (route_topic rt msg cm)
unfolding route_topic
route_topic-leaves rt msg cm = ground arith

pub route_serial-leaves :
    (rt : RequestTracker) (msg : Message) → LeavesQueues rt (route_serial rt msg)
unfolding route_serial
route_serial-leaves rt msg = ground arith

pub whox_quirky-leaves :
    (rt : RequestTracker) (msg : Message) → LeavesQueues rt (route_whox_quirky rt msg)
unfolding route_whox_quirky
whox_quirky-leaves rt msg = ground arith

abbrev pub AfterQueue : Option (Queues × List Message × List RouteDest) → Type 0
AfterQueue none = Unit
AfterQueue (some (queues, lines, dests)) = AllInFlight queues

pub route_target_queue-AfterQueue :
    (queues : Queues) (target cmd : Bytes)
    → AllInFlight queues
    → AfterQueue (route_target_queue queues target cmd)
unfolding route_target_queue
route_target_queue-AfterQueue queues target cmd v =
    ground (arith, pop_waiters-AllInFlight queues target v)

pub route_names-AfterRoute :
    (rt : RequestTracker) (msg : Message) (cm : CaseMapping)
    → IsTracker rt
    → AfterRoute (route_names rt msg cm)
unfolding route_names
route_names-AfterRoute rt msg cm v = by_target (names_numeric_target msg cm)
  where
    by_target :
        (target : Bytes)
        → AfterRoute (
            if text_eq target []
            then none
            else elim (route_target_queue rt.names target msg.command)
                as (λ (x : Option (Queues × List Message × List RouteDest)). Routed) [
                  | none ↦ none
                  | some (q, lines, dests) ↦
                      some (record rt { names = q; ready = rt.ready ++ lines }, dests)
                ])
    by_target target =
        ground (arith, route_target_queue-AfterQueue rt.names target msg.command v.names_in_flight)

pub whois_head-AfterRoute :
    (rt : RequestTracker) (msg : Message) (nick : Bytes) (q : List Pending)
    → IsTracker rt
    → AfterRoute (whois_head rt msg nick q)
unfolding whois_head
whois_head-AfterRoute rt msg nick [] v = tt
whois_head-AfterRoute rt msg nick (req ∷ q) v = elim (Bool-cases (ends req msg.command)) [
  | inl over ↦ rw (over) (record {
    whois_in_flight = pop_waiters-AllInFlight rt.whois nick v.whois_in_flight;
    stats_in_flight = v.stats_in_flight;
    names_in_flight = v.names_in_flight;
  })
  | inr more ↦ rw (more) v
]

pub whois_at-AfterRoute :
    (rt : RequestTracker) (msg : Message) (cm : CaseMapping) (p : Option Bytes)
    → IsTracker rt
    → AfterRoute (whois_at rt msg cm p)
unfolding whois_at
whois_at-AfterRoute rt msg cm none v = tt
whois_at-AfterRoute rt msg cm (some p) v = whois_head-AfterRoute rt msg _ _ v

pub if-AfterRoute : (b : Bool) (r : Routed) → AfterRoute r → AfterRoute (if b then r else none)
if-AfterRoute true r h = h
if-AfterRoute false r h = tt
