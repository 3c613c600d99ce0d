-- ===== src/Session/Tracker/Tokens/Routing.antt =====
-- internal/session/tracker.go: routing a reply leaves the counter of WHOX tokens as it is.
use go_bnc.Session.Tracker.Codes.{is, is_stats_numeric}
use go_bnc.Session.Tracker.Route.Targets.{single_stats_pending}
use go_bnc.Session.Tracker.Lifecycle.{expire}
use go_bnc.Irc.CaseMap.{CaseMapping}
use go_bnc.Session.Tracker.{RequestTracker, Pending, Message, RouteDest}
use go_bnc.Session.Tracker.Route.Keyed.{
  or_else, route_whois, Routed, route_names, route_mode, route_labeled, route_topic, route_sticky,
}
use go_bnc.Session.Tracker.Route.Stats.{
  route_stats, route_whox, whox_end, stats_remote, stats_no_server, route_serial, stats_end,
  stats_at, route_whox_quirky, stats_between, stats_head,
}
use go_bnc.Base.{
  Bool, Bool-cases, Bytes, List, Option, [], arith, false, get_elem?, if◌then◌else◌, inl, inr, none,
  not, refl, some, text_eq, true, ℕ, ◌&&◌, ◌||◌, ◌∷◌, ◌≡◌,
}
use go_bnc.Session.Tracker.Route.{route_fresh, route_all}

-- The step of the routing leaves the counter as it is.
abbrev KeepsToken : RequestTracker → Routed → Type 0
KeepsToken rt none = Unit
KeepsToken rt (some (rt', dests)) = rt'.next_tok ≡ rt.next_tok

or_else-KeepsToken :
    (rt : RequestTracker) (r next : Routed)
    → KeepsToken rt r
    → KeepsToken rt next
    → KeepsToken rt (or_else r next)
or_else-KeepsToken rt none next h k = k
or_else-KeepsToken rt (some (rt', dests)) next h k = h

route_labeled-KeepsToken :
    (now : ℕ) (rt : RequestTracker) (msg : Message) (cm : CaseMapping)
    → KeepsToken rt (route_labeled now rt msg cm)
unfolding route_labeled
route_labeled-KeepsToken now rt msg cm = ground arith

route_sticky-KeepsToken :
    (rt : RequestTracker) (msg : Message) (cm : CaseMapping)
    → KeepsToken rt (route_sticky rt msg cm)
unfolding route_sticky
route_sticky-KeepsToken rt msg cm = ground arith

route_mode-KeepsToken :
    (now : ℕ) (rt : RequestTracker) (msg : Message) (cm : CaseMapping)
    → KeepsToken rt (route_mode now rt msg cm)
unfolding route_mode
route_mode-KeepsToken now rt msg cm = ground arith

route_topic-KeepsToken :
    (rt : RequestTracker) (msg : Message) (cm : CaseMapping) → KeepsToken rt (route_topic rt msg cm)
unfolding route_topic
route_topic-KeepsToken rt msg cm = ground arith

route_names-KeepsToken :
    (rt : RequestTracker) (msg : Message) (cm : CaseMapping) → KeepsToken rt (route_names rt msg cm)
unfolding route_names
route_names-KeepsToken rt msg cm = ground arith

route_whois-KeepsToken :
    (rt : RequestTracker) (msg : Message) (cm : CaseMapping) → KeepsToken rt (route_whois rt msg cm)
unfolding route_whois
route_whois-KeepsToken rt msg cm = ground arith

stats_remote-KeepsToken :
    (rt : RequestTracker) (remote : Bytes) (hs : List (Bytes × Pending))
    → KeepsToken rt (stats_remote rt remote hs)
unfolding stats_remote
stats_remote-KeepsToken rt remote [] = tt
stats_remote-KeepsToken rt remote ((letter, r) ∷ rest) =
    elim (Bool-cases (text_eq r.remote [] || not (text_eq r.remote remote))) [
      | inl skip ↦ rw (skip) (stats_remote-KeepsToken rt remote rest)
      | inr found ↦ rw (found) (unfold stats_end in refl)
    ]

if-KeepsToken :
    (rt : RequestTracker) (b : Bool) (r : Routed)
    → KeepsToken rt r
    → KeepsToken rt (if b then r else none)
if-KeepsToken rt true r h = h
if-KeepsToken rt false r h = tt

-- A step with the proof that it keeps the counter.
abbrev Step : RequestTracker → Type 0
Step rt = (r : Routed) × KeepsToken rt r

abbrev first : (rt : RequestTracker) → Step rt → Step rt → Step rt
first rt (r, h) (next, k) = (or_else r next, or_else-KeepsToken rt r next h k)

abbrev when : (rt : RequestTracker) → Bool → Step rt → Step rt
when rt b (r, h) = (if b then r else none, if-KeepsToken rt b r h)

route_stats-KeepsToken : (rt : RequestTracker) (msg : Message) → KeepsToken rt (route_stats rt msg)
unfolding route_stats stats_no_server stats_at stats_between
route_stats-KeepsToken rt msg =
    (first rt (when rt (is msg.command "402") (stats_no_server rt p, no_server p)) (
      first rt (when rt (is msg.command "219") (stats_at rt p, by_letter p)) (
        when rt (is_stats_numeric msg.command && not (is msg.command "219"))
          (stats_between rt only, between only)))).1
  where
    p : Option Bytes
    p = get_elem? msg.params 1

    only : Option Pending
    only = single_stats_pending rt.stats

    no_server : (mask : Option Bytes) → KeepsToken rt (stats_no_server rt mask)
    no_server none = tt
    no_server (some mask) = stats_remote-KeepsToken rt _ _

    by_queue : (letter : Bytes) (q : List Pending) → KeepsToken rt (stats_head rt letter q)
    by_queue letter [] = tt
    by_queue letter (r ∷ q) = unfold stats_end in refl

    by_letter : (letter : Option Bytes) → KeepsToken rt (stats_at rt letter)
    by_letter none = tt
    by_letter (some letter) = by_queue _ _

    between : (r : Option Pending) → KeepsToken rt (stats_between rt r)
    between none = tt
    between (some r) = refl

whox_end-KeepsToken :
    (rt : RequestTracker) (msg : Message) (cm : CaseMapping) (rest : Routed)
    → KeepsToken rt rest
    → KeepsToken rt (whox_end rt msg cm rest)
unfolding whox_end route_whox_quirky
whox_end-KeepsToken rt msg cm rest h = ground (arith, h)

route_whox-KeepsToken :
    (rt : RequestTracker) (msg : Message) (cm : CaseMapping) (rest : Routed)
    → KeepsToken rt rest
    → KeepsToken rt (route_whox rt msg cm rest)
unfolding route_whox
route_whox-KeepsToken rt msg cm rest h = ground (arith, whox_end-KeepsToken rt msg cm rest h)

route_serial-KeepsToken :
    (rt : RequestTracker) (msg : Message) → KeepsToken rt (route_serial rt msg)
unfolding route_serial
route_serial-KeepsToken rt msg = ground arith

route_fresh-KeepsToken :
    (now : ℕ) (rt : RequestTracker) (msg : Message) (cm : CaseMapping)
    → KeepsToken rt (route_fresh now rt msg cm)
unfolding route_fresh
route_fresh-KeepsToken now rt msg cm =
    (first rt (_, route_labeled-KeepsToken now rt msg cm)
      (first rt (_, route_sticky-KeepsToken rt msg cm)
        (first rt (_, route_mode-KeepsToken now rt msg cm)
          (first rt (_, route_topic-KeepsToken rt msg cm)
            (first rt (_, route_names-KeepsToken rt msg cm)
              (first rt (_, route_whois-KeepsToken rt msg cm)
                (first rt (_, route_stats-KeepsToken rt msg)
                  (_, route_whox-KeepsToken rt msg cm _ (route_serial-KeepsToken rt msg))))))))).1

pub route_all-token :
    (now : ℕ) (rt : RequestTracker) (msg : Message) (cm : CaseMapping)
    → (route_all now rt msg cm).0.next_tok ≡ rt.next_tok
unfolding route_all expire
route_all-token now rt msg cm =
    by_answer (route_fresh now (expire now rt) msg cm)
      (route_fresh-KeepsToken now (expire now rt) msg cm)
  where
    by_answer :
        (r : Routed)
        → KeepsToken (expire now rt) r
        → (elim r as (λ (x : Routed). RequestTracker × List RouteDest) [
          | none ↦ (expire now rt, [])
          | some answer ↦ answer
        ]).0.next_tok
          ≡ rt.next_tok
    by_answer none h = refl
    by_answer (some (rt', dests)) h = h
