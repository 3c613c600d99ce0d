-- ===== src/Session/Tracker/Runs.antt =====
-- internal/session/tracker.go: every state that a tracker can reach.
use go_bnc.Session.Tracker.Begin.{begin}
use go_bnc.Irc.CaseMap.{CaseMapping}
use go_bnc.Session.Tracker.Begin.Request.{BeginOpts}
use go_bnc.Session.Tracker.{RequestTracker, new_request_tracker, Message}
use go_bnc.Base.{Bool, Bytes, List, [], arith, refl, ℕ, ◌∷◌}
use go_bnc.Session.Tracker.Lifecycle
use go_bnc.Session.Tracker.Invariant.{
  IsTracker, same_queues, begin-IsTracker, drop-IsTracker, SameQueues,
}
use go_bnc.Session.Tracker.RouteKeeps.{route_all-IsTracker}
use go_bnc.Session.Tracker.Route.{route_all}
use go_bnc.Session.Tracker.Lifecycle.{take_ready, set_ircd, set_whox_client_fix}

-- A call of one of the tracker's methods that change it, with the time where it reads the clock.
pub data Call : Type 0 where
  begins : ℕ → BeginOpts → Call
  routes : ℕ → Message → CaseMapping → Call
  drops : Bytes → Call
  takes : Call
  fixes : Bytes → Bool → Bytes → Call
  learns : Bytes → Call

-- What a call leaves.
unfoldable pub after : RequestTracker → Call → RequestTracker
after rt (begins now o) = (begin now rt o).0
after rt (routes now msg cm) = (route_all now rt msg cm).0
after rt (drops client) = Lifecycle.drop client rt
after rt takes = (take_ready rt).0
after rt (fixes token inject client_token) = set_whox_client_fix rt token inject client_token
after rt (learns ircd) = set_ircd rt ircd

-- What a sequence of calls leaves.
unfoldable pub after_all : RequestTracker → List Call → RequestTracker
after_all rt [] = rt
after_all rt (c ∷ cs) = after_all (after rt c) cs

fix-same :
    (rt : RequestTracker) (token : Bytes) (inject : Bool) (client_token : Bytes)
    → SameQueues rt (set_whox_client_fix rt token inject client_token)
unfolding set_whox_client_fix
fix-same rt token inject client_token = ground arith

after-IsTracker : (rt : RequestTracker) (c : Call) → IsTracker rt → IsTracker (after rt c)
unfolding after
after-IsTracker rt (begins now o) v = begin-IsTracker now rt o v
after-IsTracker rt (routes now msg cm) v = route_all-IsTracker now rt msg cm v
after-IsTracker rt (drops client) v = drop-IsTracker client rt v
after-IsTracker rt takes v = same_queues rt _ (unfold take_ready in (refl, refl, refl)) v
after-IsTracker rt (fixes token inject client_token) v =
    same_queues rt _ (fix-same rt token inject client_token) v
after-IsTracker rt (learns ircd) v = same_queues rt _ (unfold set_ircd in (refl, refl, refl)) v

run-IsTracker : (rt : RequestTracker) (cs : List Call) → IsTracker rt → IsTracker (after_all rt cs)
unfolding after_all
run-IsTracker rt [] v = v
run-IsTracker rt (c ∷ cs) v = run-IsTracker (after rt c) cs (after-IsTracker rt c v)

-- After any sequence of calls on a new tracker, under every WHOIS nick, every STATS token and every
-- NAMES channel the first request is not marked as held for later writing, and every other one is.
pub after_all-IsTracker : (cs : List Call) → IsTracker (after_all new_request_tracker cs)
after_all-IsTracker cs =
    run-IsTracker new_request_tracker cs
      (record { whois_in_flight = tt; stats_in_flight = tt; names_in_flight = tt })
