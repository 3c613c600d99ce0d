-- ===== src/Session/Tracker/Tokens.antt =====
-- internal/session/tracker.go: the tokens that `Begin` gives to WHOX.
pub mod Routing
use go_bnc.Session.Tracker.Begin.{
  begin_targets, begin_stats, begin_topic, begin_modes, begin_names, begin_other,
}
use go_bnc.Session.Tracker.Codes.{is, is_stats_numeric}
use go_bnc.Session.Tracker.Begin.{begin_fresh, begin, begin_targets}
use go_bnc.Session.Tracker.Route.Targets.{single_stats_pending}
use go_bnc.Session.Tracker.Lifecycle.{expire, set_whox_client_fix, take_ready, set_ircd}
use go_bnc.Irc.CaseMap.{CaseMapping}
use go_bnc.Session.Tracker.{RequestTracker, Pending, Message, RouteDest, new_request_tracker}
use go_bnc.Session.Tracker.Begin.Request.{
  begin_whox, BeginResult, decimal, join_whox, whox_begun, BeginOpts, next_token, new_request,
  begin_labeled,
}
use go_bnc.Session.Tracker.Route.Keyed.{
  or_else, route_whois, whois_at, whois_head, Routed, route_names, route_mode, route_labeled,
  route_topic, route_sticky,
}
use go_bnc.Session.Tracker.Route.Stats.{
  route_stats, route_whox, whox_end, stats_remote, stats_no_server, route_serial, stats_end,
  stats_at, route_whox_quirky, stats_between, stats_head,
}
use go_bnc.Base.{
  Bool, Bytes, List, Option, [], arith, drop, false, if◌then◌else◌, inl, inr, none, refl, some,
  true, ℕ, ◌∷◌, ◌≡◌, ◌≤◌, ◌⊎◌,
}
use go_bnc.Session.Tracker.Lifecycle
use go_bnc.Session.Tracker.Runs.{
  Call, after, after_all, begins, routes, drops, takes, fixes, learns,
}
use go_bnc.Session.Tracker.Route.{route_fresh, route_all}
use go_bnc.Session.Tracker.Tokens.Routing.{route_all-token}

-- The counter is below 1000, and a token, if there is one, is a number from 1 to 999.
abbrev InRange : RequestTracker × BeginResult → Type 0
InRange (rt, result) =
    (rt.next_tok ≤ 999)
    × ((result.whox_token ≡ []) ⊎ ((n : ℕ) × (1 ≤ n) × (n ≤ 999) × (result.whox_token ≡ decimal n)))

next_token-range : (tok : ℕ) → tok ≤ 999 → (1 ≤ next_token tok) × (next_token tok ≤ 999)
unfolding next_token
next_token-range tok h = ground arith

whox_begun-InRange :
    (rt : RequestTracker) (req : Pending) (found : Option (List (Bytes × Pending)))
    → rt.next_tok ≤ 999
    → InRange (whox_begun rt req found)
unfolding whox_begun
whox_begun-InRange rt req (some m) h = (h, inl refl)
whox_begun-InRange rt req none h =
    let (low, high) = next_token-range rt.next_tok h in (high, inr (_, low, high, refl))

begin_fresh-InRange :
    (now : ℕ) (rt : RequestTracker) (o : BeginOpts)
    → rt.next_tok ≤ 999
    → InRange (begin_fresh now rt o)
unfolding begin_fresh
begin_fresh-InRange now rt o h = by_branch _ _ _ _ _ _ _
  where
    req : Pending
    req = new_request now rt o

    by_branch :
        (a b c d e f g : Bool)
        → InRange (
            if a
            then begin_labeled rt req
            else if b
            then begin_whox rt req o.who_mask
            else if c
            then begin_targets now rt o
            else if d
            then begin_stats rt o req
            else if e
            then begin_topic rt o req
            else if f
            then begin_modes rt o req
            else if g
            then begin_names rt o req
            else begin_other rt req)
    by_branch true _ _ _ _ _ _ = unfold begin_labeled in (h, inl refl)
    by_branch false true _ _ _ _ _ =
        unfold begin_whox in
        (let r : Pending = record req { target = o.who_mask } in
          whox_begun-InRange rt r (join_whox r rt.whox) h)
    by_branch false false true _ _ _ _ = unfold begin_targets in (h, inl refl)
    by_branch false false false true _ _ _ = unfold begin_stats in (h, inl refl)
    by_branch false false false false true _ _ = unfold begin_topic in (h, inl refl)
    by_branch false false false false false true _ = unfold begin_modes in (h, inl refl)
    by_branch false false false false false false true = unfold begin_names in (h, inl refl)
    by_branch false false false false false false false = unfold begin_other in (h, inl refl)

begin-InRange :
    (now : ℕ) (rt : RequestTracker) (o : BeginOpts) → rt.next_tok ≤ 999 → InRange (begin now rt o)
unfolding begin expire
begin-InRange now rt o h = begin_fresh-InRange now (expire now rt) o h

fix-token :
    (rt : RequestTracker) (token : Bytes) (inject : Bool) (client_token : Bytes)
    → (set_whox_client_fix rt token inject client_token).next_tok ≡ rt.next_tok
unfolding set_whox_client_fix
fix-token rt token inject client_token = ground arith

after-token : (rt : RequestTracker) (c : Call) → rt.next_tok ≤ 999 → (after rt c).next_tok ≤ 999
unfolding after
after-token rt (begins now o) h = (begin-InRange now rt o h).0
after-token rt (routes now msg cm) h = omega (arith, route_all-token now rt msg cm)
after-token rt (drops client) h = unfold Lifecycle.drop in h
after-token rt takes h = unfold take_ready in h
after-token rt (fixes token inject client_token) h =
    omega (arith, fix-token rt token inject client_token)
after-token rt (learns ircd) h = unfold set_ircd in h

after_all-token :
    (rt : RequestTracker) (cs : List Call) → rt.next_tok ≤ 999 → (after_all rt cs).next_tok ≤ 999
unfolding after_all
after_all-token rt [] h = h
after_all-token rt (c ∷ cs) h = after_all-token (after rt c) cs (after-token rt c h)

-- On every tracker that can be reached, `Begin` gives either no WHOX token or the decimal text of a
-- number from 1 to 999, as ircu wants it, and the counter stays below 1000.
pub begin-token :
    (cs : List Call) (now : ℕ) (o : BeginOpts)
    → let (rt, result) = begin now (after_all new_request_tracker cs) o in
      (rt.next_tok ≤ 999)
      × ((result.whox_token ≡ [])
          ⊎ ((n : ℕ) × (1 ≤ n) × (n ≤ 999) × (result.whox_token ≡ decimal n)))
begin-token cs now o = begin-InRange now _ o (after_all-token new_request_tracker cs (omega arith))
