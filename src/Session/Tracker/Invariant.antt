-- ===== src/Session/Tracker/Invariant.antt =====
-- internal/session/tracker.go: what every operation keeps true of a tracker.
use go_bnc.Session.Tracker.Begin.Request.{new_request}
use go_bnc.Session.Tracker.Begin.{
  begin_targets, begin_stats, begin_topic, begin_modes, begin_names, begin_other,
}
use go_bnc.Session.Tracker.Begin.Request.{BeginOpts, BeginResult, begin_whox, begin_labeled}
use go_bnc.Session.Tracker.{Pending, RequestTracker, Queues}
use go_bnc.Session.Tracker.Begin.{begin_fresh, begin}
use go_bnc.Session.Tracker.Lifecycle.{expire, is_stale}
use go_bnc.Base.{Bool, Bytes, arith, false, if◌then◌else◌, refl, subst, sym, true, ℕ, ◌≡◌}
use go_bnc.Session.Tracker.Lifecycle
use go_bnc.Session.Tracker.Queues.{each_queue, expire_queue}
use go_bnc.Session.Tracker.InFlight.{drop_queue-OneInFlight, expire_queue-OneInFlight}
use go_bnc.Session.Tracker.AllInFlight.{
  AllInFlight, each_queue-AllInFlight, begin_keyed-AllInFlight, begin_whois-AllInFlight,
}

-- This holds of the maps for WHOIS, STATS and NAMES.
pub record IsTracker (rt : RequestTracker) : Type 0 where
  pub whois_in_flight : AllInFlight rt.whois
  pub stats_in_flight : AllInFlight rt.stats
  pub names_in_flight : AllInFlight rt.names

-- Forgetting old requests keeps a tracker well-formed.
pub expire-IsTracker : (now : ℕ) (rt : RequestTracker) → IsTracker rt → IsTracker (expire now rt)
unfolding expire
expire-IsTracker now rt v = record {
  whois_in_flight = swept _ v.whois_in_flight;
  stats_in_flight = swept _ v.stats_in_flight;
  names_in_flight = swept _ v.names_in_flight;
}
  where
    swept :
        (queues : Queues)
        → AllInFlight queues
        → AllInFlight (each_queue (expire_queue (λ (r : Pending). is_stale now r.created)) queues).0
    swept queues h =
        each_queue-AllInFlight _ queues (λ q one. (expire_queue-OneInFlight _ q one).0) h

-- A client that goes away leaves a well-formed tracker.
pub drop-IsTracker :
    (client : Bytes) (rt : RequestTracker) → IsTracker rt → IsTracker (Lifecycle.drop client rt)
unfolding Lifecycle.drop
drop-IsTracker client rt v = record {
  whois_in_flight =
      each_queue-AllInFlight _ _ (λ q one. (drop_queue-OneInFlight client q one).0)
        v.whois_in_flight;
  stats_in_flight =
      each_queue-AllInFlight _ _ (λ q one. (drop_queue-OneInFlight client q one).0)
        v.stats_in_flight;
  names_in_flight =
      each_queue-AllInFlight _ _ (λ q one. (drop_queue-OneInFlight client q one).0)
        v.names_in_flight;
}

abbrev AfterBegin : RequestTracker × BeginResult → Type 0
AfterBegin (rt, result) = IsTracker rt

-- The operation leaves the three maps as they are.
abbrev pub SameQueues : RequestTracker → RequestTracker → Type 0
SameQueues rt rt' = (rt'.whois ≡ rt.whois) × (rt'.stats ≡ rt.stats) × (rt'.names ≡ rt.names)

pub same_queues : (rt rt' : RequestTracker) → SameQueues rt rt' → IsTracker rt → IsTracker rt'
same_queues rt rt' (at_whois, at_stats, at_names) v = record {
  whois_in_flight = subst AllInFlight (sym at_whois) v.whois_in_flight;
  stats_in_flight = subst AllInFlight (sym at_stats) v.stats_in_flight;
  names_in_flight = subst AllInFlight (sym at_names) v.names_in_flight;
}

begin_whox-same :
    (rt : RequestTracker) (req : Pending) (mask : Bytes) → SameQueues rt (begin_whox rt req mask).0
unfolding begin_whox
begin_whox-same rt req mask = ground arith

begin_fresh-IsTracker :
    (now : ℕ) (rt : RequestTracker) (o : BeginOpts)
    → IsTracker rt
    → IsTracker (begin_fresh now rt o).0
unfolding begin_fresh new_request
begin_fresh-IsTracker now rt o v = by_branch _ _ _ _ _ _ _
  where
    req : Pending
    req = new_request now rt o

    same : (rt' : RequestTracker) → SameQueues rt rt' → IsTracker rt'
    same rt' h = same_queues rt rt' h v

    by_branch :
        (a b c d e f g : Bool)
        → AfterBegin (
            if a
            then begin_labeled rt req
            else if b
            then begin_whox rt req o.who_mask
            else if c
            then begin_targets now rt o
            else if d
            then begin_stats rt o req
            else if e
            then begin_topic rt o req
            else if f
            then begin_modes rt o req
            else if g
            then begin_names rt o req
            else begin_other rt req)
    by_branch true _ _ _ _ _ _ = same _ (unfold begin_labeled in (refl, refl, refl))
    by_branch false true _ _ _ _ _ = same _ (begin_whox-same rt req o.who_mask)
    by_branch false false true _ _ _ _ =
        unfold begin_targets in
        record {
          whois_in_flight =
              begin_whois-AllInFlight now rt o o.whois_targets rt.whois v.whois_in_flight;
          stats_in_flight = v.stats_in_flight;
          names_in_flight = v.names_in_flight;
        }
    by_branch false false false true _ _ _ =
        unfold begin_stats in
        record {
          whois_in_flight = v.whois_in_flight;
          stats_in_flight =
              begin_keyed-AllInFlight rt.stats o.stats_letter _ refl v.stats_in_flight;
          names_in_flight = v.names_in_flight;
        }
    by_branch false false false false true _ _ = same _ (unfold begin_topic in (refl, refl, refl))
    by_branch false false false false false true _ =
        same _ (unfold begin_modes in (refl, refl, refl))
    by_branch false false false false false false true =
        unfold begin_names in
        record {
          whois_in_flight = v.whois_in_flight;
          stats_in_flight = v.stats_in_flight;
          names_in_flight =
              begin_keyed-AllInFlight rt.names o.enquiry_target req refl v.names_in_flight;
        }
    by_branch false false false false false false false =
        same _ (unfold begin_other in (refl, refl, refl))

-- Registering a request keeps a tracker well-formed, whichever branch it takes.
pub begin-IsTracker :
    (now : ℕ) (rt : RequestTracker) (o : BeginOpts) → IsTracker rt → IsTracker (begin now rt o).0
unfolding begin
begin-IsTracker now rt o v = begin_fresh-IsTracker now (expire now rt) o (expire-IsTracker now rt v)
