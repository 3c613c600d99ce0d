-- ===== src/Session/Tracker/Lifecycle.antt =====
-- internal/session/tracker.go: requests that expire, and clients that go away.
use go_bnc.Session.Tracker.Codes.{serial_kind_order}
use go_bnc.Base.{
  Bool, Bytes, List, Option, [], byte_key, if◌then◌else◌, insert, lookup, ltb, none, not, some,
  text_eq, text_key, ℕ, ◌++◌, ◌-◌, ◌∷◌,
}
use go_bnc.Session.Tracker.{
  Pending, Waiter, StickyRoute, RequestTracker, request_ttl, drop_client, Message, fix_whox_rewrite,
}
use go_bnc.Session.Tracker.Queues.{each_queue, expire_queue, drop_queue, drop_serial_queue}

-- `now.Sub(created) > requestTTL`
unfoldable pub is_stale : ℕ → ℕ → Bool
is_stale now created = ltb request_ttl (now - created)

-- The loop of `expireLocked` over a map of single requests.
unfoldable pub expire_map : ℕ → List (Bytes × Pending) → List (Bytes × Pending)
unfolding is_stale
expire_map now [] = []
expire_map now ((k, r) ∷ m) =
    if is_stale now r.created then expire_map now m else (k, r) ∷ expire_map now m

unfoldable pub expire_sticky : ℕ → List (Bytes × StickyRoute) → List (Bytes × StickyRoute)
unfolding is_stale
expire_sticky now [] = []
expire_sticky now ((k, s) ∷ m) =
    if is_stale now s.created then expire_sticky now m else (k, s) ∷ expire_sticky now m

-- `expireLocked`
unfoldable pub expire : ℕ → RequestTracker → RequestTracker
unfolding expire_map expire_sticky is_stale
expire now rt =
    let sweep = expire_queue (λ (r : Pending). is_stale now r.created) in
    let (whois, a) = each_queue sweep rt.whois in
    let (stats, b) = each_queue sweep rt.stats in
    let (mode, c) = each_queue sweep rt.mode in
    let (topic, d) = each_queue sweep rt.topic in
    let (names, e) = each_queue sweep rt.names in
    let (serial, f) = each_queue sweep rt.serial in
    record rt {
      labeled = expire_map now rt.labeled;
      whox = expire_map now rt.whox;
      whois = whois;
      stats = stats;
      mode = mode;
      topic = topic;
      names = names;
      serial = serial;
      ready = rt.ready ++ (a ++ (b ++ (c ++ (d ++ (e ++ f)))));
      sticky = expire_sticky now rt.sticky;
    }

-- The loop of `DropClient` over a map of single requests.
unfoldable pub drop_map : Bytes → List (Bytes × Pending) → List (Bytes × Pending)
drop_map client [] = []
drop_map client ((k, r) ∷ m) =
    let rest = drop_map client m in
    elim (drop_client r client) [ none ↦ rest | some r' ↦ (k, r') ∷ rest ]

-- The destinations of a sticky route that are kept.
unfoldable pub drop_dests : Bytes → List Waiter → List Waiter
drop_dests client [] = []
drop_dests client (d ∷ ds) =
    if not (text_eq d.client client) then d ∷ drop_dests client ds else drop_dests client ds

unfoldable pub drop_sticky : Bytes → List (Bytes × StickyRoute) → List (Bytes × StickyRoute)
unfolding drop_dests
drop_sticky client [] = []
drop_sticky client ((k, s) ∷ m) =
    let rest = drop_sticky client m in
    elim (drop_dests client s.dests) [
      | [] ↦ rest
      | d ∷ ds ↦ (k, record s { dests = d ∷ ds }) ∷ rest
    ]

-- `DropClient`
unfoldable pub drop : Bytes → RequestTracker → RequestTracker
unfolding drop_map drop_sticky
drop client rt =
    let (whois, a) = each_queue (drop_queue client) rt.whois in
    let (stats, b) = each_queue (drop_queue client) rt.stats in
    let (mode, c) = each_queue (drop_queue client) rt.mode in
    let (topic, d) = each_queue (drop_queue client) rt.topic in
    let (names, e) = each_queue (drop_queue client) rt.names in
    let (serial, f) = each_queue (drop_serial_queue client) rt.serial in
    record rt {
      labeled = drop_map client rt.labeled;
      whox = drop_map client rt.whox;
      whois = whois;
      stats = stats;
      mode = mode;
      topic = topic;
      names = names;
      serial = serial;
      ready = rt.ready ++ (a ++ (b ++ (c ++ (d ++ (e ++ f)))));
      sticky = drop_sticky client rt.sticky;
    }

-- `TakeReady`
unfoldable pub take_ready : RequestTracker → RequestTracker × List Message
take_ready rt = (record rt { ready = [] }, rt.ready)

-- `SetIRCd`
unfoldable pub set_ircd : RequestTracker → Bytes → RequestTracker
set_ircd rt ircd = record rt { ircd = ircd }

-- The loop of `SetWHOXClientFix` over the requests that have joined.
unfoldable pub fix_all : Bool → List Waiter → List Waiter
unfolding fix_whox_rewrite
fix_all inject [] = []
fix_all inject (w ∷ ws) = fix_whox_rewrite w inject ∷ fix_all inject ws

-- `SetWHOXClientFix`
unfoldable pub set_whox_client_fix : RequestTracker → Bytes → Bool → Bytes → RequestTracker
unfolding fix_all
set_whox_client_fix rt token inject client_token = elim (lookup token rt.whox) [
  | none ↦ rt
  | some req ↦ record rt {
    whox =
        insert token
          (record req {
            strip_token = inject;
            client_token = if not inject then client_token else req.client_token;
            extra = fix_all inject req.extra;
          })
          rt.whox;
  }
]

-- `ActiveClient`
unfoldable pub active_client : RequestTracker → Option Bytes
active_client rt = first_of serial_kind_order
  where
    first_of : List Bytes → Option Bytes
    first_of [] = none
    first_of (kind ∷ kinds) =
        let rest = first_of kinds in
        elim (lookup kind rt.serial) [ none ↦ rest | some [] ↦ rest | some (r ∷ q) ↦ some r.client ]
