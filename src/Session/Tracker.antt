-- ===== src/Session/Tracker.antt =====
-- internal/session/tracker.go: requests that wait for replies from the uplink. A time is a number
-- of nanoseconds. A Go map is an association list, and a loop over a map goes through it in the
-- list's order. A request is owned by the one map that holds it, so a change through a pointer is
-- a change in that map.
pub mod Codes
pub mod Requests
pub mod Queues
pub mod InFlight
pub mod Begin
pub mod Lifecycle
pub mod Route
pub mod Enquiry
pub mod AllInFlight
pub mod Invariant
pub mod RouteKeeps
pub mod Runs
pub mod Drain
pub mod Tokens
use go_bnc.Base.{
  Bool, Bytes, List, Option, [], false, if◌then◌else◌, none, not, some, text_eq, ℕ, ◌++◌, ◌||◌, ◌∷◌,
}
use go_bnc.Irc.Message.{Message}

-- `pendingRequest`, as far as a coalesced request is read.
pub record Waiter : Type 0 where
  pub client : Bytes
  pub client_label : Bytes
  pub strip_token : Bool
  pub client_token : Bytes

-- `pendingRequest`; the head waiter's fields first.
pub record Pending : Type 0 where
  pub client : Bytes
  pub client_label : Bytes
  pub strip_token : Bool
  pub client_token : Bytes
  pub command : Bytes
  pub label : Bytes
  pub target : Bytes
  pub whox_token : Bytes
  pub end_codes : List Bytes
  pub reply_codes : List Bytes
  pub created : ℕ
  pub outbound : Message
  pub hold_write : Bool
  pub extra : List Waiter
  pub mode_letters : Bytes
  pub whox_flags : Bytes
  pub whox_fields : Bytes
  pub remote : Bytes

-- `RouteDest` has the fields of a waiter.
abbrev pub RouteDest : Type 0
RouteDest = Waiter

abbrev pub Queues : Type 0
Queues = List (Bytes × List Pending)

-- `stickyRoute`
pub record StickyRoute : Type 0 where
  pub dests : List RouteDest
  pub code : Bytes
  pub created : ℕ

-- `RequestTracker`, without its lock and its clock.
pub record RequestTracker : Type 0 where
  pub labeled : List (Bytes × Pending)
  pub whox : List (Bytes × Pending)
  pub whois : Queues
  pub stats : Queues
  pub mode : Queues
  pub topic : Queues
  pub names : Queues
  pub serial : Queues
  pub ready : List Message
  pub sticky : List (Bytes × StickyRoute)
  pub ircd : Bytes
  pub next_lbl : ℕ
  pub next_tok : ℕ

-- `NewRequestTracker`
abbrev pub new_request_tracker : RequestTracker
new_request_tracker = record {
  labeled = [];
  whox = [];
  whois = [];
  stats = [];
  mode = [];
  topic = [];
  names = [];
  serial = [];
  ready = [];
  sticky = [];
  ircd = [];
  next_lbl = 0;
  next_tok = 0;
}

-- `requestTTL`
abbrev pub request_ttl : ℕ
request_ttl = 600_000_000_000

-- The head of a request as a waiter.
abbrev pub head_waiter : Pending → Waiter
head_waiter r = record {
  client = r.client;
  client_label = r.client_label;
  strip_token = r.strip_token;
  client_token = r.client_token;
}

-- `destsOf`
unfoldable pub dests_of : Pending → List RouteDest
dests_of r = head_waiter r ∷ r.extra

-- `fixWHOXRewrite`
unfoldable pub fix_whox_rewrite : Waiter → Bool → Waiter
fix_whox_rewrite w head_injected =
    if not (text_eq w.client_token [])
    then record w { strip_token = false }
    else record w { strip_token = head_injected }

-- The loop of `coalesce`: the client already waits.
unfoldable pub has_client : Bytes → List Waiter → Bool
has_client client [] = false
has_client client (w ∷ ws) = text_eq w.client client || has_client client ws

-- `coalesce`
unfoldable pub coalesce : Pending → Waiter → Pending
unfolding has_client fix_whox_rewrite
coalesce r other =
    if text_eq other.client r.client
    then r
    else if has_client other.client r.extra
    then r
    else record r { extra = r.extra ++ (fix_whox_rewrite other r.strip_token ∷ []) }

-- The loop of `dropClient` over `extra`.
unfoldable pub drop_waiter : Bytes → List Waiter → List Waiter
drop_waiter client [] = []
drop_waiter client (w ∷ ws) =
    if not (text_eq w.client client) then w ∷ drop_waiter client ws else drop_waiter client ws

-- The next coalesced waiter becomes the head.
abbrev pub promote : Pending → List Waiter → Option Pending
promote r [] = none
promote r (w ∷ ws) = some (record r {
  client = w.client;
  client_label = w.client_label;
  strip_token = w.strip_token;
  client_token = w.client_token;
  extra = ws;
})

-- `dropClient`; `none` is the result true, the request is empty.
unfoldable pub drop_client : Pending → Bytes → Option Pending
unfolding drop_waiter
drop_client r client =
    if text_eq r.client client
    then promote r r.extra
    else some (record r { extra = drop_waiter client r.extra })
