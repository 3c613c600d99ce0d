-- ===== src/Tests/Requests.antt =====
-- Concrete requests and queues.
use go_bnc.Session.Tracker.Begin.{begin}
use go_bnc.Session.Tracker.Begin.Request.{decimal}
use go_bnc.Session.Tracker.Tokens.{begin-token}
use go_bnc.Irc.Message.{Message}
use go_bnc.Session.Tracker.Runs.{Call, begins, routes, drops, takes, after_all, after_all-IsTracker}
use go_bnc.Session.Tracker.Drain.{pops, lines_of, pops-lines_of}
use go_bnc.Session.Tracker.Begin.Request.{BeginOpts}
use go_bnc.Session.Tracker.Begin.{message_of}
use go_bnc.Session.Tracker.Invariant.{IsTracker}
use go_bnc.Irc.CaseMap.{rfc1459}
use go_bnc.Session.Tracker.Requests.{Distinct}
use go_bnc.Session.Tracker.Queues.{
  drop_queue, pop_queue, begin_queue, expire_queue, drops_head, expires_head,
}
use go_bnc.Session.Tracker.InFlight.{
  OneInFlight, begin_queue-OneInFlight, released, drop_queue-OneInFlight, expire_queue-OneInFlight,
  pop_queue-OneInFlight,
}
use go_bnc.Session.Tracker.Requests.{
  served, clients, Distinct, clients-coalesce, without, drop_client-served,
}
use go_bnc.Session.Tracker.{Pending, Waiter, dests_of, drop_client, coalesce, new_request_tracker}
use go_bnc.Base.{
  Bool, Bytes, List, [], codes, drop, false, if◌then◌else◌, length, refl, text_eq, text_in, true, ℕ,
  ◌++◌, ◌==◌, ◌∷◌, ◌≡◌, ◌≤◌, ◌⊎◌,
}

abbrev waiter : Bytes → Waiter
waiter name = record { client = name; client_label = []; strip_token = false; client_token = [] }

abbrev request : Bytes → Bytes → Bool → Pending
request name remote hold = record {
  client = name;
  client_label = [];
  strip_token = false;
  client_token = [];
  command = codes "STATS";
  label = [];
  target = codes "u";
  whox_token = [];
  end_codes = codes "219" ∷ [];
  reply_codes = [];
  created = 5;
  outbound = record {
    tags = [];
    source = [];
    command = codes "STATS";
    params = codes "u" ∷ remote ∷ [];
    raw = [];
  };
  hold_write = hold;
  extra = waiter (codes "bo") ∷ [];
  mode_letters = [];
  whox_flags = [];
  whox_fields = [];
  remote = remote;
}

abbrev queue : List Pending
queue = request (codes "al") (codes "s1") false ∷ request (codes "cy") (codes "s2") true ∷ []

queue-OneInFlight : OneInFlight queue
queue-OneInFlight = (refl, (refl, tt))

begin_queue-OneInFlight_example :
    OneInFlight (begin_queue queue (request (codes "di") (codes "s3") false)).0
    × ((begin_queue queue (request (codes "di") (codes "s3") false)).1 ≡ (length queue == 0))
begin_queue-OneInFlight_example =
    begin_queue-OneInFlight queue (request (codes "di") (codes "s3") false) refl queue-OneInFlight

pop_queue-OneInFlight_example :
    OneInFlight (pop_queue queue).0 × ((pop_queue queue).1 ≡ released (drop 1 queue))
pop_queue-OneInFlight_example = pop_queue-OneInFlight queue queue-OneInFlight

drop_queue-OneInFlight_example :
    OneInFlight (drop_queue (codes "al") queue).0
    × ((drop_queue (codes "al") queue).1 ≡ (
        if drops_head (codes "al") queue then released (drop_queue (codes "al") queue).0 else []))
drop_queue-OneInFlight_example = drop_queue-OneInFlight (codes "al") queue queue-OneInFlight

abbrev first_server : Pending → Bool
first_server r = text_eq r.remote (codes "s1")

expire_queue-OneInFlight_example :
    OneInFlight (expire_queue first_server queue).0
    × ((expire_queue first_server queue).1 ≡ (
        if expires_head first_server queue
        then released (expire_queue first_server queue).0
        else []))
expire_queue-OneInFlight_example = expire_queue-OneInFlight first_server queue queue-OneInFlight

abbrev shared : Pending
shared = request (codes "al") [] false

shared-Distinct : Distinct (clients (dests_of shared))
unfolding dests_of clients text_in text_eq
shared-Distinct = (refl, (refl, tt))

drop_client-served_example :
    served (drop_client shared (codes "al")) ≡ without (codes "al") (clients (dests_of shared))
drop_client-served_example = drop_client-served shared (codes "al") shared-Distinct

clients-coalesce_example : clients (dests_of (coalesce shared (waiter (codes "cy")))) ≡ (
    if text_in (codes "cy") (clients (dests_of shared))
    then clients (dests_of shared)
    else clients (dests_of shared) ++ (codes "cy" ∷ []))
clients-coalesce_example = clients-coalesce shared (waiter (codes "cy"))

pops-lines_of_example : pops 1 queue ≡ lines_of (request (codes "cy") (codes "s2") true ∷ [])
pops-lines_of_example =
    pops-lines_of (request (codes "al") (codes "s1") false)
      (request (codes "cy") (codes "s2") true ∷ []) queue-OneInFlight

-- Two clients ask for the same nick of two servers, and the answer to the first ends.
abbrev whois_by : Bytes → Bytes → BeginOpts
whois_by name remote = record {
  client = name;
  cmd = codes "WHOIS";
  client_label = [];
  prefer_label = false;
  prefer_whox = false;
  whois_targets = codes "Di" ∷ [];
  case_mapping = rfc1459;
  who_mask = [];
  stats_letter = [];
  enquiry_target = [];
  mode_letters = [];
  whox_flags = [];
  whox_fields = [];
  whox_client_token = [];
  remote = remote;
  outbound = message_of (codes "WHOIS") (codes "Di" ∷ []);
}

abbrev whois_end : Message
whois_end = message_of (codes "318") (codes "al" ∷ codes "di" ∷ codes "End" ∷ [])

abbrev calls : List Call
calls =
    begins 1 (whois_by (codes "al") [])
    ∷ begins 2 (whois_by (codes "bo") (codes "s1"))
    ∷ routes 3 whois_end rfc1459
    ∷ drops (codes "bo")
    ∷ takes
    ∷ []

after_all-IsTracker_example : IsTracker (after_all new_request_tracker calls)
after_all-IsTracker_example = after_all-IsTracker calls

begin-token_example :
    let (rt, result) = begin 9 (after_all new_request_tracker calls) (whois_by (codes "al") []) in
    (rt.next_tok ≤ 999)
    × ((result.whox_token ≡ []) ⊎ ((n : ℕ) × (1 ≤ n) × (n ≤ 999) × (result.whox_token ≡ decimal n)))
begin-token_example = begin-token calls 9 (whois_by (codes "al") [])
