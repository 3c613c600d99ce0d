-- ===== src/Session/Tracker/Begin.antt =====
-- internal/session/tracker.go: `Begin`, which registers a request. A held or joined request gives
-- `write_now = false`.
pub mod Request
use go_bnc.Session.Tracker.Begin.Request.{
  new_request, BeginOpts, BeginResult, begin_labeled, begin_whox, result_of,
}
use go_bnc.Base.{
  Bool, Bytes, List, [], byte_key, codes, false, if◌then◌else◌, insert, not, suc, text_eq, text_key,
  true, zero, ℕ, ◌&&◌, ◌++◌, ◌+◌, ◌==◌, ◌||◌, ◌∷◌,
}
use go_bnc.Irc.Message.{Message, contains_byte}
use go_bnc.Irc.CaseMap.{CaseMapping, fold}
use go_bnc.Session.Tracker.{Pending, Queues, RequestTracker, head_waiter, coalesce}
use go_bnc.Session.Tracker.Codes.{
  is, end_codes_for, reply_codes_for, hold_write, takes_server_target,
}
use go_bnc.Session.Tracker.Queues.{queue_at, begin_queue}
use go_bnc.Session.Tracker.Lifecycle.{expire}

-- A request under a key, on the map.
unfoldable pub begin_keyed : Queues → Bytes → Pending → Queues × Bool
unfolding begin_queue queue_at
begin_keyed queues key req =
    let (q, now) = begin_queue (queue_at queues key) req in (insert key q queues, now)

abbrev pub message_of : Bytes → List Bytes → Message
message_of command params = record {
  tags = [];
  source = [];
  command = command;
  params = params;
  raw = [];
}

-- `whoisRemoteNick`
abbrev pub whois_remote_nick : Bytes
whois_remote_nick = 0 ∷ []

-- `whoisOutbound`
unfoldable pub whois_outbound : Bytes → Bytes → Message
whois_outbound nick remote =
    if text_eq remote []
    then message_of (codes "WHOIS") (nick ∷ [])
    else if text_eq remote whois_remote_nick
    then message_of (codes "WHOIS") (nick ∷ nick ∷ [])
    else message_of (codes "WHOIS") (remote ∷ nick ∷ [])

-- The request for one nick of a WHOIS. The source reads `time.Now` for `Created` here, which is the
-- tracker's clock outside of its tests.
unfoldable pub whois_request : ℕ → RequestTracker → BeginOpts → Bytes → Pending
unfolding whois_outbound new_request
whois_request now rt o wire = record (new_request now rt o) {
  client_token = [];
  command = codes "WHOIS";
  target = fold o.case_mapping wire;
  end_codes = end_codes_for (codes "WHOIS") rt.ircd;
  reply_codes = [];
  outbound = whois_outbound wire o.remote;
  whox_flags = [];
  whox_fields = [];
}

-- The loop over the nicks of a WHOIS: the map, and the nicks that still need a line.
unfoldable pub begin_whois :
    ℕ → RequestTracker → BeginOpts → Queues → List Bytes → Queues × List Bytes
unfolding whois_request begin_keyed
begin_whois now rt o queues [] = (queues, [])
begin_whois now rt o queues ([] ∷ wires) = begin_whois now rt o queues wires
begin_whois now rt o queues ((c ∷ cs) ∷ wires) =
    let nick = fold o.case_mapping (c ∷ cs) in
    let (queues', write) = begin_keyed queues nick (whois_request now rt o (c ∷ cs)) in
    let (rest, need) = begin_whois now rt o queues' wires in
    (rest, if write then (c ∷ cs) ∷ need else need)

-- The loop of `normalizeModeListLetters` over the letters from `c` on.
unfoldable pub letters_from : Bytes → ℕ → ℕ → Bytes
letters_from modes c zero = []
letters_from modes c (suc n) =
    let rest = letters_from modes (c + 1) n in
    if contains_byte c modes && not (c == b'+' || c == b'-' || contains_byte c (codes "beIq"))
    then c ∷ rest
    else rest

abbrev list_letters : Bytes → Bytes → Bytes
list_letters modes [] = []
list_letters modes (c ∷ cs) =
    if contains_byte c modes then c ∷ list_letters modes cs else list_letters modes cs

-- `normalizeModeListLetters`
unfoldable pub normalize_mode_list_letters : Bytes → Bytes
unfolding letters_from contains_byte
normalize_mode_list_letters modes = list_letters modes (codes "beIq") ++ letters_from modes 0 256

-- `modeMapKey`
unfoldable pub mode_map_key : Bytes → Bytes → Bytes
mode_map_key target letters = target ++ (0 ∷ letters)

-- The branch of MODE: an enquiry with the same target and letters is joined.
unfoldable pub begin_mode : Queues → Bytes → Pending → Queues × Bool
unfolding queue_at
begin_mode queues key req = elim (queue_at queues key) [
  | [] ↦ (insert key (req ∷ []) queues, true)
  | r ∷ rs ↦ (insert key (coalesce r (head_waiter req) ∷ rs) queues, false)
]

-- `serialHasOtherRemote`
unfoldable pub serial_has_other_remote : List Pending → Bytes → Bool
serial_has_other_remote [] remote = false
serial_has_other_remote (r ∷ rs) remote =
    not (text_eq r.remote remote) || serial_has_other_remote rs remote

abbrev is_empty {ℓ} : {A : Type ℓ} → List A → Bool
is_empty [] = true
is_empty (x ∷ xs) = false

-- The last branch: a queue for each command.
unfoldable pub begin_serial : Queues → Pending → Queues × Bool
unfolding queue_at serial_has_other_remote
begin_serial queues req =
    let q = queue_at queues req.command in
    let hold =
      not (is_empty q)
      && (hold_write req.command
          || (takes_server_target req.command && serial_has_other_remote q req.remote)) in
    (insert req.command (q ++ (record req { hold_write = hold } ∷ [])) queues, not hold)

-- The branches of `Begin` for WHOIS, STATS, TOPIC, MODE and NAMES, and the last one.
unfoldable pub begin_targets : ℕ → RequestTracker → BeginOpts → RequestTracker × BeginResult
unfolding begin_whois
begin_targets now rt o =
    let (whois, need) = begin_whois now rt o rt.whois o.whois_targets in
    (
      record rt { whois = whois },
      record { label = []; whox_token = []; write_now = not (is_empty need); whois_wire = need },
    )

unfoldable pub begin_stats : RequestTracker → BeginOpts → Pending → RequestTracker × BeginResult
unfolding begin_keyed
begin_stats rt o req =
    let (stats, write) =
      begin_keyed rt.stats o.stats_letter (record req { target = o.stats_letter }) in
    (record rt { stats = stats }, result_of write)

unfoldable pub begin_topic : RequestTracker → BeginOpts → Pending → RequestTracker × BeginResult
unfolding queue_at
begin_topic rt o req = (
  record rt {
    topic = insert o.enquiry_target (queue_at rt.topic o.enquiry_target ++ (req ∷ [])) rt.topic;
  },
  result_of true,
)

unfoldable pub begin_modes : RequestTracker → BeginOpts → Pending → RequestTracker × BeginResult
unfolding begin_mode normalize_mode_list_letters mode_map_key
begin_modes rt o req =
    let letters = normalize_mode_list_letters o.mode_letters in
    let (mode, write) =
      begin_mode rt.mode (mode_map_key o.enquiry_target letters)
        (record req { mode_letters = letters }) in
    (record rt { mode = mode }, result_of write)

unfoldable pub begin_names : RequestTracker → BeginOpts → Pending → RequestTracker × BeginResult
unfolding begin_keyed
begin_names rt o req =
    let (names, write) = begin_keyed rt.names o.enquiry_target req in
    (record rt { names = names }, result_of write)

unfoldable pub begin_other : RequestTracker → Pending → RequestTracker × BeginResult
unfolding begin_serial
begin_other rt req =
    let (serial, write) = begin_serial rt.serial req in
    (record rt { serial = serial }, result_of write)

-- `Begin` behind the expiry.
unfoldable pub begin_fresh : ℕ → RequestTracker → BeginOpts → RequestTracker × BeginResult
unfolding new_request begin_labeled begin_whox begin_targets begin_stats begin_topic begin_modes
    begin_names begin_other
begin_fresh now rt o =
    let req = new_request now rt o in
    if o.prefer_label
    then begin_labeled rt req
    else if o.prefer_whox && (is o.cmd "WHO" || is o.cmd "WHOX")
    then begin_whox rt req o.who_mask
    else if is o.cmd "WHOIS" && not (is_empty o.whois_targets)
    then begin_targets now rt o
    else if is o.cmd "STATS" && not (text_eq o.stats_letter [])
    then begin_stats rt o req
    else if is o.cmd "TOPIC" && not (text_eq o.enquiry_target [])
    then begin_topic rt o req
    else if is o.cmd "MODE" && not (text_eq o.enquiry_target [])
    then begin_modes rt o req
    else if is o.cmd "NAMES" && not (text_eq o.enquiry_target [])
    then begin_names rt o req
    else begin_other rt req

-- `Begin`
unfoldable pub begin : ℕ → RequestTracker → BeginOpts → RequestTracker × BeginResult
unfolding begin_fresh
begin now rt o = begin_fresh now (expire now rt) o
