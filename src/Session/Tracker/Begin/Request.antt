-- ===== src/Session/Tracker/Begin/Request.antt =====
-- internal/session/tracker.go: the request that `Begin` fills in, and its branches for a label and
-- for a WHOX token.
use go_bnc.Base.{
  Bool, Bytes, List, Option, [], byte_key, false, if◌then◌else◌, insert, ltb, none, some, suc,
  text_eq, text_key, true, zero, ℕ, ◌%◌, ◌&&◌, ◌++◌, ◌+◌, ◌-◌, ◌/◌, ◌==◌, ◌^◌, ◌||◌, ◌∷◌,
}
use go_bnc.Irc.Message.{Message}
use go_bnc.Irc.CaseMap.{CaseMapping}
use go_bnc.Session.Tracker.{Pending, RequestTracker, head_waiter, coalesce}
use go_bnc.Session.Tracker.Codes.{end_codes_for, reply_codes_for}

-- `BeginOpts`; the output `WhoisWire` is a field of the result.
pub record BeginOpts : Type 0 where
  pub client : Bytes
  pub cmd : Bytes
  pub client_label : Bytes
  pub prefer_label : Bool
  pub prefer_whox : Bool
  pub whois_targets : List Bytes
  pub case_mapping : CaseMapping
  pub who_mask : Bytes
  pub stats_letter : Bytes
  pub enquiry_target : Bytes
  pub mode_letters : Bytes
  pub whox_flags : Bytes
  pub whox_fields : Bytes
  pub whox_client_token : Bytes
  pub remote : Bytes
  pub outbound : Message

pub record BeginResult : Type 0 where
  pub label : Bytes
  pub whox_token : Bytes
  pub write_now : Bool
  pub whois_wire : List Bytes

-- The digits of `n` in front of `rest`; the fuel is `n`, which is more than the rounds needed.
unfoldable pub digits_onto : ℕ → ℕ → ℕ → Bytes → Bytes
digits_onto base zero n rest = rest
digits_onto base (suc f) n rest =
    let more = digits_onto base f (n / base) (digit (n % base) ∷ rest) in
    if n == 0 then rest else more
  where
    digit : ℕ → ℕ
    digit d = if ltb d 10 then b'0' + d else b'a' + (d - 10)

-- `formatID`
unfoldable pub format_id : Bytes → ℕ → Bytes
unfolding digits_onto
format_id prefix n = if n == 0 then prefix ++ (b'0' ∷ []) else prefix ++ digits_onto 36 n n []

-- `strconv.FormatUint(n, 10)`
unfoldable pub decimal : ℕ → Bytes
unfolding digits_onto
decimal n = if n == 0 then b'0' ∷ [] else digits_onto 10 n n []

-- The request as `Begin` fills it in.
unfoldable pub new_request : ℕ → RequestTracker → BeginOpts → Pending
new_request now rt o = record {
  client = o.client;
  client_label = o.client_label;
  strip_token = false;
  client_token = o.whox_client_token;
  command = o.cmd;
  label = [];
  target = o.enquiry_target;
  whox_token = [];
  end_codes = end_codes_for o.cmd rt.ircd;
  reply_codes = reply_codes_for o.cmd rt.ircd;
  created = now;
  outbound = o.outbound;
  hold_write = false;
  extra = [];
  mode_letters = [];
  whox_flags = o.whox_flags;
  whox_fields = o.whox_fields;
  remote = o.remote;
}

abbrev pub written : Bytes → Bytes → BeginResult
written label token = record {
  label = label;
  whox_token = token;
  write_now = true;
  whois_wire = [];
}

abbrev pub result_of : Bool → BeginResult
result_of now = record { label = []; whox_token = []; write_now = now; whois_wire = [] }

-- The branch of `PreferLabel`.
unfoldable pub begin_labeled : RequestTracker → Pending → RequestTracker × BeginResult
unfolding format_id
begin_labeled rt req =
    let next = (rt.next_lbl + 1) % 2 ^ 64 in
    let label = format_id (b'L' ∷ []) next in
    (
      record rt {
        next_lbl = next;
        labeled = insert label (record req { label = label }) rt.labeled;
      },
      written label [],
    )

-- `whoxFieldsKey`
unfoldable pub whox_fields_key : Bytes → Bytes
whox_fields_key [] = []
whox_fields_key (c ∷ cs) =
    if c == b't' || c == b'T' then whox_fields_key cs else c ∷ whox_fields_key cs

-- The test of `findMatchingWHOX`.
unfoldable pub same_whox : Pending → Pending → Bool
unfolding whox_fields_key
same_whox old new =
    text_eq old.target new.target
    && text_eq old.whox_flags new.whox_flags
    && text_eq (whox_fields_key old.whox_fields) (whox_fields_key new.whox_fields)

-- `findMatchingWHOX`, with the request that it finds joined by the new one.
unfoldable pub join_whox : Pending → List (Bytes × Pending) → Option (List (Bytes × Pending))
unfolding same_whox
join_whox req [] = none
join_whox req ((tok, old) ∷ m) =
    let rest = join_whox req m in
    if same_whox old req
    then some ((tok, coalesce old (head_waiter req)) ∷ m)
    else elim rest [ none ↦ none | some m' ↦ some ((tok, old) ∷ m') ]

-- `rt.nextTok++`, from 1 again after 999.
unfoldable pub next_token : ℕ → ℕ
next_token tok = let n = tok + 1 in if ltb 999 n then 1 else n

-- The branch of `PreferWHOX`, once `findMatchingWHOX` has answered, and as a whole.
unfoldable pub whox_begun :
    RequestTracker → Pending → Option (List (Bytes × Pending)) → RequestTracker × BeginResult
unfolding next_token decimal
whox_begun rt req (some m) = (record rt { whox = m }, result_of false)
whox_begun rt req none =
    let tok = next_token rt.next_tok in
    let token = decimal tok in
    (
      record rt { next_tok = tok; whox = insert token (record req { whox_token = token }) rt.whox },
      written [] token,
    )

unfoldable pub begin_whox : RequestTracker → Pending → Bytes → RequestTracker × BeginResult
unfolding join_whox whox_begun
begin_whox rt req0 mask =
    let req = record req0 { target = mask } in whox_begun rt req (join_whox req rt.whox)
