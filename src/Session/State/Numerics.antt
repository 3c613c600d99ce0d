-- ===== src/Session/State/Numerics.antt =====
-- internal/session/state_numerics.go: what the numerics of a server change. `none` stands for a
-- panic, as in Commands.
use go_bnc.Session.State.{
  User, ChannelState, SessionState, key_of, user_at, put_user, self_nick, with_channel, Notes,
  nothing, apply_umodes, apply_who_flags,
}
use go_bnc.Session.State.Users.{ensure_known, ensure_user, ensure_self}
use go_bnc.Session.State.Commands.{open_channel, index, slice_from}
use go_bnc.Irc.Ircd.{detect_ircd}
use go_bnc.Irc.Message.{Message}
use go_bnc.Irc.Message.Access.{param, trailing}
use go_bnc.Irc.CaseMap.{equal, CaseMapping}
use go_bnc.Irc.Modes.{add_member, entry_or}
use go_bnc.Irc.Isupport.{parse_005}
use go_bnc.Base.{
  Bytes, List, Option, [], byte_key, codes, cut_byte, false, fields, if◌then◌else◌, insert,
  is_empty, leb, length, lookup, ltb, none, some, text_key, trim_space, true, ℕ, ◌&&◌, ◌-◌, ◌==◌,
  ◌||◌, ◌∷◌,
}

-- `state001Locked`
unfoldable pub state_001 : SessionState → Message → Option (SessionState × Notes)
state_001 s msg =
    let src = trim_space msg.source in
    let s' : SessionState = if is_empty src then s else record s { uplink_server = src } in
    let source : Option Bytes = if is_empty src then none else some src in
    let notes : Notes = record nothing { uplink_source = source } in
    if ltb 0 (length msg.params)
    then elim (index 0 msg.params) [
      | none ↦ none
      | some nick ↦
          if is_empty nick
          then some (s', notes)
          else some (ensure_self s' nick, record notes { own_nick = some nick })
    ]
    else some (s', notes)

-- The end of `detectIRCdLocked`, with the call of `SetIRCd`.
unfoldable pub note_ircd : SessionState → Notes → Bytes → SessionState × Notes
note_ircd s notes [] = (s, notes)
note_ircd s notes (c ∷ cs) = (record s { ircd = c ∷ cs }, record notes { detected = some (c ∷ cs) })

-- `text` of `detectIRCdLocked`
unfoldable pub banner : List Bytes → Option Bytes
banner lines = if ltb 0 (length lines) then index (length lines - 1) lines else some []

-- `detectIRCdLocked` from the banner on.
unfoldable pub detect_from : SessionState → Notes → Bytes → Option (SessionState × Notes)
detect_from s notes text =
    let family = detect_ircd text in
    if is_empty family && ltb 1 (length s.rpl_004)
    then elim (index 1 s.rpl_004) [
      | none ↦ none
      | some version ↦ some (note_ircd s notes (detect_ircd version))
    ]
    else some (note_ircd s notes family)

-- `detectIRCdLocked`
unfoldable pub detect_state : SessionState → Notes → Option (SessionState × Notes)
detect_state s notes = elim (banner s.rpl_002) [
  | none ↦ none
  | some text ↦ detect_from s notes text
]

-- `stateWelcomeNumericLocked`
unfoldable pub state_002 : SessionState → Message → Option (SessionState × Notes)
state_002 s msg =
    if ltb 1 (length msg.params)
    then elim (slice_from 1 msg.params) [
      | none ↦ none
      | some tail ↦
          detect_state (record s { rpl_002 = tail })
            (record nothing { welcome = some (codes "rpl002", tail) })
    ]
    else some (s, nothing)

unfoldable pub state_003 : SessionState → Message → Option (SessionState × Notes)
state_003 s msg =
    if ltb 1 (length msg.params)
    then elim (slice_from 1 msg.params) [
      | none ↦ none
      | some tail ↦
          some
            (record s { rpl_003 = tail }, record nothing { welcome = some (codes "rpl003", tail) })
    ]
    else some (s, nothing)

-- The branch for 004, once the parameters are kept.
unfoldable pub detect_004 : SessionState → Notes → Message → Option (SessionState × Notes)
detect_004 s notes msg =
    if is_empty s.ircd && ltb 2 (length msg.params)
    then elim (index 2 msg.params) [
      | none ↦ none
      | some version ↦ some (note_ircd s notes (detect_ircd version))
    ]
    else some (s, notes)

unfoldable pub state_004 : SessionState → Message → Option (SessionState × Notes)
state_004 s msg =
    if ltb 1 (length msg.params)
    then elim (slice_from 1 msg.params) [
      | none ↦ none
      | some tail ↦
          detect_004 (record s { rpl_004 = tail })
            (record nothing { welcome = some (codes "rpl004", tail) }) msg
    ]
    else some (s, nothing)

unfoldable pub state_005 : SessionState → Message → SessionState × Notes
state_005 s msg = (
  record s { isupport = parse_005 s.isupport msg.params },
  record nothing { welcome = some (codes "isupport", msg.params) },
)

-- `if ms != "" && ms[0] != '+' && ms[0] != '-' { ms = "+" + ms }`
unfoldable pub signed : Bytes → Bytes
signed [] = []
signed (c ∷ cs) = if c == b'+' || c == b'-' then c ∷ cs else b'+' ∷ c ∷ cs

-- `state221Locked`
unfoldable pub state_221 : SessionState → Message → SessionState
state_221 s msg =
    let text : Bytes = elim (param msg 1) [ [] ↦ trailing msg | c ∷ cs ↦ c ∷ cs ] in
    let me : User = record (user_at s s.self) { umodes = [] } in
    put_user s s.self (apply_umodes me (signed text))

unfoldable pub away_of : Message → SessionState × Option ℕ → Option SessionState
away_of msg (s, none) = some s
away_of msg (s, some r) =
    some (put_user s r (record (user_at s r) { away = true; away_message = trailing msg }))

-- `state301Locked`
unfoldable pub state_301 : SessionState → Message → Option SessionState
state_301 s msg = away_of msg (ensure_user s (param msg 1))

-- `state305Locked`
unfoldable pub state_305 : SessionState → SessionState
state_305 s = put_user s s.self (record (user_at s s.self) { away = false; away_message = [] })

-- `state306Locked`
unfoldable pub state_306 : SessionState → SessionState
state_306 s = put_user s s.self (record (user_at s s.self) { away = true })

-- `state332Locked`
unfoldable pub state_332 : SessionState → Message → Option SessionState
state_332 s msg =
    let k = key_of s (param msg 1) in
    elim (lookup k s.channels) [
      | none ↦ some s
      | some ch ↦ some (with_channel s k (λ c. record c { topic = trailing msg }))
    ]

-- `state352Locked` from the user on.
unfoldable pub who_reply : Message → SessionState × Option ℕ → Option SessionState
who_reply msg (s, none) = none
who_reply msg (s, some r) =
    let u = user_at s r in
    let known : User =
      if r == s.self then u else record u { user = param msg 2; host = param msg 3 } in
    some (put_user s r (apply_who_flags known (param msg 6)))

-- `state352Locked`; `none` stands for the panic on a nil pointer.
unfoldable pub state_352 : SessionState → Message → Option SessionState
state_352 s msg =
    if ltb (length msg.params) 6 then some s else who_reply msg (ensure_user s (param msg 5))

-- The loop over the prefixes of an entry: the modes, and the nick that is left.
unfoldable pub strip_prefixes : List (ℕ × ℕ) → Bytes → List ℕ × Bytes
strip_prefixes by_symbol [] = ([], [])
strip_prefixes by_symbol (symbol ∷ rest) =
    let (modes, nick) = strip_prefixes by_symbol rest in
    let m : ℕ = elim (lookup symbol by_symbol) [ none ↦ 0 | some mode ↦ mode ] in
    if m == 0 then ([], symbol ∷ rest) else (m ∷ modes, nick)

unfoldable pub add_modes : List ℕ → List ℕ → List ℕ
add_modes held [] = held
add_modes held (m ∷ ms) = add_modes (add_member m held) ms

-- What an entry of the list of names changes in its channel.
unfoldable pub put_name : Bytes → List ℕ → ChannelState → ChannelState
put_name k [] ch = record ch { members = add_member k ch.members }
put_name k (m ∷ ms) ch = record ch {
  members = add_member k ch.members;
  modes = record ch.modes {
    nicks = insert k (add_modes (entry_or k ch.modes.nicks) (m ∷ ms)) ch.modes.nicks;
  };
}

-- One round of the loop of `state353Locked`, on the modes and the nick.
unfoldable pub add_name : Bytes → SessionState → List ℕ × Bytes → SessionState
add_name channel s (modes, []) = s
add_name channel s (modes, c ∷ cs) =
    let known = (ensure_known s (c ∷ cs)).0 in
    with_channel known channel (put_name (key_of s (c ∷ cs)) modes)

unfoldable pub add_names : Bytes → SessionState → List Bytes → SessionState
add_names channel s [] = s
add_names channel s (ent ∷ ents) =
    add_names channel (add_name channel s (strip_prefixes s.isupport.modes.by_symbol ent)) ents

-- `state353Locked`
unfoldable pub state_353 : SessionState → Message → SessionState
state_353 s msg =
    let name = param msg 2 in
    let k = key_of s name in
    if ltb (length msg.params) 3
    then s
    else add_names k (record s { channels = open_channel name k s.channels })
        (fields (trailing msg))

-- `state366Locked`
unfoldable pub state_366 : SessionState → Message → Option SessionState
state_366 s msg =
    let k = key_of s (param msg 1) in
    if ltb (length msg.params) 2 then some s else elim (lookup k s.channels) [
      | none ↦ some s
      | some ch ↦ some (with_channel s k (λ c. record c { roster_known = true }))
    ]

-- `strings.TrimSuffix(s, "*")`
unfoldable pub trim_star : Bytes → Bytes
trim_star [] = []
trim_star (c ∷ []) = if c == b'*' then [] else c ∷ []
trim_star (c ∷ d ∷ ds) = c ∷ trim_star (d ∷ ds)

unfoldable pub trim_sign : Bytes → Bytes
trim_sign [] = []
trim_sign (c ∷ cs) = if c == b'+' || c == b'-' then cs else c ∷ cs

-- An entry of RPL_USERHOST, if it is about that nick: its user and host.
unfoldable pub self_entry : CaseMapping → Bytes → Bytes → Option (Bytes × Bytes)
self_entry cm nick ent = elim (cut_byte b'=' ent) [
  | none ↦ none
  | some (before, rest) ↦
      if equal cm (trim_star before) nick then cut_byte b'@' (trim_sign rest) else none
]

unfoldable pub first_entry : CaseMapping → Bytes → List Bytes → Option (Bytes × Bytes)
first_entry cm nick [] = none
first_entry cm nick (ent ∷ ents) = elim (self_entry cm nick ent) [
  | some found ↦ some found
  | none ↦ first_entry cm nick ents
]

-- `state302Locked`
unfoldable pub state_302 : SessionState → Message → SessionState × Notes
state_302 s msg =
    let entry : Option (Bytes × Bytes) =
      if ltb (length msg.params) 2
      then none
      else first_entry s.isupport.case_mapping (self_nick s) (fields (trailing msg)) in
    elim entry [
      | none ↦ (s, nothing)
      | some (user, host) ↦ (
        put_user s s.self (record (user_at s s.self) { user = user; host = host }),
        record nothing { cloak = some host },
      )
    ]

-- `state381Locked`
unfoldable pub state_381 : SessionState → SessionState
state_381 s = put_user s s.self (record (user_at s s.self) { oper = true })

-- `state396Locked`
unfoldable pub state_396 : SessionState → Message → SessionState × Notes
state_396 s msg =
    if leb 2 (length msg.params) && equal s.isupport.case_mapping (param msg 0) (self_nick s)
    then (
      put_user s s.self (record (user_at s s.self) { host = param msg 1 }),
      record nothing { cloak = some (param msg 1) },
    )
    else (s, nothing)
