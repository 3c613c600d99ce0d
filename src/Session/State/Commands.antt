-- ===== src/Session/State/Commands.antt =====
-- internal/session/state_commands.go: what the commands of a server change. `none` stands for the
-- panic on a nil pointer, or on an index or a slice out of range. A missing key of a map of pointers
-- gives nil.
use go_bnc.Session.State.{
  User, ChannelState, fresh_channel, SessionState, key_of, user_at, put_user, self_nick,
  with_channel, Notes, nothing, apply_umodes,
}
use go_bnc.Session.State.Users.{
  ensure_user, set_identity, touch_user, map_values, rename_user, maybe_forget_user,
}
use go_bnc.Irc.Message.{Message}
use go_bnc.Irc.Message.Access.{param, trailing, nick_of}
use go_bnc.Irc.CaseMap.{equal}
use go_bnc.Irc.Modes.{ModeChange, add_member, drop_member, parse_mode_params, apply_all}
use go_bnc.Base.{
  Bool, Bytes, List, Option, [], byte_key, codes, drop, erase, false, if◌then◌else◌, insert,
  is_empty, leb, length, lookup, ltb, none, not, some, suc, text_eq, text_key, zero, ℕ, ◌==◌, ◌||◌,
  ◌∷◌,
}

-- `xs[n]` and `xs[n:]`
unfoldable pub index {ℓ} : {A : Type ℓ} → ℕ → List A → Option A
index n [] = none
index zero (x ∷ xs) = some x
index (suc n) (x ∷ xs) = index n xs

unfoldable pub slice_from {ℓ} : {A : Type ℓ} → ℕ → List A → Option (List A)
slice_from n xs = if ltb (length xs) n then none else some (drop n xs)

-- The channel of a JOIN.
unfoldable pub channel_name : Message → Bytes
channel_name msg = elim (param msg 0) [ [] ↦ trailing msg | c ∷ cs ↦ c ∷ cs ]

-- The channel under `folded`, which is made if it is not there.
unfoldable pub open_channel :
    Bytes → Bytes → List (Bytes × ChannelState) → List (Bytes × ChannelState)
open_channel name k channels = elim (lookup k channels) [
  | none ↦ insert k (fresh_channel name) channels
  | some ch ↦ channels
]

unfoldable pub join_user : SessionState → Message → SessionState × Option ℕ
join_user s msg =
    let touched = touch_user s msg.source in
    elim touched.1 [ none ↦ ensure_user touched.0 (nick_of msg) | some r ↦ (touched.0, some r) ]

-- The branch of `stateJOINLocked` for a JOIN of our own.
unfoldable pub confirm_join : SessionState → Bytes → Bytes → SessionState × Notes
confirm_join s name k =
    let named = with_channel s k (λ ch. record ch { name = name }) in
    elim (lookup k s.pending_join_keys) [
      | some join_key ↦
          let keyed = with_channel named k (λ ch. record ch { key = join_key }) in
          (
            record keyed { pending_join_keys = erase k s.pending_join_keys },
            record nothing { persist = (name, join_key) ∷ [] },
          )
      | none ↦ (named, record nothing { blob_only = name ∷ [] })
    ]

-- The account of extended-join.
unfoldable pub set_account : SessionState → Message → ℕ → SessionState
set_account s msg r =
    if ltb (length msg.params) 2
    then s
    else if text_eq (param msg 1) (codes "*")
    then put_user s r (record (user_at s r) { account = [] })
    else if is_empty (param msg 1)
    then s
    else put_user s r (record (user_at s r) { account = param msg 1 })

unfoldable pub add_to_channel : SessionState → Bytes → Bytes → SessionState
add_to_channel s k nick_key =
    with_channel s k (λ ch. record ch { members = add_member nick_key ch.members })

-- `stateJOINLocked` from the user on.
unfoldable pub join_as : SessionState → Message → ℕ → SessionState × Notes
join_as s msg r =
    let name = channel_name msg in
    let k = key_of s name in
    let joined = add_to_channel s k (key_of s (user_at s r).nick) in
    if r == s.self
    then (let (confirmed, notes) = confirm_join joined name k in
        (set_account confirmed msg r, notes))
    else (set_account joined msg r, nothing)

unfoldable pub join_if_known : Message → SessionState × Option ℕ → Option (SessionState × Notes)
join_if_known msg (s, none) = none
join_if_known msg (s, some r) = some (join_as s msg r)

-- `stateJOINLocked`
unfoldable pub state_join : SessionState → Message → Option (SessionState × Notes)
state_join s msg =
    let name = channel_name msg in
    let opened : SessionState = record s {
      channels = open_channel name (key_of s name) s.channels;
    } in
    join_if_known msg (join_user opened msg)

-- `statePartKickLocked`
unfoldable pub state_part_kick : SessionState → Message → Option (SessionState × Notes)
state_part_kick s msg =
    let name = param msg 0 in
    let k = key_of s name in
    let nick : Bytes = if text_eq msg.command (codes "KICK") then param msg 1 else nick_of msg in
    elim (lookup k s.channels) [
      | none ↦ some (s, nothing)
      | some ch ↦
          let left =
            with_channel s k (λ c. record c { members = drop_member (key_of s nick) c.members }) in
          if equal s.isupport.case_mapping nick (self_nick s)
          then some (
            record left { channels = erase k left.channels },
            record nothing { remove = name ∷ [] },
          )
          else some (maybe_forget_user left nick, nothing)
    ]

unfoldable pub quit_channel : Bytes → ChannelState → ChannelState
quit_channel nick_key ch = record ch {
  members = drop_member nick_key ch.members;
  modes = record ch.modes { nicks = erase nick_key ch.modes.nicks };
}

-- `stateQUITLocked`
unfoldable pub state_quit : SessionState → Message → SessionState
state_quit s msg =
    let k = key_of s (nick_of msg) in
    let left : SessionState = record s { channels = map_values (quit_channel k) s.channels } in
    if equal s.isupport.case_mapping (nick_of msg) (self_nick s)
    then left
    else record left { users = erase k s.users }

-- `stateTOPICLocked`
unfoldable pub state_topic : SessionState → Message → Option SessionState
state_topic s msg =
    let k = key_of s (param msg 0) in
    elim (lookup k s.channels) [
      | none ↦ some s
      | some ch ↦ some (with_channel s k (λ c. record c { topic = trailing msg }))
    ]

-- `stateNICKLocked`
unfoldable pub state_nick : SessionState → Message → SessionState × Notes
state_nick s msg =
    let new_nick : Bytes = elim (trailing msg) [ [] ↦ param msg 0 | c ∷ cs ↦ c ∷ cs ] in
    let was_self = equal s.isupport.case_mapping (nick_of msg) (self_nick s) in
    (
      rename_user s (nick_of msg) new_nick,
      if was_self then record nothing { own_nick = some new_nick } else nothing,
    )

unfoldable pub set_away : User → Bytes → User
set_away u text = record u { away_message = text; away = not (is_empty text) }

-- `stateAWAYLocked`
unfoldable pub state_away : SessionState → Message → Option SessionState
state_away s msg =
    let text = trailing msg in
    if equal s.isupport.case_mapping (nick_of msg) (self_nick s) || is_empty msg.source
    then some (put_user s s.self (set_away (user_at s s.self) text))
    else elim (lookup (key_of s (nick_of msg)) s.users) [
      | none ↦ some s
      | some r ↦ some (put_user s r (set_away (user_at s r) text))
    ]

-- `stateCHGHOSTLocked` from the user on.
unfoldable pub chghost_of : Message → SessionState × Option ℕ → Option (SessionState × Notes)
chghost_of msg (s, none) = some (s, nothing)
chghost_of msg (s, some r) =
    let s' = put_user s r (set_identity (user_at s r) (param msg 0) (param msg 1)) in
    some (
      s',
      if is_empty (param msg 1) || not (r == s.self)
          then nothing
          else record nothing { cloak = some (param msg 1) },
    )

-- `stateCHGHOSTLocked`
unfoldable pub state_chghost : SessionState → Message → Option (SessionState × Notes)
state_chghost s msg = chghost_of msg (touch_user s msg.source)

unfoldable pub account_of : Message → SessionState × Option ℕ → Option SessionState
account_of msg (s, none) = some s
account_of msg (s, some r) =
    let text : Bytes = elim (param msg 0) [ [] ↦ trailing msg | c ∷ cs ↦ c ∷ cs ] in
    some (
      put_user s r
        (record (user_at s r) { account = if text_eq text (codes "*") then [] else text }))

-- `stateACCOUNTLocked`
unfoldable pub state_account : SessionState → Message → Option SessionState
state_account s msg = account_of msg (touch_user s msg.source)

-- The keys that the changes set, one after another.
unfoldable pub key_changes : Bytes → Bytes → List ModeChange → Bytes × List (Bytes × Bytes)
key_changes name join_key [] = (join_key, [])
key_changes name join_key (chg ∷ changes) =
    let next : Bytes = if chg.mode == b'k' then (if chg.sets then chg.arg else []) else join_key in
    let rest = key_changes name next changes in
    (rest.0, if chg.mode == b'k' then (name, next) ∷ rest.1 else rest.1)

-- The branch of `stateMODELocked` for a channel, from the parameters on.
unfoldable pub mode_with :
    SessionState → Bytes → List Bytes → Bytes → ChannelState → SessionState × Notes
mode_with s modestring args k ch =
    let modes = s.isupport.modes in
    let changes = parse_mode_params modes modestring args in
    let keyed = key_changes ch.name ch.key changes in
    (
      with_channel s k (λ c. record c {
        modes = apply_all modes s.isupport.case_mapping c.modes changes;
        key = keyed.0;
      }),
      record nothing { persist = keyed.1 },
    )

-- The same, with the parameters.
unfoldable pub mode_channel :
    SessionState → Message → Bytes → ChannelState → Option (SessionState × Notes)
mode_channel s msg k ch = elim (index 1 msg.params) [
  | none ↦ none
  | some modestring ↦ elim (slice_from 2 msg.params) [
    | none ↦ none
    | some args ↦ some (mode_with s modestring args k ch)
  ]
]

-- `target[0] == '#' || …`
unfoldable pub is_channel : Bytes → Bool
is_channel [] = false
is_channel (c ∷ cs) = c == b'#' || c == b'&' || c == b'+' || c == b'!'

-- `stateMODELocked`
unfoldable pub state_mode : SessionState → Message → Option (SessionState × Notes)
state_mode s msg =
    let target = param msg 0 in
    let modestring : Bytes = elim (param msg 1) [ [] ↦ trailing msg | c ∷ cs ↦ c ∷ cs ] in
    if is_channel target
    then elim (lookup (key_of s target) s.channels) [
      | none ↦ some (s, nothing)
      | some ch ↦
          if leb (length msg.params) 1
          then some (s, nothing)
          else mode_channel s msg (key_of s target) ch
    ]
    else if equal s.isupport.case_mapping target (self_nick s)
    then some (put_user s s.self (apply_umodes (user_at s s.self) modestring), nothing)
    else some (s, nothing)
