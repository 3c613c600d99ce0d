-- ===== src/Session/State/Users.antt =====
-- internal/session/user.go: the users of a network, by folded nick.
use go_bnc.Session.State.{
  User, fresh_user, ChannelState, SessionState, key_of, user_at, put_user, self_nick,
}
use go_bnc.Irc.Message.{contains_byte}
use go_bnc.Irc.CaseMap.{equal}
use go_bnc.Irc.Modes.{add_member, drop_member}
use go_bnc.Base.{
  Bool, Bytes, List, Option, [], byte_key, codes, cut_byte, erase, false, if◌then◌else◌, insert,
  is_empty, length, lookup, none, not, some, text_eq, text_in, text_key, ℕ, ◌&&◌, ◌++◌, ◌==◌, ◌||◌,
  ◌∷◌,
}

-- `splitUserhost`
unfoldable pub split_userhost : Bytes → Bytes × Bytes × Bytes
split_userhost source = elim (cut_byte b'!' source) [
  | none ↦ (source, [], [])
  | some (nick, rest) ↦ elim (cut_byte b'@' rest) [
    | none ↦ (nick, rest, [])
    | some (user, host) ↦ (nick, user, host)
  ]
]

-- `u.Nick = nick`, through a pointer.
unfoldable pub rename_at : SessionState → ℕ → Bytes → SessionState
rename_at s r nick = put_user s r (record (user_at s r) { nick = nick })

-- `ensureUserLocked` for a nick that is not empty.
unfoldable pub ensure_known : SessionState → Bytes → SessionState × ℕ
unfolding key_of user_at put_user self_nick
ensure_known s nick =
    let k = key_of s nick in
    elim (lookup k s.users) [
      | some r ↦ (rename_at s r nick, r)
      | none ↦
          if equal s.isupport.case_mapping nick (self_nick s)
          then (rename_at (record s { users = insert k s.self s.users }) s.self nick, s.self)
          else (
            record s {
              users = insert k (length s.heap) s.users;
              heap = s.heap ++ (fresh_user nick ∷ []);
            },
            length s.heap,
          )
    ]

-- `ensureUserLocked`; `none` is a nil pointer.
unfoldable pub ensure_user : SessionState → Bytes → SessionState × Option ℕ
ensure_user s [] = (s, none)
ensure_user s (c ∷ cs) = let (s', r) = ensure_known s (c ∷ cs) in (s', some r)

-- `if user != "" { u.User = user }`, and the same for the host.
unfoldable pub set_identity : User → Bytes → Bytes → User
set_identity u user host = record u {
  user = if is_empty user then u.user else user;
  host = if is_empty host then u.host else host;
}

-- The end of `touchUserFromPrefixLocked`, on the parts of the source.
unfoldable pub touch_parts : SessionState → Bytes × Bytes × Bytes → SessionState × Option ℕ
touch_parts s ([], user, host) = (s, none)
touch_parts s (c ∷ cs, user, host) =
    let (s', r) = ensure_known s (c ∷ cs) in
    (put_user s' r (set_identity (user_at s' r) user host), some r)

-- `touchUserFromPrefixLocked`
unfoldable pub touch_user : SessionState → Bytes → SessionState × Option ℕ
touch_user s source =
    if contains_byte b'!' source then touch_parts s (split_userhost source) else (s, none)

-- A member or an entry that moves to another key.
unfoldable pub move_member : Bytes → Bytes → List Bytes → List Bytes
move_member old new members =
    if text_in old members then add_member new (drop_member old members) else members

unfoldable pub move_entry {ℓ} : {V : Type ℓ} → Bytes → Bytes → List (Bytes × V) → List (Bytes × V)
move_entry old new m = elim (lookup old m) [ none ↦ m | some v ↦ insert new v (erase old m) ]

-- What `renameUserLocked` does to a channel.
unfoldable pub rename_in : Bytes → Bytes → ChannelState → ChannelState
rename_in old new ch = record ch {
  members = move_member old new ch.members;
  modes = record ch.modes { nicks = move_entry old new ch.modes.nicks };
}

-- `for _, ch := range s.channels`, with a write to each channel.
unfoldable pub map_values {ℓ} : {V : Type ℓ} → (V → V) → List (Bytes × V) → List (Bytes × V)
map_values f [] = []
map_values f ((k, v) ∷ m) = (k, f v) ∷ map_values f m

-- The first half of `renameUserLocked`.
unfoldable pub rename_known : SessionState → Bytes → Bytes → SessionState
rename_known s old_nick new_nick = elim (lookup (key_of s old_nick) s.users) [
  | none ↦ (ensure_user s new_nick).0
  | some r ↦
      let s' = rename_at s r new_nick in
      record s' { users = insert (key_of s new_nick) r (erase (key_of s old_nick) s.users) }
]

-- `renameUserLocked`
unfoldable pub rename_user : SessionState → Bytes → Bytes → SessionState
rename_user s old_nick new_nick =
    let s' = rename_known s old_nick new_nick in
    record s' {
      channels = map_values (rename_in (key_of s old_nick) (key_of s new_nick)) s'.channels;
    }

unfoldable pub any_member : Bytes → List (Bytes × ChannelState) → Bool
any_member k [] = false
any_member k ((name, ch) ∷ m) = text_in k ch.members || any_member k m

-- `maybeForgetUserLocked`
unfoldable pub maybe_forget_user : SessionState → Bytes → SessionState
maybe_forget_user s nick =
    if equal s.isupport.case_mapping nick (self_nick s)
    then s
    else if any_member (key_of s nick) s.channels
    then s
    else record s { users = erase (key_of s nick) s.users }

-- The keys of `self` other than the folded nick are deleted.
unfoldable pub drop_stale : ℕ → Bytes → List (Bytes × ℕ) → List (Bytes × ℕ)
drop_stale self k [] = []
drop_stale self k ((j, r) ∷ m) =
    let rest = drop_stale self k m in if r == self && not (text_eq j k) then rest else (j, r) ∷ rest

-- What `self` takes from a user that had its nick.
unfoldable pub adopt : User → User → User
adopt me existing = record me {
  user = if is_empty me.user then existing.user else me.user;
  host = if is_empty me.host then existing.host else me.host;
}

unfoldable pub ensure_self_as : SessionState → Bytes → SessionState
ensure_self_as s nick =
    let k = key_of s nick in
    let me = user_at s s.self in
    let users' = drop_stale s.self k s.users in
    let me' : User = elim (lookup k users') [
      | none ↦ me
      | some r ↦ if r == s.self then me else adopt me (user_at s r)
    ] in
    put_user (record s { users = insert k s.self users' }) s.self (record me' { nick = nick })

-- `ensureSelfLocked`
unfoldable pub ensure_self : SessionState → Bytes → SessionState
ensure_self s [] = s
ensure_self s (c ∷ cs) = ensure_self_as s (c ∷ cs)

-- `UpdateFromPrefix` of a user.
unfoldable pub update_from_prefix : User → Bytes → User
update_from_prefix u source =
    let (nick, user, host) = split_userhost source in
    set_identity (record u { nick = if is_empty nick then u.nick else nick }) user host

-- `ServerName`
abbrev pub server_name : Bytes
server_name = codes "gobnc.masterbofh.org"

-- `Prefix`
unfoldable pub prefix : User → Bytes
prefix u =
    if not (is_empty u.host)
    then (if is_empty u.user
        then u.nick ++ b'@' ∷ u.host
        else u.nick ++ b'!' ∷ (u.user ++ b'@' ∷ u.host))
    else if is_empty u.user
    then u.nick
    else u.nick ++ b'!' ∷ (u.user ++ b'@' ∷ server_name)
