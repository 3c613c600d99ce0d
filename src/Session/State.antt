-- ===== src/Session/State.antt =====
-- internal/session/session.go and user.go: what a session knows of its network. A `*User` is an
-- index into `heap`, since `self` and the map `users` may share one; `New` sets `self`, and nothing
-- makes it nil again. A set of nicks is the list of its members.
pub mod Users
pub mod Commands
pub mod Numerics
pub mod Apply
pub mod Consistent
pub mod Panics
pub mod Prefix
use go_bnc.Irc.Message.{Tags, contains_byte}
use go_bnc.Keeper.Blob.{BlobMode}
use go_bnc.Irc.Modes.{ChannelModes, new_channel_modes, user_mode_string, apply_user_modes}
use go_bnc.Irc.Isupport.{Isupport}
use go_bnc.Irc.CaseMap.{fold}
use go_bnc.Base.{
  Bool, Bytes, List, Option, [], false, get_or, if◌then◌else◌, none, set, text_eq, ℕ, ◌||◌, ◌∷◌,
}

pub record User : Type 0 where
  pub nick : Bytes
  pub user : Bytes
  pub host : Bytes
  pub away : Bool
  pub oper : Bool
  pub bot : Bool
  pub is_secure : Bool
  pub account : Bytes
  pub umodes : List ℕ
  pub away_message : Bytes

-- `&User{Nick: nick}`
unfoldable pub fresh_user : Bytes → User
fresh_user nick = record {
  nick = nick;
  user = [];
  host = [];
  away = false;
  oper = false;
  bot = false;
  is_secure = false;
  account = [];
  umodes = [];
  away_message = [];
}

pub record ChannelState : Type 0 where
  pub name : Bytes
  pub key : Bytes
  pub topic : Bytes
  pub modes : ChannelModes
  pub members : List Bytes
  pub roster_known : Bool

unfoldable pub fresh_channel : Bytes → ChannelState
fresh_channel name = record {
  name = name;
  key = [];
  topic = [];
  modes = new_channel_modes;
  members = [];
  roster_known = false;
}

-- The fields of `Session` that `applyState` reads and writes.
pub record SessionState : Type 0 where
  pub self : ℕ
  pub users : List (Bytes × ℕ)
  pub heap : List User
  pub channels : List (Bytes × ChannelState)
  pub pending_join_keys : Tags
  pub isupport : Isupport
  pub uplink_server : Bytes
  pub rpl_002 : List Bytes
  pub rpl_003 : List Bytes
  pub rpl_004 : List Bytes
  pub ircd : Bytes

-- `cm.Canonical(nick)`
unfoldable pub key_of : SessionState → Bytes → Bytes
key_of s nick = fold s.isupport.case_mapping nick

-- The user behind a pointer, and a write through it.
unfoldable pub user_at : SessionState → ℕ → User
user_at s r = get_or s.heap r (fresh_user [])

unfoldable pub put_user : SessionState → ℕ → User → SessionState
put_user s r u = record s { heap = set s.heap r u }

unfoldable pub self_nick : SessionState → Bytes
unfolding user_at
self_nick s = (user_at s s.self).nick

-- A write to a channel that is there.
unfoldable pub update {ℓ} : {V : Type ℓ} → Bytes → (V → V) → List (Bytes × V) → List (Bytes × V)
update k f [] = []
update k f ((j, v) ∷ m) = if text_eq j k then (j, f v) ∷ m else (j, v) ∷ update k f m

unfoldable pub with_channel : SessionState → Bytes → (ChannelState → ChannelState) → SessionState
unfolding update
with_channel s k f = record s { channels = update k f s.channels }

-- What `applyState` collects under the lock and does after it. A blob value is the list of texts
-- that is stored, as JSON or as it is.
pub record Notes : Type 0 where
  pub persist : List (Bytes × Bytes)
  pub blob_only : List Bytes
  pub remove : List Bytes
  pub welcome : Option (Bytes × List Bytes)
  pub uplink_source : Option Bytes
  pub cloak : Option Bytes
  pub own_nick : Option Bytes
  pub detected : Option Bytes

abbrev pub nothing : Notes
nothing = record {
  persist = [];
  blob_only = [];
  remove = [];
  welcome = none;
  uplink_source = none;
  cloak = none;
  own_nick = none;
  detected = none;
}

-- `UModeString` and `ApplyUModes` of a user.
unfoldable pub umode_string : User → Bytes
unfolding user_mode_string
umode_string u = user_mode_string u.umodes

unfoldable pub apply_umodes : User → Bytes → User
unfolding apply_user_modes contains_byte
apply_umodes u modestring =
    let modes = apply_user_modes u.umodes modestring in
    record u {
      umodes = modes;
      bot = contains_byte b'B' modes || contains_byte b'b' modes || u.bot;
      is_secure = contains_byte b'Z' modes || contains_byte b'z' modes || u.is_secure;
    }

-- `ApplyWHOFlags`
unfoldable pub apply_who_flags : User → Bytes → User
unfolding contains_byte
apply_who_flags u [] = u
apply_who_flags u (c ∷ cs) =
    let flags = c ∷ cs in
    record u {
      away = contains_byte b'G' flags;
      oper = contains_byte b'*' flags || u.oper;
      bot = contains_byte b'B' flags || u.bot;
      is_secure = contains_byte b's' flags || contains_byte b'S' flags || u.is_secure;
    }
