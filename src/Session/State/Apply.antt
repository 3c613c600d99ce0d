-- ===== src/Session/State/Apply.antt =====
-- internal/session/state.go: `applyState`. What it does after the lock is a list of effects.
use go_bnc.Session.State.{SessionState, user_at, Notes, nothing}
use go_bnc.Session.State.Users.{touch_user}
use go_bnc.Session.State.Commands.{
  state_join, state_part_kick, state_quit, state_topic, state_nick, state_away, state_chghost,
  state_account, state_mode,
}
use go_bnc.Irc.Message.{Message}
use go_bnc.Session.State.Numerics.{
  state_001, state_002, state_003, state_004, state_005, state_221, state_301, state_305, state_306,
  state_332, state_352, state_353, state_366, state_302, state_381, state_396,
}
use go_bnc.Keeper.Blob.{BlobMode, append, replace}
use go_bnc.Base.{
  Bool, Bytes, List, Option, [], codes, false, if◌then◌else◌, is_empty, none, some, text_eq, true,
  ◌++◌, ◌||◌, ◌∷◌,
}

-- The calls of `SetIRCd`, `persistChannel`, `pushChannelBlobFromStore`, `persistRemoveChannel` and
-- `pushBlob`.
pub data Effect : Type 0 where
  set_ircd : Bytes → Effect
  persist_channel : Bytes → Bytes → Effect
  push_from_store : Bytes → Effect
  remove_channel : Bytes → Effect
  push_blob : Bytes → BlobMode → List Bytes → Effect

-- The commands that `applyState` tells apart.
pub data Change : Type 0 where
  joined parted quitted topic_set renamed gone_away host_changed account_changed mode_set : Change
  welcomed your_host created my_info supported umode_is away_reply user_hosts : Change
  back_again now_away topic_reply who_answer names_answer names_end oper_up host_hidden : Change
  unknown : Change

-- The switch of `applyState`.
unfoldable pub change_from : List (Bytes × Change) → Bytes → Change
change_from [] command = unknown
change_from ((c, ch) ∷ rest) command = if text_eq c command then ch else change_from rest command

abbrev pub changes_table : List (Bytes × Change)
changes_table =
    (codes "JOIN", joined)
    ∷ (codes "PART", parted)
    ∷ (codes "KICK", parted)
    ∷ (codes "QUIT", quitted)
    ∷ (codes "TOPIC", topic_set)
    ∷ (codes "NICK", renamed)
    ∷ (codes "AWAY", gone_away)
    ∷ (codes "CHGHOST", host_changed)
    ∷ (codes "ACCOUNT", account_changed)
    ∷ (codes "MODE", mode_set)
    ∷ (codes "001", welcomed)
    ∷ (codes "002", your_host)
    ∷ (codes "003", created)
    ∷ (codes "004", my_info)
    ∷ (codes "005", supported)
    ∷ (codes "221", umode_is)
    ∷ (codes "301", away_reply)
    ∷ (codes "302", user_hosts)
    ∷ (codes "305", back_again)
    ∷ (codes "306", now_away)
    ∷ (codes "332", topic_reply)
    ∷ (codes "352", who_answer)
    ∷ (codes "353", names_answer)
    ∷ (codes "366", names_end)
    ∷ (codes "381", oper_up)
    ∷ (codes "396", host_hidden)
    ∷ []

unfoldable pub change_of : Bytes → Change
change_of command = change_from changes_table command

-- A change that pushes nothing.
abbrev pub quietly : SessionState → Option (SessionState × Notes)
quietly s = some (s, nothing)

-- A change that pushes nothing, unless it panics.
unfoldable pub kept : Option SessionState → Option (SessionState × Notes)
kept none = none
kept (some s) = quietly s

-- The cases of the switch; `none` stands for a panic.
unfoldable pub change : Change → SessionState → Message → Option (SessionState × Notes)
change joined s msg = state_join s msg
change parted s msg = state_part_kick s msg
change quitted s msg = quietly (state_quit s msg)
change topic_set s msg = kept (state_topic s msg)
change renamed s msg = some (state_nick s msg)
change gone_away s msg = kept (state_away s msg)
change host_changed s msg = state_chghost s msg
change account_changed s msg = kept (state_account s msg)
change mode_set s msg = state_mode s msg
change welcomed s msg = state_001 s msg
change your_host s msg = state_002 s msg
change created s msg = state_003 s msg
change my_info s msg = state_004 s msg
change supported s msg = some (state_005 s msg)
change umode_is s msg = quietly (state_221 s msg)
change away_reply s msg = kept (state_301 s msg)
change user_hosts s msg = some (state_302 s msg)
change back_again s msg = quietly (state_305 s)
change now_away s msg = quietly (state_306 s)
change topic_reply s msg = kept (state_332 s msg)
change who_answer s msg = kept (state_352 s msg)
change names_answer s msg = quietly (state_353 s msg)
change names_end s msg = kept (state_366 s msg)
change oper_up s msg = quietly (state_381 s)
change host_hidden s msg = some (state_396 s msg)
change unknown s msg = quietly s

-- The cases that overwrite `blobCloak`, with nil too.
unfoldable pub sets_cloak : Change → Bool
sets_cloak host_changed = true
sets_cloak user_hosts = true
sets_cloak host_hidden = true
sets_cloak _ = false

-- The host of our own user, where the source of the message has just changed it.
unfoldable pub source_cloak : SessionState → SessionState → Option Bytes
source_cloak before s =
    let old_host = (user_at before before.self).host in
    let new_host = (user_at s s.self).host in
    if is_empty new_host || text_eq new_host old_host then none else some new_host

unfoldable pub each {ℓ} : {A : Type ℓ} → (A → Effect) → List A → List Effect
each f [] = []
each f (x ∷ xs) = f x ∷ each f xs

unfoldable pub push_text : Bytes → Option Bytes → List Effect
push_text key none = []
push_text key (some text) = push_blob key replace (text ∷ []) ∷ []

unfoldable pub push_welcome : Option (Bytes × List Bytes) → List Effect
push_welcome none = []
push_welcome (some (key, params)) =
    push_blob key (if text_eq key (codes "isupport") then append else replace) params ∷ []

unfoldable pub report_ircd : Option Bytes → List Effect
report_ircd none = []
report_ircd (some family) = set_ircd family ∷ []

-- What `applyState` does with its notes.
unfoldable pub effects_of : Notes → Option Bytes → List Effect
effects_of notes cloak =
    report_ircd notes.detected
    ++ (each (λ p. persist_channel p.0 p.1) notes.persist
        ++ (each push_from_store notes.blob_only
            ++ (each remove_channel notes.remove
                ++ (push_welcome notes.welcome
                    ++ (push_text (codes "uplink-server") notes.uplink_source
                        ++ (push_text (codes "cloak") cloak
                            ++ push_text (codes "self-nick") notes.own_nick))))))

-- `if msg.Source != ""`
unfoldable pub note_source : SessionState → Message → SessionState
note_source s msg = if is_empty msg.source then s else (touch_user s msg.source).0

unfoldable pub finish :
    Change → Option Bytes → Option (SessionState × Notes) → Option (SessionState × List Effect)
finish c cloak none = none
finish c cloak (some (s, notes)) =
    some (s, effects_of notes (if sets_cloak c then notes.cloak else cloak))

-- `applyState`
unfoldable pub apply_state : SessionState → Message → Option (SessionState × List Effect)
apply_state s msg =
    let sourced = note_source s msg in
    let c = change_of msg.command in finish c (source_cloak s sourced) (change c sourced msg)
