-- ===== src/Session/State/Consistent/Preserved.antt =====
-- internal/session/state.go: the invariant under `applyState`.
use go_bnc.Session.State.{SessionState, Notes}
use go_bnc.Session.State.Users.{ensure_user, touch_user}
use go_bnc.Session.State.Commands.{state_chghost, state_account}
use go_bnc.Irc.Message.{Message}
use go_bnc.Irc.Message.Access.{param}
use go_bnc.Irc.Isupport.{Isupport, parse_005}
use go_bnc.Session.State.Numerics.{state_301, state_352}
use go_bnc.Session.State.Apply.{
  apply_state, Effect, Change, joined, parted, quitted, topic_set, renamed, gone_away, host_changed,
  account_changed, mode_set, welcomed, your_host, created, my_info, supported, umode_is, away_reply,
  user_hosts, back_again, now_away, topic_reply, who_answer, names_answer, names_end, oper_up,
  host_hidden, unknown, change_of, change, source_cloak, note_source, finish,
}
use go_bnc.Session.State.Consistent.{IsConsistent, Serves, Serves-IsConsistent}
use go_bnc.Session.State.Consistent.Served.{
  Served, Serves-refl, ensure_user-Served, touch_user-Served,
}
use go_bnc.Session.State.Consistent.Joins.{Survives, join-Survives, names-IsConsistent}
use go_bnc.Session.State.Consistent.Renames.{nick-IsConsistent}
use mathlib.Core.Option.{some-injective}
use go_bnc.Session.State.Consistent.Leaves.{part_kick-Survives, quit-IsConsistent}
use go_bnc.Session.State.Consistent.Apply.{
  kept-Survives, away-Stays, topic-Stays, chghost_of-Survives, account_of-Stays, away_of-Stays,
  mode-Survives, who-Stays,
}
use go_bnc.Session.State.Consistent.Numerics.{
  your_host-Survives, created-Survives, my_info-Survives, supported-IsConsistent,
  umode_is-IsConsistent, back-IsConsistent, now_away-IsConsistent, oper-IsConsistent,
  host-IsConsistent, user_hosts-IsConsistent, topic_reply-Stays, names_end-Stays,
}
use go_bnc.Session.State.Commands.{state_away, state_topic}
use go_bnc.Session.State.Numerics.{state_332, state_366}
use go_bnc.Base.{
  Bool-cases, Bytes, List, Option, ap, arith, inl, inr, is_empty, none, refl, some, subst, sym, ℕ,
  ◌≡◌, ◌≢◌,
}

change-Survives :
    (c : Change) (s : SessionState) (msg : Message)
    → c ≢ welcomed
    → (c ≡ supported → (parse_005 s.isupport msg.params).case_mapping ≡ s.isupport.case_mapping)
    → IsConsistent s
    → Survives (change c s msg)
unfolding change state_chghost state_account state_301
change-Survives joined s msg not_001 mapping good = join-Survives s msg good
change-Survives parted s msg not_001 mapping good = part_kick-Survives s msg good
change-Survives quitted s msg not_001 mapping good = quit-IsConsistent s msg good
change-Survives topic_set s msg not_001 mapping good =
    kept-Survives (state_topic s msg) (topic-Stays s msg good)
change-Survives renamed s msg not_001 mapping good = nick-IsConsistent s msg good
change-Survives gone_away s msg not_001 mapping good =
    kept-Survives (state_away s msg) (away-Stays s msg good)
change-Survives host_changed s msg not_001 mapping good =
    chghost_of-Survives s msg (touch_user s msg.source) good (touch_user-Served s msg.source good)
change-Survives account_changed s msg not_001 mapping good =
    kept-Survives (state_account s msg)
      (account_of-Stays s msg (touch_user s msg.source) good (touch_user-Served s msg.source good))
change-Survives mode_set s msg not_001 mapping good = mode-Survives s msg good
change-Survives welcomed s msg not_001 mapping good = absurd (not_001 refl)
change-Survives your_host s msg not_001 mapping good = your_host-Survives s msg good
change-Survives created s msg not_001 mapping good = created-Survives s msg good
change-Survives my_info s msg not_001 mapping good = my_info-Survives s msg good
change-Survives supported s msg not_001 mapping good =
    supported-IsConsistent s msg (mapping refl) good
change-Survives umode_is s msg not_001 mapping good = umode_is-IsConsistent s msg good
change-Survives away_reply s msg not_001 mapping good = kept-Survives (state_301 s msg) (
    away_of-Stays s msg (ensure_user s (param msg 1)) good
      (ensure_user-Served s (param msg 1) good))
change-Survives user_hosts s msg not_001 mapping good = user_hosts-IsConsistent s msg good
change-Survives back_again s msg not_001 mapping good = back-IsConsistent s good
change-Survives now_away s msg not_001 mapping good = now_away-IsConsistent s good
change-Survives topic_reply s msg not_001 mapping good =
    kept-Survives (state_332 s msg) (topic_reply-Stays s msg good)
change-Survives who_answer s msg not_001 mapping good =
    kept-Survives (state_352 s msg) (who-Stays s msg good)
change-Survives names_answer s msg not_001 mapping good = names-IsConsistent s msg good
change-Survives names_end s msg not_001 mapping good =
    kept-Survives (state_366 s msg) (names_end-Stays s msg good)
change-Survives oper_up s msg not_001 mapping good = oper-IsConsistent s good
change-Survives host_hidden s msg not_001 mapping good = host-IsConsistent s msg good
change-Survives unknown s msg not_001 mapping good = good

source-Serves : (s : SessionState) (msg : Message) → IsConsistent s → Serves s (note_source s msg)
unfolding note_source
source-Serves s msg good = elim (Bool-cases (is_empty msg.source)) [
  | inl e ↦
      let same : note_source s msg ≡ s = ground arith in
      subst (Serves s) (sym same) (Serves-refl s good)
  | inr e ↦
      let same : note_source s msg ≡ (touch_user s msg.source).0 = ground arith in
      subst (Serves s) (sym same)
        (served_by (touch_user s msg.source) (touch_user-Served s msg.source good))
]
  where
    served_by : (o : SessionState × Option ℕ) → Served s o → Serves s o.0
    served_by (t, none) serves = serves
    served_by (t, some r) (serves, shown) = serves

finish-IsConsistent :
    (c : Change) (cloak : Option Bytes) (o : Option (SessionState × Notes)) (s' : SessionState)
    (effects : List Effect)
    → Survives o
    → finish c cloak o ≡ some (s', effects)
    → IsConsistent s'
unfolding finish
finish-IsConsistent c cloak none s' effects survives done = absurd (ground (arith, done))
finish-IsConsistent c cloak (some (t, notes)) s' effects survives done =
    let same : t ≡ s' = ap (λ (p : SessionState × List Effect). p.0) (some-injective _ _ done) in
    subst IsConsistent same survives

-- The users and the channels of a session stay consistent under each message: the user of the
-- session is there, each entry of the map of users is under the folded nick of the user that it
-- points to, and each member of a channel is a known user. It holds of every message that
-- `applyState` handles without a panic, but for 001, and for a 005 that changes the case mapping.
pub apply_state-IsConsistent :
    (s : SessionState) (msg : Message) (s' : SessionState) (effects : List Effect)
    → IsConsistent s
    → change_of msg.command ≢ welcomed
    → (change_of msg.command ≡ supported
        → (parse_005 s.isupport msg.params).case_mapping ≡ s.isupport.case_mapping)
    → apply_state s msg ≡ some (s', effects)
    → IsConsistent s'
unfolding apply_state
apply_state-IsConsistent s msg s' effects good not_001 mapping done =
    let sourced = note_source s msg in
    let serves = source-Serves s msg good in
    let c = change_of msg.command in
    finish-IsConsistent c (source_cloak s sourced) (change c sourced msg) s' effects
      (change-Survives c sourced msg not_001
        (λ it.
          subst (λ (i : Isupport). (parse_005 i msg.params).case_mapping ≡ i.case_mapping)
            (sym serves.same_support) (mapping it))
        (Serves-IsConsistent good serves))
      done
