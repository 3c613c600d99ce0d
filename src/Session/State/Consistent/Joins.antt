-- ===== src/Session/State/Consistent/Joins.antt =====
-- internal/session: the invariant under JOIN and the list of names.
use go_bnc.Session.State.{ChannelState, SessionState, key_of, user_at, with_channel, Notes}
use go_bnc.Session.State.Users.{ensure_known, ensure_user, touch_user}
use go_bnc.Session.State.Commands.{
  channel_name, open_channel, join_user, confirm_join, set_account, add_to_channel, join_as,
  join_if_known, state_join,
}
use go_bnc.Irc.Message.{Message, Tags}
use go_bnc.Irc.Message.Access.{param, trailing, nick_of}
use go_bnc.Irc.CaseMap.{fold}
use go_bnc.Irc.Modes.{add_member}
use go_bnc.Session.State.Numerics.{strip_prefixes, put_name, add_name, add_names, state_353}
use go_bnc.Session.State.Consistent.{IsConsistent, Serves-trans, Serves-IsConsistent}
use go_bnc.Session.State.Consistent.Users.{ensure_known-Found}
use go_bnc.Session.State.Consistent.Served.{
  Shown, Served, edit-IsConsistent, ensure_user-Served, touch_user-Served,
}
use go_bnc.Session.State.Consistent.Commands.{
  relabel-IsConsistent, open-IsConsistent, add-IsConsistent,
}
use go_bnc.Base.{
  Bool-cases, Bytes, List, Option, Option-cases, [], arith, byte_key, erase, fields, if_both, inl,
  inr, lookup, none, refl, some, subst, sym, text_key, ℕ, ◌==◌, ◌∷◌, ◌≡◌,
}

pending-IsConsistent :
    (s : SessionState) (keys' : Tags)
    → IsConsistent s
    → IsConsistent (record s { pending_join_keys = keys' })
pending-IsConsistent s keys' good = record {
  self_there = good.self_there;
  keyed = good.keyed;
  known = good.known;
}

confirm_join-IsConsistent :
    (s : SessionState) (name k : Bytes) → IsConsistent s → IsConsistent (confirm_join s name k).0
unfolding confirm_join
confirm_join-IsConsistent s name k good =
    let named = relabel-IsConsistent s k (λ ch. record ch { name = name }) (λ ch. refl) good in
    elim (Option-cases (lookup k s.pending_join_keys)) [
      | inl e ↦
          let same : (confirm_join s name k).0
              ≡ with_channel s k (λ ch. record ch { name = name }) =
            ground arith in
          subst IsConsistent (sym same) named
      | inr (join_key, e) ↦
          let keyed_ch : SessionState =
            with_channel (with_channel s k (λ ch. record ch { name = name })) k
              (λ ch. record ch { key = join_key }) in
          let same : (confirm_join s name k).0
              ≡ record keyed_ch { pending_join_keys = erase k s.pending_join_keys } =
            ground arith in
          subst IsConsistent (sym same) (
            pending-IsConsistent keyed_ch (erase k s.pending_join_keys)
              (relabel-IsConsistent _ k (λ ch. record ch { key = join_key }) (λ ch. refl) named))
    ]

set_account-IsConsistent :
    (s : SessionState) (msg : Message) (r : ℕ) → IsConsistent s → IsConsistent (set_account s msg r)
unfolding set_account
set_account-IsConsistent s msg r good = if_both IsConsistent _ good (
    if_both IsConsistent _ (edit-IsConsistent s r _ good refl)
      (if_both IsConsistent _ good (edit-IsConsistent s r _ good refl)))

join_as-IsConsistent :
    (s : SessionState) (msg : Message) (r : ℕ)
    → IsConsistent s
    → Shown s r
    → IsConsistent (join_as s msg r).0
unfolding join_as
join_as-IsConsistent s msg r good shown =
    let name = channel_name msg in
    let k = key_of s name in
    let nick_key = key_of s (user_at s r).nick in
    let joined_good : IsConsistent (add_to_channel s k nick_key) =
      unfold add_to_channel in
      add-IsConsistent s k nick_key (λ ch. record ch { members = add_member nick_key ch.members })
        (λ ch. refl) (ground (arith, shown.shown_entry)) good in
    let joined_state = add_to_channel s k nick_key in
    elim (Bool-cases (r == s.self)) [
      | inl mine ↦
          let same : (join_as s msg r).0 ≡ set_account (confirm_join joined_state name k).0 msg r =
            ground arith in
          subst IsConsistent (sym same) (
            set_account-IsConsistent _ msg r
              (confirm_join-IsConsistent joined_state name k joined_good))
      | inr other_user ↦
          let same : (join_as s msg r).0 ≡ set_account joined_state msg r = ground arith in
          subst IsConsistent (sym same) (set_account-IsConsistent joined_state msg r joined_good)
    ]

-- The invariant of a result that a panic may take the place of.
abbrev pub Survives : Option (SessionState × Notes) → Type 0
Survives none = Unit
Survives (some (s, notes)) = IsConsistent s

join_if_known-Survives :
    (s : SessionState) (msg : Message) (o : SessionState × Option ℕ)
    → IsConsistent s
    → Served s o
    → Survives (join_if_known msg o)
unfolding join_if_known
join_if_known-Survives s msg (s', none) good serves = tt
join_if_known-Survives s msg (s', some r) good (serves, shown) =
    join_as-IsConsistent s' msg r (Serves-IsConsistent good serves) shown

join_user-Served : (s : SessionState) (msg : Message) → IsConsistent s → Served s (join_user s msg)
unfolding join_user
join_user-Served s msg good =
    by_touch (touch_user s msg.source) (touch_user-Served s msg.source good)
  where
    by_touch :
        (t : SessionState × Option ℕ)
        → Served s t
        → Served s (elim t.1 [ none ↦ ensure_user t.0 (nick_of msg) | some r ↦ (t.0, some r) ])
    by_touch (t, some r) served = served
    by_touch (t, none) serves =
        after (ensure_user t (nick_of msg))
          (ensure_user-Served t (nick_of msg) (Serves-IsConsistent good serves))
      where
        after : (o : SessionState × Option ℕ) → Served t o → Served s o
        after (u, none) more = Serves-trans serves more
        after (u, some r) (more, shown) = (Serves-trans serves more, shown)

pub join-Survives :
    (s : SessionState) (msg : Message) → IsConsistent s → Survives (state_join s msg)
unfolding state_join
join-Survives s msg good =
    let name = channel_name msg in
    let opened = open-IsConsistent s name (key_of s name) good in
    let s' : SessionState = record s { channels = open_channel name (key_of s name) s.channels } in
    join_if_known-Survives s' msg (join_user s' msg) opened (join_user-Served s' msg opened)

members-put_name :
    (k : Bytes) (modes : List ℕ) (ch : ChannelState)
    → (put_name k modes ch).members ≡ add_member k ch.members
unfolding put_name
members-put_name k [] ch = refl
members-put_name k (m ∷ ms) ch = refl

add_name-IsConsistent :
    (channel : Bytes) (s : SessionState) (entry : List ℕ × Bytes)
    → IsConsistent s
    → IsConsistent (add_name channel s entry)
unfolding add_name key_of
add_name-IsConsistent channel s (modes, []) good = good
add_name-IsConsistent channel s (modes, c ∷ cs) good =
    let found = ensure_known-Found s (c ∷ cs) good in
    add-IsConsistent (ensure_known s (c ∷ cs)).0 channel (fold s.isupport.case_mapping (c ∷ cs))
      (put_name (fold s.isupport.case_mapping (c ∷ cs)) modes)
      (members-put_name (fold s.isupport.case_mapping (c ∷ cs)) modes) (ground (arith, found.entry))
      (Serves-IsConsistent good found.serves)

add_names-IsConsistent :
    (channel : Bytes) (s : SessionState) (ents : List Bytes)
    → IsConsistent s
    → IsConsistent (add_names channel s ents)
unfolding add_names
add_names-IsConsistent channel s [] good = good
add_names-IsConsistent channel s (ent ∷ ents) good =
    let entry = strip_prefixes s.isupport.modes.by_symbol ent in
    add_names-IsConsistent channel (add_name channel s entry) ents
      (add_name-IsConsistent channel s entry good)

pub names-IsConsistent :
    (s : SessionState) (msg : Message) → IsConsistent s → IsConsistent (state_353 s msg)
unfolding state_353
names-IsConsistent s msg good = if_both IsConsistent _ good (
    add_names-IsConsistent _ _ (fields (trailing msg))
      (open-IsConsistent s (param msg 2) (key_of s (param msg 2)) good))
