-- ===== src/Session/State/Consistent/Renames.antt =====
-- internal/session: the invariant under NICK.
use go_bnc.Session.State.Consistent.Channels.{Known-map, channels-IsConsistent}
use go_bnc.Session.State.Consistent.Served.{Served, ensure_user-Served}
use go_bnc.Session.State.{User, fresh_user, ChannelState, SessionState, key_of, user_at, put_user}
use go_bnc.Session.State.Users.{
  rename_at, ensure_user, move_member, rename_in, map_values, rename_known, rename_user,
}
use go_bnc.Session.State.Commands.{state_nick}
use go_bnc.Irc.Message.{Message}
use go_bnc.Irc.Message.Access.{param, trailing, nick_of}
use go_bnc.Irc.CaseMap.{fold, CaseMapping}
use go_bnc.Irc.Modes.{drop_member}
use go_bnc.Session.State.Consistent.{
  nick_at, Keyed, IsConsistent, Grows, Serves, Serves-IsConsistent, Known,
}
use go_bnc.Session.State.Consistent.Commands.{text_in-add_member, text_in-drop_member}
use go_bnc.Base.{
  Bool-cases, Bytes, List, Option, Option-cases, [], ap, arith, byte_key, erase, false,
  get_or-set_ne, get_or-set_self, has_some, inl, inr, insert, length, length-set, lookup,
  lookup-erase, lookup-insert, none, refl, set, some, subst, sym, text_eq, text_eq_iff, text_in,
  text_key, true, ℕ, ◌<◌, ◌∙◌, ◌∷◌, ◌≡◌, ◌≢◌,
}

-- What the map of users and the heap become, where the old nick is known.
module _ (cm : CaseMapping) (users : List (Bytes × ℕ)) (heap : List User) (old new : Bytes) (r : ℕ)
    (u : User) (keyed : Keyed cm users heap) (found : lookup old users ≡ some r)
    (named : fold cm u.nick ≡ new) where
  Keyed-rename : Keyed cm (insert new r (erase old users)) (set heap r u)
  Keyed-rename k q entry =
      let (in_heap, folded) = keyed old r found in
      elim (Bool-cases (text_eq new k)) [
        | inl e ↦
            let it : new ≡ k = ground (arith, text_eq_iff new k) in
            let same_user : r ≡ q = ground (arith, lookup-insert new k r (erase old users)) in
            (
              subst (λ x. x < length (set heap r u)) same_user (omega (arith, length-set heap r u)),
              subst (λ x. fold cm (nick_at (set heap r u) x) ≡ k) same_user
                  (ap (λ (v : User). fold cm v.nick)
                      (get_or-set_self heap r u (fresh_user []) in_heap)
                    ∙ named
                    ∙ it),
            )
        | inr ne ↦
            let was : lookup k users ≡ some q =
              ground (arith, lookup-insert new k r (erase old users), lookup-erase old k users) in
            let not_old : text_eq old k ≡ false =
              ground (arith, lookup-insert new k r (erase old users), lookup-erase old k users) in
            let (q_in_heap, q_folded) = keyed k q was in
            let apart : r ≢ q = λ same. cc (
              (text_eq_iff old k).1
                  (sym folded ∙ ap (λ x. fold cm (nick_at heap x)) same ∙ q_folded),
              not_old,
            ) in
            (
              omega (arith, length-set heap r u),
              ap (λ (v : User). fold cm v.nick) (get_or-set_ne heap r q u (fresh_user []) apart)
                  ∙ q_folded,
            )
      ]

  rename-carries :
      (ch : ChannelState)
      → ((m : Bytes) → text_in m ch.members ≡ true → has_some (lookup m users) ≡ true)
      → (m : Bytes) → text_in m (rename_in old new ch).members ≡ true
      → has_some (lookup m (insert new r (erase old users))) ≡ true
  unfolding rename_in move_member
  rename-carries ch knowns m is_in =
      let entry = lookup-insert new m r (erase old users) in
      let rest = lookup-erase old m users in
      elim (Bool-cases (text_eq new m)) [
        | inl e ↦ ground (arith, entry)
        | inr ne ↦
            let stays : ((text_in m ch.members ≡ true) × (text_eq old m ≡ false)) = ground (
              arith,
              text_in-add_member m new (drop_member old ch.members),
              text_in-drop_member m old ch.members,
              text_eq_iff m new,
              text_eq_iff new m,
              text_eq_iff m old,
              text_eq_iff old m,
              ap (λ x. text_in x ch.members) {x = old} {y = m},
            ) in
            ground (arith, entry, rest, knowns m stays.0)
      ]

-- A nick that nobody is known by is in no channel.
unknown-carries :
    (users users' : List (Bytes × ℕ)) (old new : Bytes)
    → lookup old users ≡ none
    → Grows users users'
    → (ch : ChannelState)
    → ((m : Bytes) → text_in m ch.members ≡ true → has_some (lookup m users) ≡ true)
    → (m : Bytes) → text_in m (rename_in old new ch).members ≡ true
    → has_some (lookup m users') ≡ true
unfolding rename_in move_member
unknown-carries users users' old new missing grows ch knowns m is_in =
    elim (Bool-cases (text_in old ch.members)) [
      | inl e ↦ absurd (ground (arith, knowns old e, missing))
      | inr e ↦ grows m (knowns m (ground arith))
    ]

rename_user-IsConsistent :
    (s : SessionState) (old_nick new_nick : Bytes)
    → IsConsistent s
    → IsConsistent (rename_user s old_nick new_nick)
unfolding rename_user rename_known
rename_user-IsConsistent s old_nick new_nick good =
    let old = key_of s old_nick in
    let new = key_of s new_nick in
    elim (Option-cases (lookup old s.users)) [
      | inl e ↦
          let t = (ensure_user s new_nick).0 in
          let served = Serves-of (ensure_user s new_nick) (ensure_user-Served s new_nick good) in
          let t_good : IsConsistent t = Serves-IsConsistent good served in
          let same : rename_user s old_nick new_nick
              ≡ record t { channels = map_values (rename_in old new) t.channels } =
            ground arith in
          subst IsConsistent (sym same) (
            channels-IsConsistent t (map_values (rename_in old new) t.channels) t_good (
              subst (λ c. Known t.users (map_values (rename_in old new) c))
                (sym served.same_channels)
                (Known-map s.users t.users (rename_in old new) s.channels
                  (unknown-carries s.users t.users old new e served.grows) good.known)))
      | inr (r, e) ↦
          let u : User = record (user_at s r) { nick = new_nick } in
          let users' = insert new r (erase old s.users) in
          let same : rename_user s old_nick new_nick ≡ record s {
            users = users';
            heap = set s.heap r u;
            channels = map_values (rename_in old new) s.channels;
          } =
            unfold rename_at put_user in ground arith in
          let named : fold s.isupport.case_mapping u.nick ≡ new = unfold key_of in refl in
          subst IsConsistent (sym same) (record {
            self_there = omega (arith, good.self_there, length-set s.heap r u);
            keyed =
                Keyed-rename s.isupport.case_mapping s.users s.heap old new r u good.keyed e named;
            known =
                Known-map s.users users' (rename_in old new) s.channels
                  (rename-carries s.isupport.case_mapping s.users s.heap old new r u good.keyed e
                    named)
                  good.known;
          })
    ]
  where
    Serves-of : (o : SessionState × Option ℕ) → Served s o → Serves s o.0
    Serves-of (t, none) serves = serves
    Serves-of (t, some r) (serves, shown) = serves

pub nick-IsConsistent :
    (s : SessionState) (msg : Message) → IsConsistent s → IsConsistent (state_nick s msg).0
unfolding state_nick
nick-IsConsistent s msg good =
    rename_user-IsConsistent s (nick_of msg)
      (elim (trailing msg) [ [] ↦ param msg 0 | c ∷ cs ↦ c ∷ cs ]) good
