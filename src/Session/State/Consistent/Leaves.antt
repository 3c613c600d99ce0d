-- ===== src/Session/State/Consistent/Leaves.antt =====
-- internal/session: the invariant under PART, KICK and QUIT.
use go_bnc.Session.State.{ChannelState, SessionState, key_of, self_nick, with_channel}
use go_bnc.Session.State.Users.{map_values, any_member, maybe_forget_user}
use go_bnc.Session.State.Commands.{state_part_kick, quit_channel, state_quit}
use go_bnc.Irc.Message.{Message}
use go_bnc.Irc.Message.Access.{param, nick_of}
use go_bnc.Irc.CaseMap.{equal}
use go_bnc.Irc.Modes.{drop_member}
use go_bnc.Session.State.Consistent.{Known, IsConsistent}
use go_bnc.Session.State.Consistent.Channels.{
  Known-map_values, Known-erase, channels-IsConsistent, with_channel-IsConsistent, Keyed-erase,
  Known-map, any_member-lookup,
}
use go_bnc.Session.State.Consistent.Commands.{text_in-drop_member, drop-Admits}
use go_bnc.Session.State.Consistent.Joins.{Survives}
use go_bnc.Session.State.{nothing}
use go_bnc.Base.{
  Bool-cases, Bytes, List, Option-cases, [], ap, arith, byte_key, codes, erase, false, has_some,
  if_both, if◌then◌else◌, inl, inr, lookup, lookup-erase, not, refl, some, subst, sym, text_eq,
  text_eq_iff, text_in, text_key, true, ℕ, ◌&&◌, ◌∙◌, ◌∷◌, ◌≡◌,
}

users-IsConsistent :
    (s : SessionState) (k : Bytes)
    → IsConsistent s
    → Known (erase k s.users) s.channels
    → IsConsistent (record s { users = erase k s.users })
users-IsConsistent s k good known = record {
  self_there = good.self_there;
  keyed = Keyed-erase s.isupport.case_mapping s.users s.heap k good.keyed;
  known = known;
}

Known-forget :
    (users : List (Bytes × ℕ)) (k : Bytes) (channels : List (Bytes × ChannelState))
    → any_member k channels ≡ false
    → Known users channels
    → Known (erase k users) channels
Known-forget users k channels gone known name ch found m is_in = elim (Bool-cases (text_eq k m)) [
  | inl e ↦
      let same : m ≡ k = ground (arith, text_eq_iff k m) in
      absurd (
        ground (
          arith,
          any_member-lookup k channels name ch found
              (ap (λ x. text_in x ch.members) (sym same) ∙ is_in),
        ))
  | inr e ↦
      let kept : lookup m (erase k users) ≡ lookup m users =
        ground (arith, lookup-erase k m users) in
      ap has_some kept ∙ known name ch found m is_in
]

maybe_forget-IsConsistent :
    (s : SessionState) (nick : Bytes) → IsConsistent s → IsConsistent (maybe_forget_user s nick)
unfolding maybe_forget_user
maybe_forget-IsConsistent s nick good =
    let gone : SessionState = record s { users = erase (key_of s nick) s.users } in
    elim (Bool-cases (any_member (key_of s nick) s.channels)) [
      | inl e ↦
          if_both IsConsistent _ {y = if any_member (key_of s nick) s.channels then s else gone}
            good (rw e good)
      | inr e ↦
          if_both IsConsistent _ {y = if any_member (key_of s nick) s.channels then s else gone}
            good
            (rw e (
              users-IsConsistent s (key_of s nick) good
                (Known-forget s.users (key_of s nick) s.channels e good.known)))
    ]

pub part_kick-Survives :
    (s : SessionState) (msg : Message) → IsConsistent s → Survives (state_part_kick s msg)
unfolding state_part_kick
part_kick-Survives s msg good =
    let k = key_of s (param msg 0) in
    let nick : Bytes = if text_eq msg.command (codes "KICK") then param msg 1 else nick_of msg in
    let left =
      with_channel s k (λ c. record c { members = drop_member (key_of s nick) c.members }) in
    let left_good : IsConsistent left =
      with_channel-IsConsistent s k
        (λ c. record c { members = drop_member (key_of s nick) c.members }) good
        (λ ch.
          drop-Admits s.users (key_of s nick) ch
            (record ch { members = drop_member (key_of s nick) ch.members }) refl) in
    elim (Option-cases (lookup k s.channels)) [
      | inl e ↦
          let same : state_part_kick s msg ≡ some (s, nothing) = ground arith in
          subst Survives (sym same) good
      | inr (ch, e) ↦ elim (Bool-cases (equal s.isupport.case_mapping nick (self_nick s))) [
        | inl mine ↦
            let same : state_part_kick s msg
                ≡ some (
                  record left { channels = erase k left.channels },
                  record nothing { remove = param msg 0 ∷ [] },
                ) =
              ground arith in
            subst Survives (sym same) (
              channels-IsConsistent left (erase k left.channels) left_good
                (Known-erase left.users k left.channels left_good.known))
        | inr theirs ↦
            let same : state_part_kick s msg ≡ some (maybe_forget_user left nick, nothing) =
              ground arith in
            subst Survives (sym same) (maybe_forget-IsConsistent left nick left_good)
      ]
    ]

quit-carries :
    (users : List (Bytes × ℕ)) (k : Bytes) (ch : ChannelState)
    → ((m : Bytes) → text_in m ch.members ≡ true → has_some (lookup m users) ≡ true)
    → (m : Bytes) → text_in m (quit_channel k ch).members ≡ true
    → has_some (lookup m (erase k users)) ≡ true
unfolding quit_channel
quit-carries users k ch knowns m is_in =
    let is_in' : (text_in m ch.members && not (text_eq m k)) ≡ true =
      sym (text_in-drop_member m k ch.members) ∙ is_in in
    let kept : lookup m (erase k users) ≡ lookup m users =
      ground (arith, lookup-erase k m users, text_eq_iff k m, text_eq_iff m k) in
    ap has_some kept ∙ knowns m (ground arith)

pub quit-IsConsistent :
    (s : SessionState) (msg : Message) → IsConsistent s → IsConsistent (state_quit s msg)
unfolding state_quit
quit-IsConsistent s msg good =
    let k = key_of s (nick_of msg) in
    if_both IsConsistent _
      (channels-IsConsistent s (map_values (quit_channel k) s.channels) good (
        Known-map_values s.users (quit_channel k)
          (λ ch. drop-Admits s.users k ch (quit_channel k ch) (unfold quit_channel in refl))
          s.channels good.known))
      (record {
        self_there = good.self_there;
        keyed = Keyed-erase s.isupport.case_mapping s.users s.heap k good.keyed;
        known =
            Known-map s.users (erase k s.users) (quit_channel k) s.channels (quit-carries s.users k)
              good.known;
      })
