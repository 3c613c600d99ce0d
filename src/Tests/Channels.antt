-- ===== src/Tests/Channels.antt =====
-- A session that joins a channel, and the prefix of a user.
use go_bnc.Session.State.{User, fresh_user, SessionState}
use go_bnc.Session.State.Users.{prefix, server_name, split_userhost, touch_parts, touch_user}
use go_bnc.Session.State.Commands.{join_user, join_if_known, state_join}
use go_bnc.Irc.Message.{Message, contains_byte}
use go_bnc.Irc.Isupport.{new_isupport}
use go_bnc.Session.State.Apply.{apply_state, Effect, joined, change_of, change, finish, change_from}
use go_bnc.Session.State.Consistent.{IsConsistent, Keyed, Known, nick_at}
use go_bnc.Session.State.Consistent.Preserved.{apply_state-IsConsistent}
use go_bnc.Session.State.Prefix.{split_userhost-prefix}
use go_bnc.Irc.CaseMap.{ascii, fold, fold_byte, fold_ascii}
use go_bnc.Base.{
  Bool-cases, List, [], arith, byte_key, codes, cut_byte, if◌then◌else◌, inl, inr, is_empty, lookup,
  none, refl, some, subst, sym, text_eq, text_eq_iff, text_key, ◌∷◌, ◌≡◌,
}

abbrev alone : SessionState
alone = record {
  self = 0;
  users = (codes "al", 0) ∷ [];
  heap = fresh_user (codes "al") ∷ [];
  channels = [];
  pending_join_keys = (codes "#c", codes "key") ∷ [];
  isupport = record new_isupport { case_mapping = ascii };
  uplink_server = [];
  rpl_002 = [];
  rpl_003 = [];
  rpl_004 = [];
  ircd = [];
}

abbrev own_join : Message
own_join = record {
  raw = [];
  tags = [];
  source = codes "Al!a@host";
  command = codes "JOIN";
  params = codes "#C" ∷ [];
}

alone-Keyed : Keyed alone.isupport.case_mapping alone.users alone.heap
unfolding fold fold_byte fold_ascii text_eq lookup fresh_user
alone-Keyed k r found = elim (Bool-cases (text_eq (codes "al") k)) [
  | inl e ↦
      let it : codes "al" ≡ k = (text_eq_iff (codes "al") k).0 e in
      let zero : r ≡ 0 = ground (arith, found, e) in
      (
        omega (arith, zero),
        subst (λ x. fold alone.isupport.case_mapping (nick_at alone.heap x) ≡ k) (sym zero) it,
      )
  | inr e ↦ absurd (ground (arith, found, e))
]

alone-Known : Known alone.users alone.channels
unfolding lookup
alone-Known name ch found = absurd (ground (arith, found))

alone-IsConsistent : IsConsistent alone
alone-IsConsistent = record { self_there = omega arith; keyed = alone-Keyed; known = alone-Known }

own_join-joined : change_of own_join.command ≡ joined
unfolding change_of change_from text_eq
own_join-joined = refl

abbrev joined_state : SessionState × List Effect
joined_state = elim (apply_state alone own_join) as (λ _. SessionState × List Effect) [
  | none ↦ (alone, [])
  | some after ↦ after
]

apply_state-IsConsistent_example : IsConsistent joined_state.0
unfolding apply_state finish change change_of change_from text_eq state_join join_if_known join_user
    touch_user contains_byte touch_parts split_userhost cut_byte
apply_state-IsConsistent_example =
    apply_state-IsConsistent alone own_join joined_state.0 joined_state.1 alone-IsConsistent
      (λ it. ground (arith, it, own_join-joined))
      (λ it. absurd (ground (arith, it, own_join-joined))) refl

abbrev al : User
al = record (fresh_user (codes "al")) { user = codes "a" }

split_userhost-prefix_example :
    split_userhost (prefix al)
    ≡ (al.nick, al.user, if is_empty al.host then server_name else al.host)
unfolding fresh_user is_empty
split_userhost-prefix_example = split_userhost-prefix al ((refl, (refl, tt))) ((refl, tt)) refl
