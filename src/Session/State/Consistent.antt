-- ===== src/Session/State/Consistent.antt =====
-- internal/session: the invariant of the users and the channels.
pub mod Users
pub mod Served
pub mod Channels
pub mod Commands
pub mod Joins
pub mod Leaves
pub mod Renames
pub mod Apply
pub mod Numerics
pub mod Preserved
use go_bnc.Session.State.{
  User, fresh_user, ChannelState, fresh_channel, SessionState, key_of, user_at, put_user, self_nick,
  update, with_channel, Notes, nothing, apply_umodes, apply_who_flags,
}
use go_bnc.Session.State.Users.{
  split_userhost, rename_at, ensure_known, ensure_user, set_identity, touch_parts, touch_user,
  move_member, move_entry, rename_in, map_values, rename_known, rename_user, any_member,
  maybe_forget_user, drop_stale, adopt, ensure_self_as, ensure_self,
}
use go_bnc.Session.State.Commands.{
  channel_name, open_channel, join_user, confirm_join, set_account, add_to_channel, join_as,
  join_if_known, state_join, state_part_kick, quit_channel, state_quit, state_topic, state_nick,
  set_away, state_away, chghost_of, state_chghost, account_of, state_account, key_changes,
  mode_channel, is_channel, state_mode,
}
use go_bnc.Irc.Message.{Message, Tags, contains_byte}
use go_bnc.Irc.Message.Access.{param, trailing, nick_of, last_of}
use go_bnc.Irc.CaseMap.{fold, equal, CaseMapping, ascii}
use go_bnc.Irc.Modes.{
  ChannelModes, ModeChange, add_member, drop_member, parse_mode_params, apply_all, entry_or,
  new_channel_modes,
}
use go_bnc.Irc.Isupport.{Isupport, parse_005}
use go_bnc.Irc.Ircd.{detect_ircd}
use go_bnc.Session.State.Numerics.{
  state_001, note_ircd, detect_state, state_002, state_003, state_004, state_005, signed, state_221,
  away_of, state_301, state_305, state_306, state_332, who_reply, state_352, strip_prefixes,
  add_modes, put_name, add_name, add_names, state_353, state_366, self_entry, first_entry,
  state_302, state_381, state_396,
}
use go_bnc.Session.State.Apply.{
  apply_state, Effect, Change, joined, parted, quitted, topic_set, renamed, gone_away, host_changed,
  account_changed, mode_set, welcomed, your_host, created, my_info, supported, umode_is, away_reply,
  user_hosts, back_again, now_away, topic_reply, who_answer, names_answer, names_end, oper_up,
  host_hidden, unknown, change_of, change, quietly, sets_cloak, source_cloak, effects_of,
  note_source, finish,
}
use go_bnc.Base.{
  Bool-cases, Bytes, List, [], ap, arith, byte_key, get_or, get_or-set_ne, get_or-set_self,
  has_some, inl, inr, length, length-set, lookup, refl, set, some, subst, sym, text_in, text_key,
  true, ℕ, ◌<◌, ◌==◌, ◌∙◌, ◌≡◌, ◌≤◌,
}

abbrev pub nick_at : List User → ℕ → Bytes
nick_at heap r = (get_or heap r (fresh_user [])).nick

-- Each entry of the map of users points to a user of the heap whose nick folds to its key.
abbrev pub Keyed : CaseMapping → List (Bytes × ℕ) → List User → Type 0
Keyed cm users heap =
    (k : Bytes) (r : ℕ)
    → lookup k users ≡ some r
    → (r < length heap) × (fold cm (nick_at heap r) ≡ k)

-- Each member of a channel has an entry in the map of users.
abbrev pub Known : List (Bytes × ℕ) → List (Bytes × ChannelState) → Type 0
Known users channels =
    (name : Bytes) (ch : ChannelState)
    → lookup name channels ≡ some ch
    → (m : Bytes) → text_in m ch.members ≡ true
    → has_some (lookup m users) ≡ true

pub record IsConsistent (s : SessionState) : Type 0 where
  pub self_there : s.self < length s.heap
  pub keyed : Keyed s.isupport.case_mapping s.users s.heap
  pub known : Known s.users s.channels

-- No user is lost.
abbrev pub Grows : List (Bytes × ℕ) → List (Bytes × ℕ) → Type 0
Grows users users' =
    (m : Bytes) → has_some (lookup m users) ≡ true → has_some (lookup m users') ≡ true

-- A step that leaves the channels alone.
pub record Serves (s s' : SessionState) : Type 0 where
  pub same_channels : s'.channels ≡ s.channels
  pub same_support : s'.isupport ≡ s.isupport
  pub same_self : s'.self ≡ s.self
  pub keyed_still : Keyed s.isupport.case_mapping s'.users s'.heap
  pub grows : Grows s.users s'.users
  pub longer : length s.heap ≤ length s'.heap

pub Serves-IsConsistent : {s s' : SessionState} → IsConsistent s → Serves s s' → IsConsistent s'
Serves-IsConsistent {s} {s'} good serves = record {
  self_there = ground (arith, good.self_there, serves.same_self, serves.longer);
  keyed =
      subst (λ (i : Isupport). Keyed i.case_mapping s'.users s'.heap) (sym serves.same_support)
        serves.keyed_still;
  known = λ name ch found m is_in.
      serves.grows m
        (good.known name ch (ap (lookup name) (sym serves.same_channels) ∙ found) m is_in);
}

pub Serves-trans : {s t u : SessionState} → Serves s t → Serves t u → Serves s u
Serves-trans {s} {t} {u} first second = record {
  same_channels = second.same_channels ∙ first.same_channels;
  same_support = second.same_support ∙ first.same_support;
  same_self = second.same_self ∙ first.same_self;
  keyed_still =
      subst (λ (i : Isupport). Keyed i.case_mapping u.users u.heap) first.same_support
        second.keyed_still;
  grows = λ m h. second.grows m (first.grows m h);
  longer = ground (arith, first.longer, second.longer);
}

-- A write that keeps the folded nick of its user.
pub Keyed-set :
    (cm : CaseMapping) (users : List (Bytes × ℕ)) (heap : List User) (r : ℕ) (u : User)
    → (r < length heap → fold cm u.nick ≡ fold cm (nick_at heap r))
    → Keyed cm users heap
    → Keyed cm users (set heap r u)
Keyed-set cm users heap r u same keyed k q found =
    let (in_heap, folded) = keyed k q found in
    elim (Bool-cases (r == q)) [
      | inl e ↦
          let r_q : r ≡ q = ground arith in
          (
            omega (arith, length-set heap r u),
            subst (λ x. fold cm (nick_at (set heap r u) x) ≡ k) r_q
                (ap (λ (v : User). fold cm v.nick)
                    (get_or-set_self heap r u (fresh_user []) (ground arith))
                  ∙ same (ground arith)
                  ∙ ap (λ x. fold cm (nick_at heap x)) r_q
                  ∙ folded),
          )
      | inr ne ↦ (
        omega (arith, length-set heap r u),
        ap (λ (v : User). fold cm v.nick) (get_or-set_ne heap r q u (fresh_user []) (ground arith))
            ∙ folded,
      )
    ]

pub put_user-Serves :
    (s : SessionState) (r : ℕ) (u : User)
    → (r < length s.heap
        → fold s.isupport.case_mapping u.nick ≡ fold s.isupport.case_mapping (user_at s r).nick)
    → Keyed s.isupport.case_mapping s.users s.heap
    → Serves s (put_user s r u)
unfolding put_user user_at
put_user-Serves s r u same keyed = record {
  same_channels = refl;
  same_support = refl;
  same_self = refl;
  keyed_still = Keyed-set s.isupport.case_mapping s.users s.heap r u same keyed;
  grows = λ m h. h;
  longer = omega (arith, length-set s.heap r u);
}
