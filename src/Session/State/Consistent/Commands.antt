-- ===== src/Session/State/Consistent/Commands.antt =====
-- internal/session/state_commands.go: the invariant under the commands of a server.
use go_bnc.Session.State.{ChannelState, fresh_channel, SessionState, with_channel}
use go_bnc.Session.State.Commands.{open_channel}
use go_bnc.Irc.Modes.{add_member, drop_member}
use go_bnc.Session.State.Consistent.{Known, IsConsistent}
use go_bnc.Session.State.Consistent.Channels.{
  Admits, Known-insert, channels-IsConsistent, with_channel-IsConsistent,
}
use go_bnc.Base.{
  Bool-cases, Bytes, List, Option-cases, [], ap, arith, byte_key, has_some, inl, inr, insert,
  lookup, none, not, refl, some, subst, sym, text_eq, text_eq_iff, text_in, text_key, true, ℕ, ◌&&◌,
  ◌||◌, ◌∙◌, ◌∷◌, ◌≡◌,
}

pub text_in-add_member :
    (m k : Bytes) (ms : List Bytes) → text_in m (add_member k ms) ≡ (text_in m ms || text_eq m k)
unfolding text_in add_member
text_in-add_member m k [] = ground arith
text_in-add_member m k (x ∷ ms) =
    ground (arith, text_in-add_member m k ms, text_eq_iff x k, text_eq_iff m x, text_eq_iff m k)

pub text_in-drop_member :
    (m k : Bytes) (ms : List Bytes)
    → text_in m (drop_member k ms) ≡ (text_in m ms && not (text_eq m k))
unfolding text_in drop_member
text_in-drop_member m k [] = refl
text_in-drop_member m k (x ∷ ms) =
    ground (arith, text_in-drop_member m k ms, text_eq_iff x k, text_eq_iff m x, text_eq_iff m k)

-- Members that only become fewer.
pub drop-Admits :
    (users : List (Bytes × ℕ)) (k : Bytes) (ch ch' : ChannelState)
    → ch'.members ≡ drop_member k ch.members
    → Admits users ch ch'
drop-Admits users k ch ch' same m is_in =
    inl (ground (arith, text_in-drop_member m k ch.members, ap (text_in m) same))

pub same-Admits :
    (users : List (Bytes × ℕ)) (ch ch' : ChannelState)
    → ch'.members ≡ ch.members
    → Admits users ch ch'
same-Admits users ch ch' same m is_in = inl (ap (text_in m) (sym same) ∙ is_in)

-- A change to a channel that leaves its members alone.
pub relabel-IsConsistent :
    (s : SessionState) (k : Bytes) (f : ChannelState → ChannelState)
    → ((ch : ChannelState) → (f ch).members ≡ ch.members)
    → IsConsistent s
    → IsConsistent (with_channel s k f)
relabel-IsConsistent s k f same good =
    with_channel-IsConsistent s k f good (λ ch. same-Admits s.users ch (f ch) (same ch))

pub open-IsConsistent :
    (s : SessionState) (name k : Bytes)
    → IsConsistent s
    → IsConsistent (record s { channels = open_channel name k s.channels })
unfolding open_channel fresh_channel
open-IsConsistent s name k good = elim (Option-cases (lookup k s.channels)) [
  | inl e ↦ channels-IsConsistent s (open_channel name k s.channels) good (
      subst (Known s.users) (sym (opened e))
        (Known-insert s.users k (fresh_channel name) s.channels refl good.known))
  | inr (ch, e) ↦
      channels-IsConsistent s (open_channel name k s.channels) good
        (subst (Known s.users) (sym (kept ch e)) good.known)
]
  where
    opened :
        lookup k s.channels ≡ none
        → open_channel name k s.channels ≡ insert k (fresh_channel name) s.channels
    opened e = ground arith

    kept :
        (ch : ChannelState)
        → lookup k s.channels ≡ some ch
        → open_channel name k s.channels ≡ s.channels
    kept ch e = ground arith

-- A member with an entry.
pub add-IsConsistent :
    (s : SessionState) (k : Bytes) (nick_key : Bytes) (f : ChannelState → ChannelState)
    → ((ch : ChannelState) → (f ch).members ≡ add_member nick_key ch.members)
    → has_some (lookup nick_key s.users) ≡ true
    → IsConsistent s
    → IsConsistent (with_channel s k f)
add-IsConsistent s k nick_key f same has good =
    with_channel-IsConsistent s k f good (λ ch m is_in. admit ch m is_in)
  where
    admit : (ch : ChannelState) → Admits s.users ch (f ch)
    admit ch m is_in = elim (Bool-cases (text_in m ch.members)) [
      | inl was ↦ inl was
      | inr new ↦
          let it : m ≡ nick_key = ground (
            arith,
            text_in-add_member m nick_key ch.members,
            ap (text_in m) (same ch),
            text_eq_iff m nick_key,
          ) in
          inr (ap (λ x. has_some (lookup x s.users)) it ∙ has)
    ]
