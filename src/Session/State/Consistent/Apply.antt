-- ===== src/Session/State/Consistent/Apply.antt =====
-- internal/session/state.go: the invariant under `applyState`.
use go_bnc.Session.State.{
  User, ChannelState, SessionState, key_of, user_at, put_user, self_nick, apply_umodes,
  apply_who_flags, with_channel,
}
use go_bnc.Session.State.Users.{ensure_user, set_identity}
use go_bnc.Session.State.Commands.{
  set_away, state_away, chghost_of, account_of, mode_channel, is_channel, state_mode, state_topic,
}
use go_bnc.Irc.Message.{Message}
use go_bnc.Irc.Message.Access.{param, trailing, nick_of}
use go_bnc.Irc.CaseMap.{equal}
use go_bnc.Session.State.Numerics.{away_of, who_reply, state_352}
use go_bnc.Session.State.Apply.{kept}
use go_bnc.Session.State.Consistent.{IsConsistent, Serves-IsConsistent}
use go_bnc.Session.State.Consistent.Served.{Served, edit-IsConsistent, ensure_user-Served}
use go_bnc.Session.State.Consistent.Commands.{relabel-IsConsistent}
use go_bnc.Session.State.Consistent.Joins.{Survives}
use go_bnc.Session.State.Commands.{mode_with, index, slice_from}
use go_bnc.Session.State.{Notes, nothing}
use go_bnc.Base.{
  Bool-cases, Bytes, List, Option, Option-cases, [], arith, byte_key, if◌then◌else◌, inl, inr,
  is_empty, leb, length, lookup, ltb, none, refl, some, subst, sym, text_key, true, ℕ, ◌==◌, ◌||◌,
  ◌∙◌, ◌∷◌, ◌≡◌,
}

-- What is left of a state that a panic may take the place of.
abbrev pub Stays : Option SessionState → Type 0
Stays none = Unit
Stays (some s) = IsConsistent s

pub chghost_of-Survives :
    (s : SessionState) (msg : Message) (o : SessionState × Option ℕ)
    → IsConsistent s
    → Served s o
    → Survives (chghost_of msg o)
unfolding chghost_of set_identity
chghost_of-Survives s msg (t, none) good serves = Serves-IsConsistent good serves
chghost_of-Survives s msg (t, some r) good (serves, shown) =
    edit-IsConsistent t r (set_identity (user_at t r) (param msg 0) (param msg 1))
      (Serves-IsConsistent good serves) refl

pub account_of-Stays :
    (s : SessionState) (msg : Message) (o : SessionState × Option ℕ)
    → IsConsistent s
    → Served s o
    → Stays (account_of msg o)
unfolding account_of
account_of-Stays s msg (t, none) good serves = Serves-IsConsistent good serves
account_of-Stays s msg (t, some r) good (serves, shown) =
    edit-IsConsistent t r _ (Serves-IsConsistent good serves) refl

pub away_of-Stays :
    (s : SessionState) (msg : Message) (o : SessionState × Option ℕ)
    → IsConsistent s
    → Served s o
    → Stays (away_of msg o)
unfolding away_of
away_of-Stays s msg (t, none) good serves = Serves-IsConsistent good serves
away_of-Stays s msg (t, some r) good (serves, shown) =
    edit-IsConsistent t r (record (user_at t r) { away = true; away_message = trailing msg })
      (Serves-IsConsistent good serves) refl

pub nick-apply_umodes : (u : User) (text : Bytes) → (apply_umodes u text).nick ≡ u.nick
unfolding apply_umodes
nick-apply_umodes u text = refl

nick-apply_who_flags : (u : User) (flags : Bytes) → (apply_who_flags u flags).nick ≡ u.nick
unfolding apply_who_flags
nick-apply_who_flags u [] = refl
nick-apply_who_flags u (c ∷ cs) = refl

set_away-IsConsistent :
    (s : SessionState) (r : ℕ) (text : Bytes)
    → IsConsistent s
    → IsConsistent (put_user s r (set_away (user_at s r) text))
unfolding set_away
set_away-IsConsistent s r text good = edit-IsConsistent s r (set_away (user_at s r) text) good refl

pub away-Stays : (s : SessionState) (msg : Message) → IsConsistent s → Stays (state_away s msg)
unfolding state_away
away-Stays s msg good =
    elim (Bool-cases
      (equal s.isupport.case_mapping (nick_of msg) (self_nick s) || is_empty msg.source)) [
        | inl mine ↦
            let same : state_away s msg
                ≡ some (put_user s s.self (set_away (user_at s s.self) (trailing msg))) =
              ground arith in
            subst Stays (sym same) (set_away-IsConsistent s s.self (trailing msg) good)
        | inr theirs ↦ elim (Option-cases (lookup (key_of s (nick_of msg)) s.users)) [
          | inl e ↦
              let same : state_away s msg ≡ some s = ground arith in subst Stays (sym same) good
          | inr (r, e) ↦
              let same : state_away s msg
                  ≡ some (put_user s r (set_away (user_at s r) (trailing msg))) =
                ground arith in
              subst Stays (sym same) (set_away-IsConsistent s r (trailing msg) good)
        ]
      ]

mode_with-IsConsistent :
    (s : SessionState) (modestring : Bytes) (args : List Bytes) (k : Bytes) (ch : ChannelState)
    → IsConsistent s
    → IsConsistent (mode_with s modestring args k ch).0
unfolding mode_with
mode_with-IsConsistent s modestring args k ch good = relabel-IsConsistent s k _ (λ c. refl) good

mode_channel-Survives :
    (s : SessionState) (msg : Message) (k : Bytes) (ch : ChannelState)
    → IsConsistent s
    → Survives (mode_channel s msg k ch)
unfolding mode_channel
mode_channel-Survives s msg k ch good = by_params (index 1 msg.params) (slice_from 2 msg.params)
  where
    by_params :
        (text : Option Bytes) (args : Option (List Bytes))
        → Survives (elim text as (λ _. Option (SessionState × Notes)) [
          | none ↦ none
          | some modestring ↦ elim args as (λ _. Option (SessionState × Notes)) [
            | none ↦ none
            | some rest ↦ some (mode_with s modestring rest k ch)
          ]
        ])
    by_params none args = tt
    by_params (some modestring) none = tt
    by_params (some modestring) (some rest) = mode_with-IsConsistent s modestring rest k ch good

pub mode-Survives :
    (s : SessionState) (msg : Message) → IsConsistent s → Survives (state_mode s msg)
unfolding state_mode
mode-Survives s msg good =
    let target = param msg 0 in
    let text : Bytes = elim (param msg 1) [ [] ↦ trailing msg | c ∷ cs ↦ c ∷ cs ] in
    elim (Bool-cases (is_channel target)) [
      | inl chan ↦ elim (Option-cases (lookup (key_of s target) s.channels)) [
        | inl e ↦
            let same : state_mode s msg ≡ some (s, nothing) = ground arith in
            subst Survives (sym same) good
        | inr (ch, e) ↦ elim (Bool-cases (leb (length msg.params) 1)) [
          | inl short ↦
              let same : state_mode s msg ≡ some (s, nothing) = ground arith in
              subst Survives (sym same) good
          | inr long ↦
              let same : state_mode s msg ≡ mode_channel s msg (key_of s target) ch =
                ground arith in
              subst Survives (sym same) (mode_channel-Survives s msg (key_of s target) ch good)
        ]
      ]
      | inr user ↦ elim (Bool-cases (equal s.isupport.case_mapping target (self_nick s))) [
        | inl mine ↦
            let same : state_mode s msg
                ≡ some (put_user s s.self (apply_umodes (user_at s s.self) text), nothing) =
              ground arith in
            subst Survives (sym same) (
              edit-IsConsistent s s.self (apply_umodes (user_at s s.self) text) good
                (nick-apply_umodes (user_at s s.self) text))
        | inr theirs ↦
            let same : state_mode s msg ≡ some (s, nothing) = ground arith in
            subst Survives (sym same) good
      ]
    ]

who_reply-Stays :
    (s : SessionState) (msg : Message) (o : SessionState × Option ℕ)
    → IsConsistent s
    → Served s o
    → Stays (who_reply msg o)
unfolding who_reply
who_reply-Stays s msg (t, none) good serves = tt
who_reply-Stays s msg (t, some r) good (serves, shown) =
    let u = user_at t r in
    let known : User =
      if r == t.self then u else record u { user = param msg 2; host = param msg 3 } in
    let same_nick : known.nick ≡ u.nick = elim (Bool-cases (r == t.self)) [
      | inl e ↦ ground arith
      | inr e ↦ ground arith
    ] in
    edit-IsConsistent t r (apply_who_flags known (param msg 6)) (Serves-IsConsistent good serves)
      (nick-apply_who_flags known (param msg 6) ∙ same_nick)

pub who-Stays : (s : SessionState) (msg : Message) → IsConsistent s → Stays (state_352 s msg)
unfolding state_352
who-Stays s msg good = elim (Bool-cases (ltb (length msg.params) 6)) [
  | inl e ↦ let same : state_352 s msg ≡ some s = ground arith in subst Stays (sym same) good
  | inr e ↦
      let same : state_352 s msg ≡ who_reply msg (ensure_user s (param msg 5)) = ground arith in
      subst Stays (sym same) (
        who_reply-Stays s msg (ensure_user s (param msg 5)) good
          (ensure_user-Served s (param msg 5) good))
]

pub kept-Survives : (o : Option SessionState) → Stays o → Survives (kept o)
unfolding kept
kept-Survives none stays = tt
kept-Survives (some s) stays = stays

-- A write to a channel that keeps its members, or nothing where there is no channel.
pub at_channel-Stays :
    (s : SessionState) (k : Bytes) (f : ChannelState → ChannelState)
    → ((ch : ChannelState) → (f ch).members ≡ ch.members)
    → IsConsistent s
    → (o : Option ChannelState)
    → Stays (elim o as (λ _. Option SessionState) [
      | none ↦ some s
      | some ch ↦ some (with_channel s k f)
    ])
at_channel-Stays s k f same good none = good
at_channel-Stays s k f same good (some ch) = relabel-IsConsistent s k f same good

pub topic-Stays : (s : SessionState) (msg : Message) → IsConsistent s → Stays (state_topic s msg)
unfolding state_topic
topic-Stays s msg good =
    at_channel-Stays s (key_of s (param msg 0)) (λ ch. record ch { topic = trailing msg })
      (λ c. refl) good (lookup (key_of s (param msg 0)) s.channels)
