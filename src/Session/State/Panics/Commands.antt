-- ===== src/Session/State/Panics/Commands.antt =====
-- internal/session/state_commands.go: where the commands give a state, not a panic.
use go_bnc.Session.State.{SessionState}
use go_bnc.Session.State.Users.{ensure_user, touch_user}
use go_bnc.Session.State.Commands.{join_user, join_if_known, state_join}
use go_bnc.Irc.Message.{Message}
use go_bnc.Irc.Message.Access.{param, nick_of}
use go_bnc.Session.State.Numerics.{who_reply, state_352}
use go_bnc.Session.State.Commands.{
  index, slice_from, state_part_kick, state_away, chghost_of, account_of, mode_channel, state_mode,
}
use go_bnc.Session.State.Numerics.{away_of}
use go_bnc.Session.State.Apply.{kept}
use go_bnc.Session.State.{ChannelState, with_channel, key_of}
use go_bnc.Session.State.Commands.{is_channel}
use go_bnc.Session.State.{self_nick}
use go_bnc.Irc.CaseMap.{equal}
use go_bnc.Base.{
  Bool-cases, Bytes, List, Option, Option-cases, [], ap, arith, byte_key, codes, false, has_some,
  if◌then◌else◌, inl, inr, is_empty, leb, length, lookup, ltb, none, not, refl, some, suc, text_eq,
  text_key, true, zero, ℕ, ◌<◌, ◌||◌, ◌∙◌, ◌∷◌, ◌≡◌, ◌≤◌,
}

pub ensure_user-some :
    (s : SessionState) (nick : Bytes)
    → is_empty nick ≡ false
    → has_some (ensure_user s nick).1 ≡ true
unfolding ensure_user is_empty
ensure_user-some s [] filled = absurd (ground (arith, filled))
ensure_user-some s (c ∷ cs) filled = refl

pub join_if_known-some :
    (msg : Message) (o : SessionState × Option ℕ)
    → has_some o.1 ≡ true
    → has_some (join_if_known msg o) ≡ true
unfolding join_if_known
join_if_known-some msg (s, none) found = found
join_if_known-some msg (s, some r) found = refl

pub join_user-some :
    (s : SessionState) (msg : Message)
    → is_empty (nick_of msg) ≡ false
    → has_some (join_user s msg).1 ≡ true
unfolding join_user
join_user-some s msg filled = by_touch (touch_user s msg.source)
  where
    by_touch :
        (t : SessionState × Option ℕ)
        → has_some
            (elim t.1 as (λ _. SessionState × Option ℕ) [
              | none ↦ ensure_user t.0 (nick_of msg)
              | some r ↦ (t.0, some r)
            ]).1
          ≡ true
    by_touch (t, none) = ensure_user-some t (nick_of msg) filled
    by_touch (t, some r) = refl

pub join-some :
    (s : SessionState) (msg : Message)
    → is_empty (nick_of msg) ≡ false
    → has_some (state_join s msg) ≡ true
unfolding state_join
join-some s msg filled = join_if_known-some msg _ (join_user-some _ msg filled)

pub who_reply-some :
    (msg : Message) (o : SessionState × Option ℕ)
    → has_some o.1 ≡ true
    → has_some (who_reply msg o) ≡ true
unfolding who_reply
who_reply-some msg (s, none) found = found
who_reply-some msg (s, some r) found = refl

pub who-some :
    (s : SessionState) (msg : Message)
    → (ltb (length msg.params) 6 || not (is_empty (param msg 5))) ≡ true
    → has_some (state_352 s msg) ≡ true
unfolding state_352
who-some s msg filled = elim (Bool-cases (ltb (length msg.params) 6)) [
  | inl e ↦ let same : state_352 s msg ≡ some s = ground arith in ap has_some same
  | inr e ↦
      let same : state_352 s msg ≡ who_reply msg (ensure_user s (param msg 5)) = ground arith in
      ap has_some same
      ∙ who_reply-some msg (ensure_user s (param msg 5))
          (ensure_user-some s (param msg 5) (ground arith))
]

pub kept-some : (o : Option SessionState) → has_some o ≡ true → has_some (kept o) ≡ true
unfolding kept
kept-some none found = found
kept-some (some s) found = refl

pub index-some {ℓ} :
    {A : Type ℓ} (n : ℕ) (xs : List A) → n < length xs → has_some (index n xs) ≡ true
unfolding index
index-some n [] inside = absurd (omega (arith, inside))
index-some zero (x ∷ xs) inside = refl
index-some (suc n) (x ∷ xs) inside = index-some n xs (omega (arith, inside))

pub slice_from-some {ℓ} :
    {A : Type ℓ} (n : ℕ) (xs : List A) → n ≤ length xs → has_some (slice_from n xs) ≡ true
unfolding slice_from
slice_from-some n xs inside = ground arith

-- A bind gives a result if both parts do.
pub bind-some {ℓ κ} :
    {A : Type ℓ} {B : Type κ} (o : Option A) (f : A → Option B)
    → has_some o ≡ true
    → ((a : A) → has_some (f a) ≡ true)
    → has_some (elim o as (λ _. Option B) [ none ↦ none | some a ↦ f a ]) ≡ true
bind-some none f found goes_on = found
bind-some (some a) f found goes_on = goes_on a

pub part_kick-some : (s : SessionState) (msg : Message) → has_some (state_part_kick s msg) ≡ true
unfolding state_part_kick
part_kick-some s msg =
    let nick : Bytes = if text_eq msg.command (codes "KICK") then param msg 1 else nick_of msg in
    elim (Option-cases (lookup (key_of s (param msg 0)) s.channels)) [
      | inl e ↦ rw (e, state_part_kick) refl
      | inr (ch, e) ↦ elim (Bool-cases (equal s.isupport.case_mapping nick (self_nick s))) [
        | inl mine ↦ rw (e, mine, state_part_kick) refl
        | inr theirs ↦ rw (e, theirs, state_part_kick) refl
      ]
    ]

pub at_channel-some :
    (s : SessionState) (k : Bytes) (f : ChannelState → ChannelState) (o : Option ChannelState)
    → has_some (elim o as (λ _. Option SessionState) [
      | none ↦ some s
      | some ch ↦ some (with_channel s k f)
    ])
      ≡ true
at_channel-some s k f none = refl
at_channel-some s k f (some ch) = refl

pub away-some : (s : SessionState) (msg : Message) → has_some (state_away s msg) ≡ true
unfolding state_away
away-some s msg =
    let mine = equal s.isupport.case_mapping (nick_of msg) (self_nick s) || is_empty msg.source in
    elim (Bool-cases mine) [
      | inl e ↦ rw e refl
      | inr other_user ↦ elim (Option-cases (lookup (key_of s (nick_of msg)) s.users)) [
        | inl e ↦ rw (other_user, e) refl
        | inr (r, e) ↦ rw (other_user, e) refl
      ]
    ]

pub chghost_of-some :
    (msg : Message) (o : SessionState × Option ℕ) → has_some (chghost_of msg o) ≡ true
unfolding chghost_of
chghost_of-some msg (s, none) = refl
chghost_of-some msg (s, some r) = refl

pub account_of-some :
    (msg : Message) (o : SessionState × Option ℕ) → has_some (account_of msg o) ≡ true
unfolding account_of
account_of-some msg (s, none) = refl
account_of-some msg (s, some r) = refl

pub away_of-some : (msg : Message) (o : SessionState × Option ℕ) → has_some (away_of msg o) ≡ true
unfolding away_of
away_of-some msg (s, none) = refl
away_of-some msg (s, some r) = refl

pub mode_channel-some :
    (s : SessionState) (msg : Message) (k : Bytes) (ch : ChannelState)
    → 1 < length msg.params
    → has_some (mode_channel s msg k ch) ≡ true
unfolding mode_channel
mode_channel-some s msg k ch long =
    bind-some (index 1 msg.params) _ (index-some 1 msg.params long) (λ modestring.
      bind-some (slice_from 2 msg.params) _ (slice_from-some 2 msg.params (omega (arith, long)))
        (λ args. refl))

pub mode-some : (s : SessionState) (msg : Message) → has_some (state_mode s msg) ≡ true
unfolding state_mode
mode-some s msg =
    let target = param msg 0 in
    elim (Bool-cases (is_channel target)) [
      | inl chan ↦ elim (Option-cases (lookup (key_of s target) s.channels)) [
        | inl e ↦ rw (chan, e) refl
        | inr (ch, e) ↦ elim (Bool-cases (leb (length msg.params) 1)) [
          | inl short ↦ rw (chan, e, short) refl
          | inr long ↦
              rw (chan, e, long)
                (mode_channel-some s msg (key_of s target) ch (ground (arith, long)))
        ]
      ]
      | inr user ↦ elim (Bool-cases (equal s.isupport.case_mapping target (self_nick s))) [
        | inl mine ↦ rw (user, mine) refl
        | inr theirs ↦ rw (user, theirs) refl
      ]
    ]
