-- ===== src/Session/State/Panics/Numerics.antt =====
-- internal/session/state_numerics.go: where the numerics give a state, not a panic.
use go_bnc.Session.State.Panics.Commands.{index-some, slice_from-some, bind-some, at_channel-some}
use go_bnc.Session.State.{SessionState, Notes}
use go_bnc.Irc.Message.{Message}
use go_bnc.Irc.Message.Access.{param}
use go_bnc.Session.State.Commands.{index, slice_from}
use go_bnc.Session.State.Numerics.{
  state_001, state_002, state_003, state_004, banner, detect_from, detect_state, detect_004,
  state_366,
}
use go_bnc.Session.State.{nothing, key_of}
use go_bnc.Irc.Ircd.{detect_ircd}
use go_bnc.Base.{
  Bool-cases, Bytes, List, Option, arith, byte_key, has_some, if◌then◌else◌, inl, inr, is_empty,
  length, lookup, ltb, none, refl, some, text_key, true, ◌&&◌, ◌-◌, ◌≡◌,
}

pub welcomed-some : (s : SessionState) (msg : Message) → has_some (state_001 s msg) ≡ true
unfolding state_001
welcomed-some s msg = elim (Bool-cases (ltb 0 (length msg.params))) [
  | inl e ↦ rw e (
      bind-some (index 0 msg.params) _ (index-some 0 msg.params (ground (arith, e))) (λ nick.
        elim (Bool-cases (is_empty nick)) [
          | inl none_named ↦ rw none_named refl
          | inr named ↦ rw named refl
        ]))
  | inr e ↦ rw e refl
]

banner-some : (lines : List Bytes) → has_some (banner lines) ≡ true
unfolding banner
banner-some lines = elim (Bool-cases (ltb 0 (length lines))) [
  | inl e ↦ rw e (index-some (length lines - 1) lines (ground (arith, e)))
  | inr e ↦ rw e refl
]

detect_from-some :
    (s : SessionState) (notes : Notes) (text : Bytes) → has_some (detect_from s notes text) ≡ true
unfolding detect_from
detect_from-some s notes text =
    elim (Bool-cases (is_empty (detect_ircd text) && ltb 1 (length s.rpl_004))) [
      | inl e ↦ rw e (
          bind-some (index 1 s.rpl_004) _ (index-some 1 s.rpl_004 (ground (arith, e)))
            (λ version. refl))
      | inr e ↦ rw e refl
    ]

detect_state-some : (s : SessionState) (notes : Notes) → has_some (detect_state s notes) ≡ true
unfolding detect_state
detect_state-some s notes =
    bind-some (banner s.rpl_002) _ (banner-some s.rpl_002) (detect_from-some s notes)

detect_004-some :
    (s : SessionState) (notes : Notes) (msg : Message) → has_some (detect_004 s notes msg) ≡ true
unfolding detect_004
detect_004-some s notes msg = elim (Bool-cases (is_empty s.ircd && ltb 2 (length msg.params))) [
  | inl e ↦ rw e (
      bind-some (index 2 msg.params) _ (index-some 2 msg.params (ground (arith, e)))
        (λ version. refl))
  | inr e ↦ rw e refl
]

-- The guard of 002, 003 and 004 covers the slice behind it.
guarded-some :
    (s : SessionState) (msg : Message) (f : List Bytes → Option (SessionState × Notes))
    → ((tail : List Bytes) → has_some (f tail) ≡ true)
    → has_some (
        if ltb 1 (length msg.params)
        then elim (slice_from 1 msg.params) as (λ _. Option (SessionState × Notes)) [
          | none ↦ none
          | some tail ↦ f tail
        ]
        else some (s, nothing))
      ≡ true
guarded-some s msg f goes_on = elim (Bool-cases (ltb 1 (length msg.params))) [
  | inl e ↦ rw e (
      bind-some (slice_from 1 msg.params) f (slice_from-some 1 msg.params (ground (arith, e)))
        goes_on)
  | inr e ↦ rw e refl
]

pub your_host-some : (s : SessionState) (msg : Message) → has_some (state_002 s msg) ≡ true
unfolding state_002
your_host-some s msg = guarded-some s msg _ (λ tail. detect_state-some _ _)

pub created-some : (s : SessionState) (msg : Message) → has_some (state_003 s msg) ≡ true
unfolding state_003
created-some s msg = guarded-some s msg _ (λ tail. refl)

pub my_info-some : (s : SessionState) (msg : Message) → has_some (state_004 s msg) ≡ true
unfolding state_004
my_info-some s msg = guarded-some s msg _ (λ tail. detect_004-some _ _ msg)

pub names_end-some : (s : SessionState) (msg : Message) → has_some (state_366 s msg) ≡ true
unfolding state_366
names_end-some s msg = elim (Bool-cases (ltb (length msg.params) 2)) [
  | inl e ↦ rw e refl
  | inr e ↦ rw e (
      at_channel-some s (key_of s (param msg 1)) (λ c. record c { roster_known = true })
        (lookup (key_of s (param msg 1)) s.channels))
]
