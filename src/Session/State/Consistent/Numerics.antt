-- ===== src/Session/State/Consistent/Numerics.antt =====
-- internal/session/state_numerics.go: the invariant under the other numerics.
use go_bnc.Session.State.{
  User, SessionState, key_of, user_at, put_user, self_nick, Notes, nothing, apply_umodes,
}
use go_bnc.Irc.Message.{Message}
use go_bnc.Irc.Message.Access.{param, trailing}
use go_bnc.Irc.CaseMap.{equal}
use go_bnc.Irc.Isupport.{parse_005}
use go_bnc.Irc.Ircd.{detect_ircd}
use go_bnc.Session.State.Numerics.{
  note_ircd, detect_state, state_002, state_003, state_004, state_005, signed, state_221, state_305,
  state_306, state_332, state_366, first_entry, state_302, state_381, state_396,
}
use go_bnc.Session.State.Consistent.{Keyed, IsConsistent}
use go_bnc.Session.State.Consistent.Served.{edit-IsConsistent}
use go_bnc.Session.State.Consistent.Apply.{nick-apply_umodes}
use go_bnc.Session.State.Consistent.Joins.{Survives}
use go_bnc.Session.State.Consistent.Apply.{Stays, at_channel-Stays}
use go_bnc.Session.State.Commands.{index, slice_from}
use go_bnc.Session.State.Numerics.{detect_from, detect_004, banner}
use go_bnc.Base.{
  Bool, Bool-cases, Bytes, List, Option, Option-cases, [], arith, byte_key, false, fields,
  if◌then◌else◌, inl, inr, is_empty, leb, length, lookup, ltb, none, refl, some, subst, sym,
  text_key, true, ◌&&◌, ◌∷◌, ◌≡◌,
}

ircd-IsConsistent :
    (s : SessionState) (notes : Notes) (family : Bytes)
    → IsConsistent s
    → IsConsistent (note_ircd s notes family).0
unfolding note_ircd
ircd-IsConsistent s notes [] good = good
ircd-IsConsistent s notes (c ∷ cs) good = record {
  self_there = good.self_there;
  keyed = good.keyed;
  known = good.known;
}

detect_from-Survives :
    (s : SessionState) (notes : Notes) (text : Bytes)
    → IsConsistent s
    → Survives (detect_from s notes text)
unfolding detect_from
detect_from-Survives s notes text good =
    let family = detect_ircd text in
    elim (Bool-cases (is_empty family && ltb 1 (length s.rpl_004))) [
      | inl d ↦ elim (Option-cases (index 1 s.rpl_004)) [
        | inl e ↦
            let same : detect_from s notes text ≡ none = ground arith in
            subst Survives (sym same) tt
        | inr (version, e) ↦
            let same : detect_from s notes text ≡ some (note_ircd s notes (detect_ircd version)) =
              ground arith in
            subst Survives (sym same) (ircd-IsConsistent s notes (detect_ircd version) good)
      ]
      | inr d ↦
          let same : detect_from s notes text ≡ some (note_ircd s notes family) = ground arith in
          subst Survives (sym same) (ircd-IsConsistent s notes family good)
    ]

detect_state-Survives :
    (s : SessionState) (notes : Notes) → IsConsistent s → Survives (detect_state s notes)
unfolding detect_state
detect_state-Survives s notes good = elim (Option-cases (banner s.rpl_002)) [
  | inl e ↦ let same : detect_state s notes ≡ none = ground arith in subst Survives (sym same) tt
  | inr (text, e) ↦
      let same : detect_state s notes ≡ detect_from s notes text = ground arith in
      subst Survives (sym same) (detect_from-Survives s notes text good)
]

detect_004-Survives :
    (s : SessionState) (notes : Notes) (msg : Message)
    → IsConsistent s
    → Survives (detect_004 s notes msg)
unfolding detect_004
detect_004-Survives s notes msg good =
    elim (Bool-cases (is_empty s.ircd && ltb 2 (length msg.params))) [
      | inl d ↦ elim (Option-cases (index 2 msg.params)) [
        | inl e ↦
            let same : detect_004 s notes msg ≡ none = ground arith in subst Survives (sym same) tt
        | inr (version, e) ↦
            let same : detect_004 s notes msg ≡ some (note_ircd s notes (detect_ircd version)) =
              ground arith in
            subst Survives (sym same) (ircd-IsConsistent s notes (detect_ircd version) good)
      ]
      | inr d ↦
          let same : detect_004 s notes msg ≡ some (s, notes) = ground arith in
          subst Survives (sym same) good
    ]

-- A welcome numeric keeps its parameters, if it has any behind the nick, and goes on.
abbrev welcomes :
    SessionState
    → Message
    → (List Bytes → Option (SessionState × Notes))
    → Option (SessionState × Notes)
welcomes s msg f =
    if ltb 1 (length msg.params)
    then elim (slice_from 1 msg.params) as (λ _. Option (SessionState × Notes)) [
      | none ↦ none
      | some tail ↦ f tail
    ]
    else some (s, nothing)

welcomes-Survives :
    (s : SessionState) (msg : Message) (f : List Bytes → Option (SessionState × Notes))
    → IsConsistent s
    → ((tail : List Bytes) → Survives (f tail))
    → Survives (welcomes s msg f)
welcomes-Survives s msg f good goes_on =
    by_params (ltb 1 (length msg.params)) (slice_from 1 msg.params)
  where
    by_params :
        (b : Bool) (o : Option (List Bytes))
        → Survives (
            if b
            then elim o as (λ _. Option (SessionState × Notes)) [ none ↦ none | some tail ↦ f tail ]
            else some (s, nothing))
    by_params false o = good
    by_params true none = tt
    by_params true (some tail) = goes_on tail

pub your_host-Survives :
    (s : SessionState) (msg : Message) → IsConsistent s → Survives (state_002 s msg)
unfolding state_002
your_host-Survives s msg good = welcomes-Survives s msg _ good (λ tail.
    detect_state-Survives (record s { rpl_002 = tail }) _
      (record { self_there = good.self_there; keyed = good.keyed; known = good.known }))

pub created-Survives :
    (s : SessionState) (msg : Message) → IsConsistent s → Survives (state_003 s msg)
unfolding state_003
created-Survives s msg good =
    welcomes-Survives s msg _ good
      (λ tail. record { self_there = good.self_there; keyed = good.keyed; known = good.known })

pub my_info-Survives :
    (s : SessionState) (msg : Message) → IsConsistent s → Survives (state_004 s msg)
unfolding state_004
my_info-Survives s msg good = welcomes-Survives s msg _ good (λ tail.
    detect_004-Survives (record s { rpl_004 = tail }) _ msg
      (record { self_there = good.self_there; keyed = good.keyed; known = good.known }))

-- The case mapping must stay, since the keys are folded with it.
pub supported-IsConsistent :
    (s : SessionState) (msg : Message)
    → (parse_005 s.isupport msg.params).case_mapping ≡ s.isupport.case_mapping
    → IsConsistent s
    → IsConsistent (state_005 s msg).0
unfolding state_005
supported-IsConsistent s msg stays good = record {
  self_there = good.self_there;
  keyed = subst (λ cm. Keyed cm s.users s.heap) (sym stays) good.keyed;
  known = good.known;
}

pub umode_is-IsConsistent :
    (s : SessionState) (msg : Message) → IsConsistent s → IsConsistent (state_221 s msg)
unfolding state_221
umode_is-IsConsistent s msg good =
    let text : Bytes = elim (param msg 1) [ [] ↦ trailing msg | c ∷ cs ↦ c ∷ cs ] in
    let me : User = record (user_at s s.self) { umodes = [] } in
    edit-IsConsistent s s.self (apply_umodes me (signed text)) good
      (nick-apply_umodes me (signed text))

pub back-IsConsistent : (s : SessionState) → IsConsistent s → IsConsistent (state_305 s)
unfolding state_305
back-IsConsistent s good =
    edit-IsConsistent s s.self (record (user_at s s.self) { away = false; away_message = [] }) good
      refl

pub now_away-IsConsistent : (s : SessionState) → IsConsistent s → IsConsistent (state_306 s)
unfolding state_306
now_away-IsConsistent s good =
    edit-IsConsistent s s.self (record (user_at s s.self) { away = true }) good refl

pub oper-IsConsistent : (s : SessionState) → IsConsistent s → IsConsistent (state_381 s)
unfolding state_381
oper-IsConsistent s good =
    edit-IsConsistent s s.self (record (user_at s s.self) { oper = true }) good refl

pub host-IsConsistent :
    (s : SessionState) (msg : Message) → IsConsistent s → IsConsistent (state_396 s msg).0
unfolding state_396
host-IsConsistent s msg good =
    let mine =
      leb 2 (length msg.params) && equal s.isupport.case_mapping (param msg 0) (self_nick s) in
    elim (Bool-cases mine) [
      | inl e ↦
          let same : (state_396 s msg).0
              ≡ put_user s s.self (record (user_at s s.self) { host = param msg 1 }) =
            ground arith in
          subst IsConsistent (sym same) (
            edit-IsConsistent s s.self (record (user_at s s.self) { host = param msg 1 }) good refl)
      | inr e ↦
          let same : (state_396 s msg).0 ≡ s = ground arith in subst IsConsistent (sym same) good
    ]

pub user_hosts-IsConsistent :
    (s : SessionState) (msg : Message) → IsConsistent s → IsConsistent (state_302 s msg).0
unfolding state_302
user_hosts-IsConsistent s msg good =
    let entry : Option (Bytes × Bytes) =
      if ltb (length msg.params) 2
      then none
      else first_entry s.isupport.case_mapping (self_nick s) (fields (trailing msg)) in
    elim (Option-cases entry) [
      | inl e ↦
          let same : (state_302 s msg).0 ≡ s = ground arith in subst IsConsistent (sym same) good
      | inr (found, e) ↦
          let u : User = record (user_at s s.self) { user = found.0; host = found.1 } in
          let same : (state_302 s msg).0 ≡ put_user s s.self u = ground arith in
          subst IsConsistent (sym same) (edit-IsConsistent s s.self u good refl)
    ]

pub topic_reply-Stays :
    (s : SessionState) (msg : Message) → IsConsistent s → Stays (state_332 s msg)
unfolding state_332
topic_reply-Stays s msg good =
    at_channel-Stays s (key_of s (param msg 1)) (λ ch. record ch { topic = trailing msg })
      (λ c. refl) good (lookup (key_of s (param msg 1)) s.channels)

pub names_end-Stays : (s : SessionState) (msg : Message) → IsConsistent s → Stays (state_366 s msg)
unfolding state_366
names_end-Stays s msg good = elim (Bool-cases (ltb (length msg.params) 2)) [
  | inl e ↦ let same : state_366 s msg ≡ some s = ground arith in subst Stays (sym same) good
  | inr e ↦ rw e (
      at_channel-Stays s (key_of s (param msg 1)) (λ ch. record ch { roster_known = true })
        (λ c. refl) good (lookup (key_of s (param msg 1)) s.channels))
]
