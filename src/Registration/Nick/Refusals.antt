-- ===== src/Registration/Nick/Refusals.antt =====
-- internal/registration/nick.go: a server that refuses every nick ends the registration.
use go_bnc.Registration.State.{Input, State, failed}
use go_bnc.Registration.Step.{dispatch, is_terminal, step, command_of, nick_refused}
use go_bnc.Registration.Nick.{
  take_nick, next_ladder_nick, step_nick_error, build_nick_ladder, next_nick_in_ladder, nick_len,
}
use go_bnc.Registration.Runs.{feed, feed-is_terminal}
use go_bnc.Irc.Message.Access.{param}
use go_bnc.Registration.Nick.Ladder.{length-build_nick_ladder}
use go_bnc.Registration.Nick.Exhaustion.{Behind, next-Behind, first-Behind}
use go_bnc.Base.{
  All, Bytes, List, [], ap, arith, codes, false, inl, inr, length, not, refl, text_eq, ℕ, ◌&&◌, ◌<◌,
  ◌∙◌, ◌∷◌, ◌≡◌, ◌≤◌, ◌⊎◌,
}

-- A message by which a server refuses a nick before the welcome.
abbrev pub IsRefusal : Input → Type 0
IsRefusal inp =
    (command_of inp.msg.command ≡ nick_refused)
    × ((text_eq inp.msg.command (codes "437") && not (text_eq (param inp.msg 0) (codes "*")))
        ≡ false)

module _ {Conv : Type 0} where
  ladder_of : State Conv → List Bytes
  ladder_of s = build_nick_ladder s.primary_nick s.alt_nick (nick_len s.isupport)

  -- The registration waits for a welcome.
  abbrev Waits : State Conv → Type 0
  Waits s = (is_terminal s.phase ≡ false) × (s.got_welcome ≡ false)

  module _ (new_client : Bytes → Bytes → Bytes → Bytes ⊎ Conv)
      (converse : Conv → Bytes → Bytes ⊎ (Bytes × Conv)) where
    step-IsRefusal :
        (s : State Conv) (inp : Input)
        → Waits s
        → IsRefusal inp
        → step new_client converse s inp ≡ take_nick s inp (next_ladder_nick s (param inp.msg 1))
    unfolding step dispatch step_nick_error
    step-IsRefusal s inp waits refusal = ground arith

    -- After the step, the registration has failed or a further rung is tried.
    module _ (s : State Conv) (inp : Input) (inps : List Input) (waits : Waits s)
        (refusal : IsRefusal inp) where
      fail_now :
          next_ladder_nick s (param inp.msg 1) ≡ []
          → (feed new_client converse s (inp ∷ inps)).0.phase ≡ failed
      unfolding feed take_nick is_terminal
      fail_now e =
          let next = step new_client converse s inp in
          let over : next.0.phase ≡ failed = ground (arith, step-IsRefusal s inp waits refusal) in
          ground (arith, over, feed-is_terminal new_client converse next.0 inps)

      try_next :
          (c : ℕ) (cs : Bytes)
          → next_ladder_nick s (param inp.msg 1) ≡ c ∷ cs
          → (feed new_client converse s (inp ∷ inps)).0
            ≡ (feed new_client converse (record s { nick = c ∷ cs }) inps).0
      unfolding feed take_nick
      try_next c cs e = ground (arith, step-IsRefusal s inp waits refusal)

    next_ladder_nick-ladder :
        (s : State Conv) (bad : Bytes) (c : ℕ) (cs : Bytes)
        → next_ladder_nick s bad ≡ c ∷ cs
        → next_nick_in_ladder (ladder_of s) s.nick bad s.isupport.case_mapping ≡ c ∷ cs
    unfolding next_ladder_nick ladder_of
    next_ladder_nick-ladder s bad c cs e = ground arith

    List-cases : (l : Bytes) → (l ≡ []) ⊎ ((c : ℕ) × (cs : Bytes) × (l ≡ c ∷ cs))
    List-cases [] = inl refl
    List-cases (c ∷ cs) = inr (c, cs, refl)

    refusals_from :
        (s : State Conv) (inps : List Input) (k : ℕ)
        → Waits s
        → All IsRefusal inps
        → Behind s.isupport.case_mapping s.nick (ladder_of s) k
        → k < length inps
        → (feed new_client converse s inps).0.phase ≡ failed
    refusals_from s [] k waits refusals behind h = absurd (omega arith)
    refusals_from s (inp ∷ inps) k waits (refusal, refusals) behind h =
        elim (List-cases (next_ladder_nick s (param inp.msg 1))) [
          | inl e ↦ fail_now s inp inps waits refusal e
          | inr (c, cs, e) ↦
              let (j, behind', lt) =
                next-Behind s.isupport.case_mapping (ladder_of s) s.nick (param inp.msg 1) k c cs
                  behind (next_ladder_nick-ladder s (param inp.msg 1) c cs e) in
              ap (λ t. t.phase) (try_next s inp inps waits refusal c cs e)
              ∙ refusals_from (record s { nick = c ∷ cs }) inps j waits refusals
                  (unfold ladder_of in behind') (omega arith)
        ]

    -- A server that answers with a nick error often enough ends a registration that waits for its
    -- welcome: 22 of 432, 433 or 437 (the last one for the target `*`), whatever nick each one
    -- names, and the phase is failed.
    pub feed-IsRefusal :
        (s : State Conv) (inps : List Input)
        → is_terminal s.phase ≡ false
        → s.got_welcome ≡ false
        → All IsRefusal inps
        → 22 ≤ length inps
        → (feed new_client converse s inps).0.phase ≡ failed
    feed-IsRefusal s [] going unwelcomed refusals h = absurd (omega arith)
    feed-IsRefusal s (inp ∷ inps) going unwelcomed (refusal, refusals) h =
        let waits : Waits s = (going, unwelcomed) in
        elim (List-cases (next_ladder_nick s (param inp.msg 1))) [
          | inl e ↦ fail_now s inp inps waits refusal e
          | inr (c, cs, e) ↦
              let (j, behind, lt) =
                first-Behind s.isupport.case_mapping (ladder_of s) s.nick (param inp.msg 1) c cs
                  (next_ladder_nick-ladder s (param inp.msg 1) c cs e) in
              let rungs =
                length-build_nick_ladder s.primary_nick s.alt_nick (nick_len s.isupport) in
              ap (λ t. t.phase) (try_next s inp inps waits refusal c cs e)
              ∙ refusals_from (record s { nick = c ∷ cs }) inps j waits refusals
                  (unfold ladder_of in behind) (unfold ladder_of in omega arith)
        ]
