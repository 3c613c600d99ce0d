-- ===== src/Registration/Post/Registered.antt =====
-- internal/registration/sasl.go: what `StepPost` leaves alone.
use go_bnc.Registration.Validity.{IsValid}
use go_bnc.Registration.State.{
  Action, Input, Outcome, Reason, State, bad_challenge, failure, plain_missing, registered,
  scram_library, scram_missing, send, unexpected_mechanism,
}
use go_bnc.Registration.Step.{ack_all, offer_mechs}
use go_bnc.Registration.Sasl.{
  password_ok, chunks, authenticate_line, plain_payload, pick_sasl_mech, forget_mech,
  step_sasl_outcome, abort_sasl, send_authenticate, answer_scram, challenge_scram, decoded_scram,
  step_scram, step_plain, step_external, continue_mech, step_authenticate,
}
use go_bnc.Registration.Post.{
  is_complete, reauthenticate, post_cap_ack, post_cap, post_dispatch, step_post,
}
use go_bnc.Registration.Base64.{encode_base64}
use go_bnc.Irc.Message.Access.{param, trailing}
use go_bnc.Base.{
  All, Bool, Bool-cases, Bytes, List, Option, Option-cases, [], arith, codes, fields, inl, inr,
  length, map, none, refl, some, true, ◌∷◌, ◌≡◌, ◌⊎◌,
}

abbrev pub IsSend : Action → Type 0
IsSend (send line r) = Unit
IsSend (registered r) = ⊥
IsSend (failure reason r) = ⊥

sends-IsSend : (r : Bool) (texts : List Bytes) → All IsSend (map (authenticate_line r) texts)
sends-IsSend r [] = tt
sends-IsSend r (t ∷ ts) = (tt, sends-IsSend r ts)

-- The registration is as it was, and the actions only send lines.
pub record StaysRegistered {Conv : Type 0} (s : State Conv) (o : Outcome Conv) : Type 0 where
  pub phase_kept : o.0.phase ≡ s.phase
  pub welcome_kept : o.0.got_welcome ≡ s.got_welcome
  pub reason_kept : o.0.failure_reason ≡ s.failure_reason
  pub nick_kept : o.0.nick ≡ s.nick
  pub only_sends : All IsSend o.1

module _ {Conv : Type 0} where
  module _ (s : State Conv) (inp : Input) (welcomed : s.got_welcome ≡ true) where
    quiet-StaysRegistered : StaysRegistered s (s, [])
    quiet-StaysRegistered = record {
      phase_kept = refl;
      welcome_kept = refl;
      reason_kept = refl;
      nick_kept = refl;
      only_sends = tt;
    }

    outcome-StaysRegistered : StaysRegistered s (step_sasl_outcome s inp)
    unfolding step_sasl_outcome forget_mech
    outcome-StaysRegistered = rw welcomed (ground arith)

    abort-StaysRegistered : (reason : Reason) → StaysRegistered s (abort_sasl s inp reason)
    unfolding abort_sasl forget_mech
    abort-StaysRegistered reason = ground arith

    send-StaysRegistered : (b64 : Bytes) → StaysRegistered s (send_authenticate s inp b64)
    unfolding send_authenticate
    send-StaysRegistered b64 = ground (arith, sends-IsSend inp.replay (chunks (length b64) b64))

  module _ (s : State Conv) (inp : Input) (welcomed : s.got_welcome ≡ true) (text : Bytes) where
    plain-StaysRegistered : StaysRegistered s (step_plain s inp text)
    unfolding step_plain
    plain-StaysRegistered = ground (
      arith,
      abort-StaysRegistered s inp welcomed plain_missing,
      send-StaysRegistered s inp welcomed (encode_base64 (plain_payload s.sasl)),
    )

    external-StaysRegistered : StaysRegistered s (step_external s inp text)
    unfolding step_external
    external-StaysRegistered = ground (
      arith,
      send-StaysRegistered s inp welcomed (codes "+"),
      send-StaysRegistered s inp welcomed (encode_base64 s.sasl.user),
    )

  -- A new conversation changes nothing that is looked at.
  conv-StaysRegistered :
      (s : State Conv) (conv : Conv) (o : Outcome Conv)
      → StaysRegistered (record s { scram_conv = some conv }) o
      → StaysRegistered s o
  conv-StaysRegistered s conv o h = ground (arith, h)

  module _ (new_client : Bytes → Bytes → Bytes → Bytes ⊎ Conv)
      (converse : Conv → Bytes → Bytes ⊎ (Bytes × Conv)) where
    module _ (s : State Conv) (inp : Input) (welcomed : s.got_welcome ≡ true) where
      answer-StaysRegistered :
          (r : Bytes ⊎ (Bytes × Conv))
          → StaysRegistered s (answer_scram new_client converse s inp r)
      unfolding answer_scram
      answer-StaysRegistered (inl text) = abort-StaysRegistered s inp welcomed (scram_library text)
      answer-StaysRegistered (inr ([], conv)) =
          conv-StaysRegistered s conv _
            (send-StaysRegistered (record s { scram_conv = some conv }) inp welcomed (codes "+"))
      answer-StaysRegistered (inr (c ∷ cs, conv)) = conv-StaysRegistered s conv _ (
          send-StaysRegistered (record s { scram_conv = some conv }) inp welcomed
            (encode_base64 (c ∷ cs)))

      challenge-StaysRegistered :
          (challenge : Bytes) (c : Bytes ⊎ Conv)
          → StaysRegistered s (challenge_scram new_client converse s inp challenge c)
      unfolding challenge_scram
      challenge-StaysRegistered challenge (inl text) =
          abort-StaysRegistered s inp welcomed (scram_library text)
      challenge-StaysRegistered challenge (inr conv) =
          answer-StaysRegistered (converse conv challenge)

      decoded-StaysRegistered :
          (challenge : Option Bytes)
          → StaysRegistered s (decoded_scram new_client converse s inp challenge)
      unfolding decoded_scram
      decoded-StaysRegistered none = abort-StaysRegistered s inp welcomed bad_challenge
      decoded-StaysRegistered (some challenge) = challenge-StaysRegistered challenge _

      scram-StaysRegistered :
          (text : Bytes) → StaysRegistered s (step_scram new_client converse s inp text)
      unfolding step_scram
      scram-StaysRegistered text = elim (Bool-cases (password_ok s.sasl)) [
        | inl e ↦ rw e (decoded-StaysRegistered _)
        | inr e ↦ rw e (abort-StaysRegistered s inp welcomed scram_missing)
      ]

      mech-StaysRegistered :
          (text : Bytes) → StaysRegistered s (continue_mech new_client converse s inp text)
      unfolding continue_mech
      mech-StaysRegistered text = ground (
        arith,
        plain-StaysRegistered s inp welcomed text,
        external-StaysRegistered s inp welcomed text,
        scram-StaysRegistered text,
        abort-StaysRegistered s inp welcomed (unexpected_mechanism s.sasl_mech),
      )

      authenticate-StaysRegistered : StaysRegistered s (step_authenticate new_client converse s inp)
      unfolding step_authenticate forget_mech
      authenticate-StaysRegistered =
          ground
            (arith, quiet-StaysRegistered s inp welcomed, mech-StaysRegistered (param inp.msg 0))

      post_cap_ack-StaysRegistered : StaysRegistered s (post_cap_ack s inp)
      unfolding post_cap_ack reauthenticate
      post_cap_ack-StaysRegistered =
          let raws = fields (trailing inp.msg) in
          let s' : State Conv = record s {
            acked = ack_all s.acked raws;
            offered = offer_mechs s.offered raws;
          } in
          elim (Option-cases (pick_sasl_mech s')) [
            | inl e ↦ ground arith
            | inr (mech, e) ↦ ground arith
          ]

      post_cap-StaysRegistered : StaysRegistered s (post_cap s inp)
      unfolding post_cap
      post_cap-StaysRegistered = ground (arith, post_cap_ack-StaysRegistered)

    -- Whatever the server sends after registration, `StepPost` leaves the phase, the welcome, the
    -- error and the nick as they are, and only sends lines: it announces neither a registration
    -- nor a failure.
    pub step_post-StaysRegistered :
        {s : State Conv}
        → IsValid s
        → (inp : Input) → StaysRegistered s (step_post new_client converse s inp)
    unfolding step_post post_dispatch is_complete
    step_post-StaysRegistered {s} v inp = elim (Bool-cases (is_complete s.phase)) [
      | inr going ↦ ground arith
      | inl over ↦
          let welcomed : s.got_welcome ≡ true = ground (arith, v) in
          ground (
            arith,
            post_cap-StaysRegistered s inp welcomed,
            authenticate-StaysRegistered s inp welcomed,
            outcome-StaysRegistered s inp welcomed,
          )
    ]
