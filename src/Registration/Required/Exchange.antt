-- ===== src/Registration/Required/Exchange.antt =====
-- internal/registration/sasl.go: the exchange, where SASL is required.
use go_bnc.Registration.Required.{
  Withholds, IsOpen, quiet-Withholds, abort-Withholds, send-Withholds,
}
use go_bnc.Registration.State.{
  Input, Outcome, State, bad_challenge, plain_missing, scram_library, scram_missing,
  unexpected_mechanism,
}
use go_bnc.Registration.Sasl.{
  password_ok, plain_payload, forget_mech, answer_scram, challenge_scram, decoded_scram, step_scram,
  step_plain, step_external, continue_mech, step_authenticate,
}
use go_bnc.Registration.Base64.{encode_base64}
use go_bnc.Irc.Message.Access.{param}
use go_bnc.Base.{Bool-cases, Bytes, Option, [], arith, codes, inl, inr, none, some, ◌∷◌, ◌⊎◌}

module _ {Conv : Type 0} where
  module _ (s : State Conv) (inp : Input) (open_yet : IsOpen s) (text : Bytes) where
    plain-Withholds : Withholds s (step_plain s inp text)
    unfolding step_plain
    plain-Withholds = ground (
      arith,
      abort-Withholds s inp open_yet plain_missing,
      send-Withholds s inp open_yet (encode_base64 (plain_payload s.sasl)),
    )

    external-Withholds : Withholds s (step_external s inp text)
    unfolding step_external
    external-Withholds = ground (
      arith,
      send-Withholds s inp open_yet (codes "+"),
      send-Withholds s inp open_yet (encode_base64 s.sasl.user),
    )

  conv-IsOpen :
      (s : State Conv) (conv : Conv) → IsOpen s → IsOpen (record s { scram_conv = some conv })
  conv-IsOpen s conv v = record { unwelcomed = v.unwelcomed; required = v.required }

  -- A new conversation changes nothing that is looked at.
  conv-Withholds :
      (s : State Conv) (conv : Conv) (o : Outcome Conv)
      → Withholds (record s { scram_conv = some conv }) o
      → Withholds s o
  conv-Withholds s conv o h = record {
    sasl_kept = h.sasl_kept;
    welcome_kept = h.welcome_kept;
    phase_or_failed = h.phase_or_failed;
    no_end = h.no_end;
  }

  module _ (new_client : Bytes → Bytes → Bytes → Bytes ⊎ Conv)
      (converse : Conv → Bytes → Bytes ⊎ (Bytes × Conv)) where
    module _ (s : State Conv) (inp : Input) (open_yet : IsOpen s) where
      answer-Withholds :
          (r : Bytes ⊎ (Bytes × Conv)) → Withholds s (answer_scram new_client converse s inp r)
      unfolding answer_scram
      answer-Withholds (inl text) = abort-Withholds s inp open_yet (scram_library text)
      answer-Withholds (inr ([], conv)) = conv-Withholds s conv _ (
          send-Withholds (record s { scram_conv = some conv }) inp (conv-IsOpen s conv open_yet)
            (codes "+"))
      answer-Withholds (inr (c ∷ cs, conv)) = conv-Withholds s conv _ (
          send-Withholds (record s { scram_conv = some conv }) inp (conv-IsOpen s conv open_yet)
            (encode_base64 (c ∷ cs)))

      challenge-Withholds :
          (challenge : Bytes) (c : Bytes ⊎ Conv)
          → Withholds s (challenge_scram new_client converse s inp challenge c)
      unfolding challenge_scram
      challenge-Withholds challenge (inl text) = abort-Withholds s inp open_yet (scram_library text)
      challenge-Withholds challenge (inr conv) = answer-Withholds (converse conv challenge)

      decoded-Withholds :
          (challenge : Option Bytes)
          → Withholds s (decoded_scram new_client converse s inp challenge)
      unfolding decoded_scram
      decoded-Withholds none = abort-Withholds s inp open_yet bad_challenge
      decoded-Withholds (some challenge) = challenge-Withholds challenge _

      scram-Withholds : (text : Bytes) → Withholds s (step_scram new_client converse s inp text)
      unfolding step_scram
      scram-Withholds text = elim (Bool-cases (password_ok s.sasl)) [
        | inl e ↦ rw e (decoded-Withholds _)
        | inr e ↦ rw e (abort-Withholds s inp open_yet scram_missing)
      ]

      mech-Withholds : (text : Bytes) → Withholds s (continue_mech new_client converse s inp text)
      unfolding continue_mech
      mech-Withholds text = ground (
        arith,
        plain-Withholds s inp open_yet text,
        external-Withholds s inp open_yet text,
        scram-Withholds text,
        abort-Withholds s inp open_yet (unexpected_mechanism s.sasl_mech),
      )

      pub authenticate-Withholds : Withholds s (step_authenticate new_client converse s inp)
      unfolding step_authenticate forget_mech
      authenticate-Withholds =
          ground (arith, quiet-Withholds s inp open_yet, mech-Withholds (param inp.msg 0))
