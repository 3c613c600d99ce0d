-- ===== src/Registration/Announce/Exchange.antt =====
-- internal/registration/sasl.go: what the SASL exchange announces.
use go_bnc.Registration.Base64.{encode_base64}
use go_bnc.Irc.Message.Access.{param}
use go_bnc.Registration.Sasl.{
  forget_mech, answer_scram, challenge_scram, continue_mech, step_authenticate, step_scram,
  decoded_scram, password_ok,
}
use go_bnc.Registration.State.{
  Input, State, bad_challenge, scram_library, scram_missing, unexpected_mechanism,
}
use go_bnc.Irc.Message.Access.{param}
use go_bnc.Base.{Bool-cases, Bytes, Option, [], arith, codes, inl, inr, none, some, ◌∷◌, ◌≡◌, ◌⊎◌}
use go_bnc.Registration.Announce.{
  Announces, announcement, abort-Announces, send-Announces, plain-Announces, external-Announces,
}

module _ {Conv : Type 0} where
  module _ (new_client : Bytes → Bytes → Bytes → Bytes ⊎ Conv)
      (converse : Conv → Bytes → Bytes ⊎ (Bytes × Conv)) where
    pub answer-Announces :
        (s : State Conv) (inp : Input)
        → announcement s.phase ≡ []
        → (r : Bytes ⊎ (Bytes × Conv)) → Announces (answer_scram new_client converse s inp r)
    unfolding answer_scram
    answer-Announces s inp going (inl text) = abort-Announces s inp going (scram_library text)
    answer-Announces s inp going (inr ([], conv)) =
        send-Announces (record s { scram_conv = some conv }) inp going (codes "+")
    answer-Announces s inp going (inr (c ∷ cs, conv)) =
        send-Announces (record s { scram_conv = some conv }) inp going (encode_base64 (c ∷ cs))

    pub challenge-Announces :
        (s : State Conv) (inp : Input)
        → announcement s.phase ≡ []
        → (challenge : Bytes) (c : Bytes ⊎ Conv)
        → Announces (challenge_scram new_client converse s inp challenge c)
    unfolding challenge_scram
    challenge-Announces s inp going challenge (inl text) =
        abort-Announces s inp going (scram_library text)
    challenge-Announces s inp going challenge (inr conv) =
        answer-Announces s inp going (converse conv challenge)

    pub decoded-Announces :
        (s : State Conv) (inp : Input)
        → announcement s.phase ≡ []
        → (challenge : Option Bytes) → Announces (decoded_scram new_client converse s inp challenge)
    unfolding decoded_scram
    decoded-Announces s inp going none = abort-Announces s inp going bad_challenge
    decoded-Announces s inp going (some challenge) = challenge-Announces s inp going challenge _

    module _ (s : State Conv) (inp : Input) (going : announcement s.phase ≡ []) where
      pub scram-Announces : (text : Bytes) → Announces (step_scram new_client converse s inp text)
      unfolding step_scram
      scram-Announces text = elim (Bool-cases (password_ok s.sasl)) [
        | inl e ↦ rw e (decoded-Announces s inp going _)
        | inr e ↦ rw e (abort-Announces s inp going scram_missing)
      ]

    module _ (s : State Conv) (inp : Input) (going : announcement s.phase ≡ []) where
      pub mech-Announces : (text : Bytes) → Announces (continue_mech new_client converse s inp text)
      unfolding continue_mech
      mech-Announces text = ground (
        arith,
        scram-Announces s inp going text,
        plain-Announces s inp going text,
        external-Announces s inp going text,
        abort-Announces s inp going (unexpected_mechanism s.sasl_mech),
      )

      pub authenticate-Announces : Announces (step_authenticate new_client converse s inp)
      unfolding step_authenticate forget_mech
      authenticate-Announces = ground (arith, mech-Announces (param inp.msg 0))
