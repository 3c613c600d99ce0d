-- ===== src/Registration/Replay/Exchange.antt =====
-- internal/registration/sasl.go: a replayed SASL exchange is handled as a live one.
use go_bnc.Registration.State.{
  Input, State, bad_challenge, plain_missing, scram_library, scram_missing, unexpected_mechanism,
}
use go_bnc.Registration.Sasl.{
  password_ok, plain_payload, answer_scram, challenge_scram, decoded_scram, step_scram, step_plain,
  step_external, continue_mech, step_authenticate,
}
use go_bnc.Registration.Base64.{encode_base64}
use go_bnc.Irc.Message.Access.{param}
use go_bnc.Registration.Replay.{Replays, abort-Replays, send-Replays}
use go_bnc.Base.{Bool-cases, Bytes, Option, [], arith, codes, inl, inr, none, some, ◌∷◌, ◌⊎◌}

module _ {Conv : Type 0} where
  module _ (s : State Conv) (inp : Input) (text : Bytes) where
    plain-Replays : Replays inp.nonce inp (λ i. step_plain s i text)
    unfolding step_plain
    plain-Replays = ground (
      arith,
      abort-Replays s inp inp.nonce plain_missing,
      send-Replays s inp inp.nonce (encode_base64 (plain_payload s.sasl)),
    )

    external-Replays : Replays inp.nonce inp (λ i. step_external s i text)
    unfolding step_external
    external-Replays = ground (
      arith,
      send-Replays s inp inp.nonce (codes "+"),
      send-Replays s inp inp.nonce (encode_base64 s.sasl.user),
    )

  module _ (new_client : Bytes → Bytes → Bytes → Bytes ⊎ Conv)
      (converse : Conv → Bytes → Bytes ⊎ (Bytes × Conv)) where
    module _ (s : State Conv) (inp : Input) where
      answer-Replays :
          (r : Bytes ⊎ (Bytes × Conv))
          → Replays inp.nonce inp (λ i. answer_scram new_client converse s i r)
      unfolding answer_scram
      answer-Replays (inl text) = abort-Replays s inp inp.nonce (scram_library text)
      answer-Replays (inr ([], conv)) =
          send-Replays (record s { scram_conv = some conv }) inp inp.nonce (codes "+")
      answer-Replays (inr (c ∷ cs, conv)) =
          send-Replays (record s { scram_conv = some conv }) inp inp.nonce (encode_base64 (c ∷ cs))

      challenge-Replays :
          (challenge : Bytes) (c : Bytes ⊎ Conv)
          → Replays inp.nonce inp (λ i. challenge_scram new_client converse s i challenge c)
      unfolding challenge_scram
      challenge-Replays challenge (inl text) = abort-Replays s inp inp.nonce (scram_library text)
      challenge-Replays challenge (inr conv) = answer-Replays (converse conv challenge)

      decoded-Replays :
          (challenge : Option Bytes)
          → Replays inp.nonce inp (λ i. decoded_scram new_client converse s i challenge)
      unfolding decoded_scram
      decoded-Replays none = abort-Replays s inp inp.nonce bad_challenge
      decoded-Replays (some challenge) = challenge-Replays challenge _

      scram-Replays :
          (text : Bytes) → Replays inp.nonce inp (λ i. step_scram new_client converse s i text)
      unfolding step_scram
      scram-Replays text = elim (Bool-cases (password_ok s.sasl)) [
        | inl e ↦ rw e (decoded-Replays _)
        | inr e ↦ rw e (abort-Replays s inp inp.nonce scram_missing)
      ]

      mech-Replays :
          (text : Bytes) → Replays inp.nonce inp (λ i. continue_mech new_client converse s i text)
      unfolding continue_mech
      mech-Replays text = ground (
        arith,
        plain-Replays s inp text,
        external-Replays s inp text,
        scram-Replays text,
        abort-Replays s inp inp.nonce (unexpected_mechanism s.sasl_mech),
      )

      pub authenticate-Replays : Replays inp.nonce inp (step_authenticate new_client converse s)
      unfolding step_authenticate
      authenticate-Replays = ground (arith, mech-Replays (param inp.msg 0))
