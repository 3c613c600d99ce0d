-- ===== src/Registration/Validity/Exchange.antt =====
-- internal/registration/sasl.go: the SASL exchange keeps the state valid.
use go_bnc.Registration.State.{Input, State, SaslConfig, bad_challenge, scram_library}
use go_bnc.Registration.Sasl.{
  plain_name, external_name, scram_name, password_ok, plain_payload, answer_scram, challenge_scram,
  decoded_scram, step_scram, step_plain, step_external, continue_mech, step_authenticate,
  forget_mech,
}
use go_bnc.Registration.Base64.{encode_base64}
use go_bnc.Registration.Validity.{IsValid, is_failed, can_use, abort-IsValid, send-IsValid, param}
use go_bnc.Base.{
  Bool-cases, Bytes, Option, [], ap, arith, codes, false, inl, inr, is_empty, none, refl, some,
  text_eq, text_eq_iff, to_upper, true, ◌∷◌, ◌≡◌, ◌⊎◌,
}

Mechanism : SaslConfig → Bytes → Type 0
Mechanism c mech =
    (mech ≡ external_name)
    ⊎ ((mech ≡ plain_name) × (password_ok c ≡ true))
    ⊎ ((mech ≡ scram_name) × (password_ok c ≡ true))

can_use-Mechanism : (c : SaslConfig) (mech : Bytes) → can_use c mech ≡ true → Mechanism c mech
unfolding Mechanism
can_use-Mechanism c mech h = ground (
  arith,
  text_eq_iff mech external_name,
  text_eq_iff mech plain_name,
  text_eq_iff mech scram_name,
)

module _ {Conv : Type 0} where
  module _ {s : State Conv} (inp : Input) (v : IsValid s) (alive : is_failed s.phase ≡ false) where
    plain-IsValid : (text : Bytes) → password_ok s.sasl ≡ true → IsValid (step_plain s inp text).0
    unfolding step_plain
    plain-IsValid text ok =
        ground (arith, send-IsValid inp v alive (encode_base64 (plain_payload s.sasl)))

    external-IsValid : (text : Bytes) → IsValid (step_external s inp text).0
    unfolding step_external
    external-IsValid text = ground (
      arith,
      send-IsValid inp v alive (codes "+"),
      send-IsValid inp v alive (encode_base64 s.sasl.user),
    )

  module _ (new_client : Bytes → Bytes → Bytes → Bytes ⊎ Conv)
      (converse : Conv → Bytes → Bytes ⊎ (Bytes × Conv)) where
    module _ {s : State Conv} (inp : Input) (v : IsValid s) (alive : is_failed s.phase ≡ false)
        (scram : text_eq s.sasl_mech scram_name ≡ true) where
      conv-IsValid : (conv : Conv) → IsValid (record s { scram_conv = some conv })
      conv-IsValid conv = ground (arith, v)

      answer-IsValid :
          (r : Bytes ⊎ (Bytes × Conv)) → IsValid (answer_scram new_client converse s inp r).0
      unfolding answer_scram
      answer-IsValid (inl text) = abort-IsValid inp v alive (scram_library text) refl
      answer-IsValid (inr ([], conv)) = send-IsValid inp (conv-IsValid conv) alive (codes "+")
      answer-IsValid (inr (c ∷ cs, conv)) =
          send-IsValid inp (conv-IsValid conv) alive (encode_base64 (c ∷ cs))

      challenge-IsValid :
          (challenge : Bytes) (c : Bytes ⊎ Conv)
          → IsValid (challenge_scram new_client converse s inp challenge c).0
      unfolding challenge_scram
      challenge-IsValid challenge (inl text) = abort-IsValid inp v alive (scram_library text) refl
      challenge-IsValid challenge (inr conv) = answer-IsValid (converse conv challenge)

      decoded-IsValid :
          (challenge : Option Bytes) → IsValid (decoded_scram new_client converse s inp challenge).0
      unfolding decoded_scram
      decoded-IsValid none = abort-IsValid inp v alive bad_challenge refl
      decoded-IsValid (some challenge) = challenge-IsValid challenge _

      scram-IsValid :
          (text : Bytes)
          → password_ok s.sasl ≡ true
          → IsValid (step_scram new_client converse s inp text).0
      unfolding step_scram
      scram-IsValid text ok = rw ok (decoded-IsValid _)

    module _ {s : State Conv} (inp : Input) (v : IsValid s)
        (alive : is_failed s.phase ≡ false) where
      mech-IsValid :
          (text : Bytes)
          → Mechanism s.sasl s.sasl_mech
          → IsValid (continue_mech new_client converse s inp text).0
      unfolding Mechanism continue_mech to_upper text_eq
      mech-IsValid text (inl e) = ground (arith, ap to_upper e, external-IsValid inp v alive text)
      mech-IsValid text (inr (inl (e, ok))) =
          ground (arith, ap to_upper e, plain-IsValid inp v alive text ok)
      mech-IsValid text (inr (inr (e, ok))) = ground (
        arith,
        ap to_upper e,
        scram-IsValid inp v alive (ap (λ m. text_eq m scram_name) e) text ok,
      )

      pub authenticate-IsValid : IsValid (step_authenticate new_client converse s inp).0
      unfolding step_authenticate forget_mech is_empty
      authenticate-IsValid = elim (Bool-cases (is_empty s.sasl_mech)) [
        | inl idle ↦ ground arith
        | inr busy ↦
            let known : can_use s.sasl s.sasl_mech ≡ true = ground (arith, v.mech_allowed) in
            ground
              (arith, mech-IsValid (param inp.msg 0) (can_use-Mechanism s.sasl s.sasl_mech known))
      ]
