-- ===== src/Registration/Announce.antt =====
-- internal/registration: how a run says that the registration is over.
pub mod Exchange
pub mod Runs
use go_bnc.Registration.Base64.{encode_base64}
use go_bnc.Registration.Step.{
  ack_all, desired_caps, dispatch, is_terminal, offer_all, request_caps, request_from, step,
  step_cap, step_cap_ack, step_cap_ls, step_end_of_motd, step_error, step_store, step_welcome,
  command_of, Command, cap, authenticate, logged_in, sasl_outcome, welcome, end_of_motd,
  nick_refused, error, other,
}
use go_bnc.Irc.Message.Access.{param}
use go_bnc.Registration.Sasl.{
  send_authenticate, start_sasl, authenticate_line, step_sasl_outcome, abort_sasl, chunks,
  forget_mech, fail_with, pick_sasl_mech, answer_scram, challenge_scram, continue_mech,
  step_authenticate, step_scram, decoded_scram, password_ok, plain_payload, step_external,
  step_plain, step_logged_in,
}
use go_bnc.Registration.Nick.{take_nick, step_nick_error, next_ladder_nick}
use go_bnc.Registration.State.{
  Action, Input, Outcome, Phase, Reason, State, authenticating, awaiting_welcome, bad_challenge,
  cap_negotiation, complete, failed, failure, plain_missing, registered, scram_library,
  scram_missing, send, unexpected_mechanism,
}
use go_bnc.Irc.Message.Access.{param, trailing}
use go_bnc.Registration.Step.{
  ack_all, desired_caps, dispatch, is_terminal, offer_all, request_caps, request_from, step,
  step_cap, step_cap_ack, step_cap_ls, step_end_of_motd, step_error, step_store, step_welcome,
  command_of, Command, cap, authenticate, logged_in, sasl_outcome, welcome, end_of_motd,
  nick_refused, error, other,
}
use go_bnc.Registration.Runs.{feed}
use go_bnc.Base.{
  Bool, Bytes, List, [], ap, arith, codes, fields, length, map, none, refl, some, sym, ◌++◌, ◌∷◌,
  ◌≡◌,
}

-- The phases that actions announce.
abbrev pub announced : List Action → List Phase
announced [] = []
announced (send line r ∷ acts) = announced acts
announced (registered r ∷ acts) = complete ∷ announced acts
announced (failure reason r ∷ acts) = failed ∷ announced acts

abbrev pub announcement : Phase → List Phase
announcement complete = complete ∷ []
announcement failed = failed ∷ []
announcement _ = []

pub announced-append :
    (acts bs : List Action) → announced (acts ++ bs) ≡ announced acts ++ announced bs
announced-append [] bs = refl
announced-append (send line r ∷ acts) bs = announced-append acts bs
announced-append (registered r ∷ acts) bs = ap (λ t. complete ∷ t) (announced-append acts bs)
announced-append (failure reason r ∷ acts) bs = ap (λ t. failed ∷ t) (announced-append acts bs)

pub announced-lines :
    (r : Bool) (texts : List Bytes) → announced (map (authenticate_line r) texts) ≡ []
announced-lines r [] = refl
announced-lines r (t ∷ ts) = announced-lines r ts

module _ {Conv : Type 0} where
  -- The actions announce the phase that is reached, if it is terminal, and nothing else.
  abbrev pub Announces : Outcome Conv → Type 0
  Announces o = announced o.1 ≡ announcement o.0.phase

  module _ (s : State Conv) (inp : Input) (going : announcement s.phase ≡ []) where
    pub take_nick-Announces : (next : Bytes) → Announces (take_nick s inp next)
    unfolding take_nick
    take_nick-Announces [] = refl
    take_nick-Announces (c ∷ cs) = sym going

    pub nick_error-Announces : Announces (step_nick_error s inp)
    unfolding step_nick_error
    nick_error-Announces =
        ground (arith, take_nick-Announces (next_ladder_nick s (param inp.msg 1)))

    pub outcome-Announces : Announces (step_sasl_outcome s inp)
    unfolding step_sasl_outcome forget_mech fail_with
    outcome-Announces = ground arith

    pub start-Announces : Announces (start_sasl s inp)
    unfolding start_sasl fail_with
    start-Announces = elim (pick_sasl_mech s) [ none ↦ ground arith | some mech ↦ ground arith ]

    pub abort-Announces : (reason : Reason) → Announces (abort_sasl s inp reason)
    unfolding abort_sasl forget_mech fail_with
    abort-Announces reason = ground arith

    pub send-Announces : (b64 : Bytes) → Announces (send_authenticate s inp b64)
    unfolding send_authenticate
    send-Announces b64 = ground (arith, announced-lines inp.replay (chunks (length b64) b64))

  module _ (s : State Conv) (inp : Input) (going : announcement s.phase ≡ []) where
    pub request-Announces : (caps : List Bytes) → Announces (request_caps s inp caps)
    unfolding request_caps
    request-Announces [] = refl
    request-Announces (r ∷ rs) = sym going

  module _ (s : State Conv) (inp : Input) (going : announcement s.phase ≡ []) where
    pub cap_ls-Announces : Announces (step_cap_ls s inp)
    unfolding step_cap_ls
    cap_ls-Announces =
        let offered' = offer_all s.offered (fields (trailing inp.msg)) in
        ground (
          arith,
          request-Announces (record s { offered = offered' }) inp going
              (request_from s.sasl.wanted offered' desired_caps),
        )

    pub cap_ack-Announces : Announces (step_cap_ack s inp)
    unfolding step_cap_ack
    cap_ack-Announces =
        let acked' = ack_all s.acked (fields (trailing inp.msg)) in
        ground (arith, start-Announces (record s { acked = acked' }) inp going)

    pub welcome-Announces : Announces (step_welcome s inp)
    unfolding step_welcome
    welcome-Announces = ground arith

    pub end_of_motd-Announces : Announces (step_end_of_motd s inp)
    unfolding step_end_of_motd
    end_of_motd-Announces = ground arith

    pub error-Announces : Announces (step_error s inp)
    unfolding step_error fail_with
    error-Announces = refl

    pub store-Announces : Announces (step_store s inp)
    unfolding step_store
    store-Announces = ground arith

  module _ (s : State Conv) (inp : Input) (going : announcement s.phase ≡ []) where
    pub cap-Announces : Announces (step_cap s inp)
    unfolding step_cap
    cap-Announces = ground (arith, cap_ls-Announces s inp going, cap_ack-Announces s inp going)

  module _ (s : State Conv) (inp : Input) (going : announcement s.phase ≡ []) where
    pub plain-Announces : (text : Bytes) → Announces (step_plain s inp text)
    unfolding step_plain
    plain-Announces text = ground (
      arith,
      abort-Announces s inp going plain_missing,
      send-Announces s inp going (encode_base64 (plain_payload s.sasl)),
    )

    pub external-Announces : (text : Bytes) → Announces (step_external s inp text)
    unfolding step_external
    external-Announces text = ground (
      arith,
      send-Announces s inp going (codes "+"),
      send-Announces s inp going (encode_base64 s.sasl.user),
    )
