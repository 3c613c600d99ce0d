-- ===== src/Registration/Validity/Runs.antt =====
-- internal/registration: `Step` and `StepPost` keep the state valid.
use go_bnc.Irc.Message.{Tags}
use go_bnc.Registration.State.{Input, Phase, State, SaslConfig, new}
use go_bnc.Registration.Step.{
  ack_all, desired_caps, dispatch, is_terminal, offer_all, request_from, step, step_cap,
  step_cap_ack, step_cap_ls, command_of, Command, cap, authenticate, logged_in, sasl_outcome,
  welcome, end_of_motd, nick_refused, error, other,
}
use go_bnc.Registration.Sasl.{step_logged_in}
use go_bnc.Registration.Nick.{next_ladder_nick, step_nick_error}
use go_bnc.Irc.Message.Access.{param, trailing}
use go_bnc.Registration.Validity.{
  IsValid, is_failed, start-IsValid, request-IsValid, outcome-IsValid, welcome-IsValid,
  end_of_motd-IsValid, take_nick-IsValid, error-IsValid, store-IsValid,
}
use go_bnc.Registration.Validity.Exchange.{authenticate-IsValid}
use go_bnc.Base.{Bool, Bytes, List, arith, false, fields, inl, inr, is_empty, true, ◌≡◌, ◌⊎◌}

module _ {Conv : Type 0} where
  module _ {s : State Conv} (v : IsValid s) where
    -- What the machine has read of capabilities does not matter.
    pub offered-IsValid : (offered' : Tags) → IsValid (record s { offered = offered' })
    offered-IsValid offered' = ground (arith, v)

    pub acked-IsValid : (acked' : List (Bytes × Bool)) → IsValid (record s { acked = acked' })
    acked-IsValid acked' = ground (arith, v)

  module _ {s : State Conv} (inp : Input) (v : IsValid s) (alive : is_failed s.phase ≡ false) where
    cap_ls-IsValid : IsValid (step_cap_ls s inp).0
    unfolding step_cap_ls
    cap_ls-IsValid =
        let offered' = offer_all s.offered (fields (trailing inp.msg)) in
        ground (
          arith,
          offered-IsValid v offered',
          request-IsValid inp (offered-IsValid v offered') alive
              (request_from s.sasl.wanted offered' desired_caps),
        )

    cap_ack-IsValid : IsValid (step_cap_ack s inp).0
    unfolding step_cap_ack
    cap_ack-IsValid =
        let acked' = ack_all s.acked (fields (trailing inp.msg)) in
        ground (arith, acked-IsValid v acked', start-IsValid inp (acked-IsValid v acked') alive)

    cap-IsValid : IsValid (step_cap s inp).0
    unfolding step_cap
    cap-IsValid = ground (arith, cap_ls-IsValid, cap_ack-IsValid)

    nick_error-IsValid : IsValid (step_nick_error s inp).0
    unfolding step_nick_error
    nick_error-IsValid =
        ground (arith, take_nick-IsValid inp v alive (next_ladder_nick s (param inp.msg 1)))

    module _ (new_client : Bytes → Bytes → Bytes → Bytes ⊎ Conv)
        (converse : Conv → Bytes → Bytes ⊎ (Bytes × Conv)) where
      dispatch-IsValid : (c : Command) → IsValid (dispatch new_client converse c s inp).0
      unfolding dispatch step_logged_in
      dispatch-IsValid cap = cap-IsValid
      dispatch-IsValid authenticate = authenticate-IsValid new_client converse inp v alive
      dispatch-IsValid logged_in = v
      dispatch-IsValid sasl_outcome = outcome-IsValid inp v alive
      dispatch-IsValid welcome = welcome-IsValid inp v alive
      dispatch-IsValid end_of_motd = end_of_motd-IsValid inp v alive
      dispatch-IsValid nick_refused = nick_error-IsValid
      dispatch-IsValid error = error-IsValid inp v alive
      dispatch-IsValid other = store-IsValid inp v alive

  module _ (new_client : Bytes → Bytes → Bytes → Bytes ⊎ Conv)
      (converse : Conv → Bytes → Bytes ⊎ (Bytes × Conv)) where
    terminal_or_alive : (p : Phase) → (is_terminal p ≡ true) ⊎ (is_failed p ≡ false)
    unfolding is_terminal
    terminal_or_alive p = ground arith

    pub step-IsValid :
        {s : State Conv} (inp : Input) → IsValid s → IsValid (step new_client converse s inp).0
    unfolding step
    step-IsValid {s} inp v = elim (terminal_or_alive s.phase) [
      | inl over ↦ ground (arith, v)
      | inr alive ↦
          ground (
            arith,
            v,
            dispatch-IsValid inp v alive new_client converse (command_of inp.msg.command),
          )
    ]

    pub new-IsValid :
        (primary alt : Bytes) (recovery : Bool) (config : SaslConfig)
        → IsValid (new {Conv = Conv} primary alt recovery config)
    unfolding new is_empty
    new-IsValid primary alt recovery config = ground arith
