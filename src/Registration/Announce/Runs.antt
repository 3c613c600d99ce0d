-- ===== src/Registration/Announce/Runs.antt =====
-- internal/registration: how a run of `Step` announces that the registration is over.
use go_bnc.Registration.Step.{
  dispatch, is_terminal, step, command_of, Command, cap, authenticate, logged_in, sasl_outcome,
  welcome, end_of_motd, nick_refused, error, other,
}
use go_bnc.Registration.Sasl.{step_logged_in}
use go_bnc.Registration.State.{
  Input, Phase, State, authenticating, awaiting_welcome, cap_negotiation, complete, failed,
}
use go_bnc.Registration.Step.{
  dispatch, is_terminal, step, command_of, Command, cap, authenticate, logged_in, sasl_outcome,
  welcome, end_of_motd, nick_refused, error, other,
}
use go_bnc.Registration.Runs.{feed, feed-is_terminal}
use go_bnc.Base.{
  Bytes, List, [], ap, append-nil, arith, inl, inr, refl, sym, true, ◌++◌, ◌∙◌, ◌∷◌, ◌≡◌, ◌⊎◌,
}
use go_bnc.Registration.Announce.{
  Announces, announced, announcement, announced-append, nick_error-Announces, outcome-Announces,
  welcome-Announces, end_of_motd-Announces, error-Announces, store-Announces, cap-Announces,
}
use go_bnc.Registration.Announce.Exchange.{authenticate-Announces}

module _ {Conv : Type 0} where
  module _ (new_client : Bytes → Bytes → Bytes → Bytes ⊎ Conv)
      (converse : Conv → Bytes → Bytes ⊎ (Bytes × Conv)) where
    module _ (s : State Conv) (inp : Input) (going : announcement s.phase ≡ []) where
      dispatch-Announces : (c : Command) → Announces (dispatch new_client converse c s inp)
      unfolding dispatch step_logged_in
      dispatch-Announces cap = cap-Announces s inp going
      dispatch-Announces authenticate = authenticate-Announces new_client converse s inp going
      dispatch-Announces logged_in = sym going
      dispatch-Announces sasl_outcome = outcome-Announces s inp going
      dispatch-Announces welcome = welcome-Announces s inp going
      dispatch-Announces end_of_motd = end_of_motd-Announces s inp going
      dispatch-Announces nick_refused = nick_error-Announces s inp going
      dispatch-Announces error = error-Announces s inp going
      dispatch-Announces other = store-Announces s inp going

    not_going : (p : Phase) → (is_terminal p ≡ true) ⊎ (announcement p ≡ [])
    unfolding is_terminal
    not_going complete = inl refl
    not_going failed = inl refl
    not_going cap_negotiation = inr refl
    not_going authenticating = inr refl
    not_going awaiting_welcome = inr refl

    step-Announces :
        (s : State Conv) (inp : Input)
        → announcement s.phase ≡ []
        → Announces (step new_client converse s inp)
    unfolding step
    step-Announces s inp going =
        ground (arith, dispatch-Announces s inp going (command_of inp.msg.command))

    -- From a state where the registration is under way, a run of `Step` announces the phase that it
    -- reaches, exactly once, if that phase is complete or failed, and announces nothing otherwise.
    pub feed-Announces :
        (s : State Conv) (inps : List Input)
        → announcement s.phase ≡ []
        → Announces (feed new_client converse s inps)
    unfolding feed
    feed-Announces s [] going = sym going
    feed-Announces s (inp ∷ inps) going =
        let next = step new_client converse s inp in
        let first = step-Announces s inp going in
        elim (not_going next.0.phase) [
          | inl over ↦ rw (feed-is_terminal new_client converse next.0 inps over, append-nil) first
          | inr more ↦
              announced-append next.1 (feed new_client converse next.0 inps).1
              ∙ ap (λ t. t ++ announced (feed new_client converse next.0 inps).1) (first ∙ more)
              ∙ feed-Announces next.0 inps more
        ]
