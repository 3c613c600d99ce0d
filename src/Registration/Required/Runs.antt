-- ===== src/Registration/Required/Runs.antt =====
-- internal/registration: `Step` on one message after another, where SASL is required.
use go_bnc.Registration.Required.{
  Withholds, IsOpen, EndsNothing, sends_end-append, quiet-Withholds, outcome-Withholds,
  nick_error-Withholds, error-Withholds, end_of_motd-Withholds, logged_in-Withholds,
  store-Withholds,
}
use go_bnc.Registration.Required.Exchange.{authenticate-Withholds}
use go_bnc.Registration.State.{Input, State, SaslConfig}
use go_bnc.Registration.Step.{
  dispatch, is_terminal, step, command_of, Command, cap, authenticate, logged_in, sasl_outcome,
  welcome, end_of_motd, nick_refused, error, other,
}
use go_bnc.Registration.Runs.{feed}
use go_bnc.Base.{
  All, Bool-cases, Bytes, List, [], ap, arith, codes, false, inl, inr, refl, text_eq, ◌∙◌, ◌∷◌, ◌≡◌,
  ◌≢◌, ◌⊎◌,
}

module _ {Conv : Type 0} where
  module _ (new_client : Bytes → Bytes → Bytes → Bytes ⊎ Conv)
      (converse : Conv → Bytes → Bytes ⊎ (Bytes × Conv)) where
    dispatch-Withholds :
        (s : State Conv) (inp : Input) (c : Command)
        → IsOpen s
        → c ≢ cap
        → c ≢ welcome
        → text_eq inp.msg.command (codes "903") ≡ false
        → text_eq inp.msg.command (codes "907") ≡ false
        → Withholds s (dispatch new_client converse c s inp)
    unfolding dispatch
    dispatch-Withholds s inp cap open_yet no_cap no_welcome ne3 ne7 = absurd (no_cap refl)
    dispatch-Withholds s inp authenticate open_yet no_cap no_welcome ne3 ne7 =
        authenticate-Withholds new_client converse s inp open_yet
    dispatch-Withholds s inp logged_in open_yet no_cap no_welcome ne3 ne7 =
        logged_in-Withholds s inp open_yet
    dispatch-Withholds s inp sasl_outcome open_yet no_cap no_welcome ne3 ne7 =
        outcome-Withholds s inp open_yet ne3 ne7
    dispatch-Withholds s inp welcome open_yet no_cap no_welcome ne3 ne7 = absurd (no_welcome refl)
    dispatch-Withholds s inp end_of_motd open_yet no_cap no_welcome ne3 ne7 =
        end_of_motd-Withholds s inp open_yet
    dispatch-Withholds s inp nick_refused open_yet no_cap no_welcome ne3 ne7 =
        nick_error-Withholds s inp open_yet
    dispatch-Withholds s inp error open_yet no_cap no_welcome ne3 ne7 =
        error-Withholds s inp open_yet
    dispatch-Withholds s inp other open_yet no_cap no_welcome ne3 ne7 =
        store-Withholds s inp open_yet

    step-Withholds :
        (s : State Conv) (inp : Input)
        → IsOpen s
        → EndsNothing inp
        → Withholds s (step new_client converse s inp)
    unfolding step
    step-Withholds s inp open_yet (no_cap, no_welcome, ne3, ne7) =
        elim (Bool-cases (is_terminal s.phase)) [
          | inl over ↦ rw over (quiet-Withholds s inp open_yet)
          | inr going ↦ rw going (
              dispatch-Withholds s inp (command_of inp.msg.command) open_yet no_cap no_welcome ne3
                ne7)
        ]

    -- Where SASL is required and the server has not sent 001: whatever it sends but CAP, 001, 903
    -- and 907, the machine never sends `CAP END`, and it stays in its phase or fails.
    pub feed-Withholds :
        (s : State Conv) (inps : List Input)
        → IsOpen s
        → All EndsNothing inps
        → Withholds s (feed new_client converse s inps)
    unfolding feed
    feed-Withholds s [] open_yet quiet = record {
      sasl_kept = refl;
      welcome_kept = refl;
      phase_or_failed = inl refl;
      no_end = refl;
    }
    feed-Withholds s (inp ∷ inps) open_yet (ends_nothing, others) =
        let now = step-Withholds s inp open_yet ends_nothing in
        let next = step new_client converse s inp in
        let still : IsOpen next.0 = record {
          unwelcomed = now.welcome_kept ∙ open_yet.unwelcomed;
          required = ap (λ (c : SaslConfig). c.required) now.sasl_kept ∙ open_yet.required;
        } in
        let later = feed-Withholds next.0 inps still others in
        let rest = feed new_client converse next.0 inps in
        record {
          sasl_kept = later.sasl_kept ∙ now.sasl_kept;
          welcome_kept = later.welcome_kept ∙ now.welcome_kept;
          phase_or_failed = elim later.phase_or_failed [
            | inr over ↦ inr over
            | inl same ↦ elim now.phase_or_failed [
              | inl was ↦ inl (same ∙ was)
              | inr over ↦ inr (same ∙ over)
            ]
          ];
          no_end = ground (arith, sends_end-append next.1 rest.1, now.no_end, later.no_end);
        }
