-- ===== src/Registration/Required.antt =====
-- internal/registration: a SASL exchange that is required and has not succeeded.
pub mod Exchange
pub mod Runs
use go_bnc.Registration.State.{
  Action, Input, Outcome, Reason, State, SaslConfig, bad_challenge, failed, failure, plain_missing,
  registered, scram_library, scram_missing, send, unexpected_mechanism,
}
use go_bnc.Registration.Step.{
  dispatch, is_terminal, step, step_end_of_motd, step_error, step_store, command_of, Command, cap,
  authenticate, logged_in, sasl_outcome, welcome, end_of_motd, nick_refused, error, other,
}
use go_bnc.Registration.Sasl.{
  step_logged_in, password_ok, chunks, authenticate_line, plain_payload, forget_mech, fail_with,
  step_sasl_outcome, abort_sasl, send_authenticate, answer_scram, challenge_scram, decoded_scram,
  step_scram, step_plain, step_external, continue_mech, step_authenticate,
}
use go_bnc.Registration.Nick.{take_nick, next_ladder_nick, step_nick_error}
use go_bnc.Registration.Runs.{feed}
use go_bnc.Registration.Base64.{encode_base64}
use go_bnc.Irc.Message.Access.{param}
use go_bnc.Base.{
  Bool, Bytes, List, [], arith, codes, false, if_both, inl, inr, length, map, refl, subst, sym,
  text_eq, true, ◌++◌, ◌||◌, ◌∷◌, ◌≡◌, ◌≢◌, ◌⊎◌,
}

-- `CAP END`, which lets the server go on without authentication, is among the actions.
abbrev pub sends_end : List Action → Bool
sends_end [] = false
sends_end (send line r ∷ acts) = text_eq line (codes "CAP END") || sends_end acts
sends_end (registered r ∷ acts) = sends_end acts
sends_end (failure reason r ∷ acts) = sends_end acts

pub sends_end-append :
    (acts more : List Action) → sends_end (acts ++ more) ≡ (sends_end acts || sends_end more)
sends_end-append [] more = refl
sends_end-append (send line r ∷ acts) more = ground (arith, sends_end-append acts more)
sends_end-append (registered r ∷ acts) more = sends_end-append acts more
sends_end-append (failure reason r ∷ acts) more = sends_end-append acts more

sends_end-lines :
    (r : Bool) (texts : List Bytes) → sends_end (map (authenticate_line r) texts) ≡ false
unfolding text_eq
sends_end-lines r [] = refl
sends_end-lines r (t ∷ ts) = sends_end-lines r ts

-- An input that ends no exchange: neither CAP nor 001, 903 or 907.
abbrev pub EndsNothing : Input → Type 0
EndsNothing inp =
    (command_of inp.msg.command ≢ cap)
    × (command_of inp.msg.command ≢ welcome)
    × (text_eq inp.msg.command (codes "903") ≡ false)
    × (text_eq inp.msg.command (codes "907") ≡ false)

-- SASL is required, and the server has not sent 001.
pub record IsOpen {Conv : Type 0} (s : State Conv) : Type 0 where
  pub unwelcomed : s.got_welcome ≡ false
  pub required : s.sasl.required ≡ true

-- The registration stands where it stood, or it has failed, and `CAP END` is not sent.
pub record Withholds {Conv : Type 0} (s : State Conv) (o : Outcome Conv) : Type 0 where
  pub sasl_kept : o.0.sasl ≡ s.sasl
  pub welcome_kept : o.0.got_welcome ≡ s.got_welcome
  pub phase_or_failed : (o.0.phase ≡ s.phase) ⊎ (o.0.phase ≡ failed)
  pub no_end : sends_end o.1 ≡ false

module _ {Conv : Type 0} where
  module _ (s : State Conv) (inp : Input) (open_yet : IsOpen s) where
    pub quiet-Withholds : Withholds s (s, [])
    quiet-Withholds = record {
      sasl_kept = refl;
      welcome_kept = refl;
      phase_or_failed = inl refl;
      no_end = refl;
    }

    pub outcome-Withholds :
        text_eq inp.msg.command (codes "903") ≡ false
        → text_eq inp.msg.command (codes "907") ≡ false
        → Withholds s (step_sasl_outcome s inp)
    unfolding step_sasl_outcome forget_mech fail_with
    outcome-Withholds ne3 ne7 =
        rw (open_yet.unwelcomed, open_yet.required, ne3, ne7)
          (record {
            sasl_kept = refl;
            welcome_kept = refl;
            phase_or_failed = inr refl;
            no_end = refl;
          })

    pub take_nick-Withholds : (next : Bytes) → Withholds s (take_nick s inp next)
    unfolding take_nick fail_with text_eq
    take_nick-Withholds [] = record {
      sasl_kept = refl;
      welcome_kept = refl;
      phase_or_failed = inr refl;
      no_end = refl;
    }
    take_nick-Withholds (c ∷ cs) = record {
      sasl_kept = refl;
      welcome_kept = refl;
      phase_or_failed = inl refl;
      no_end = refl;
    }

    pub nick_error-Withholds : Withholds s (step_nick_error s inp)
    unfolding step_nick_error
    nick_error-Withholds =
        ground (arith, quiet-Withholds, take_nick-Withholds (next_ladder_nick s (param inp.msg 1)))

    pub error-Withholds : Withholds s (step_error s inp)
    unfolding step_error fail_with
    error-Withholds = record {
      sasl_kept = refl;
      welcome_kept = refl;
      phase_or_failed = inr refl;
      no_end = refl;
    }

    pub end_of_motd-Withholds : Withholds s (step_end_of_motd s inp)
    unfolding step_end_of_motd
    end_of_motd-Withholds =
        let same : step_end_of_motd s inp ≡ (s, []) = ground (arith, open_yet.unwelcomed) in
        subst (Withholds s) (sym same) quiet-Withholds

    pub logged_in-Withholds : Withholds s (step_logged_in s inp)
    unfolding step_logged_in
    logged_in-Withholds = record {
      sasl_kept = refl;
      welcome_kept = refl;
      phase_or_failed = inl refl;
      no_end = refl;
    }

    pub store-Withholds : Withholds s (step_store s inp)
    unfolding step_store
    store-Withholds = ground (arith, quiet-Withholds)

    pub abort-Withholds : (reason : Reason) → Withholds s (abort_sasl s inp reason)
    unfolding abort_sasl forget_mech fail_with text_eq
    abort-Withholds reason =
        rw (open_yet.unwelcomed, open_yet.required)
          (record {
            sasl_kept = refl;
            welcome_kept = refl;
            phase_or_failed = inr refl;
            no_end = refl;
          })

    lines-Withholds :
        (texts : List Bytes) → Withholds s (s, map (authenticate_line inp.replay) texts)
    lines-Withholds texts = record {
      sasl_kept = refl;
      welcome_kept = refl;
      phase_or_failed = inl refl;
      no_end = sends_end-lines inp.replay texts;
    }

    pub send-Withholds : (b64 : Bytes) → Withholds s (send_authenticate s inp b64)
    unfolding send_authenticate
    send-Withholds b64 =
        if_both (Withholds s) _ (lines-Withholds (codes "+" ∷ []))
          (lines-Withholds (chunks (length b64) b64))
