-- ===== src/Registration/Validity.antt =====
-- internal/registration: the states that `Step` and `StepPost` can be in.
pub mod Exchange
pub mod Runs
pub mod Reach
use go_bnc.Registration.State.{
  Action, Input, Outcome, Phase, Reason, State, SaslConfig, new, start, authenticating,
  awaiting_welcome, bad_challenge, cap_negotiation, complete, failed, failure, plain_missing,
  registered, scram_library, scram_missing, send, unexpected_mechanism, no_mechanism, sasl_failed,
  server_error, nick_error, cap_end, welcome_tail,
}
use go_bnc.Registration.Step.{
  ack_all, acks_sasl, desired_caps, dispatch, is_terminal, offer_all, request_caps, request_from,
  step, step_cap, step_cap_ack, step_cap_ls, step_end_of_motd, step_error, step_store, step_welcome,
  command_of, Command, cap, authenticate, logged_in, sasl_outcome, welcome, end_of_motd,
  nick_refused, error, other, delete_all, offer_mechs,
}
use go_bnc.Registration.Sasl.{
  step_logged_in, plain_name, external_name, scram_name, password_ok, external_ok, pick_among,
  first_offered, offers, chunks, authenticate_line, plain_payload, pick_sasl_mech, forget_mech,
  fail_with, step_sasl_outcome, start_sasl, abort_sasl, send_authenticate, answer_scram,
  challenge_scram, decoded_scram, step_scram, step_plain, step_external, continue_mech,
  step_authenticate, authenticate_chunk_size, offered_mechs, trimmed,
}
use go_bnc.Registration.Nick.{
  take_nick, next_ladder_nick, step_nick_error, build_nick_ladder, next_nick_in_ladder,
  behind_match, add_rung, add_underscores, cut_to, nick_len,
}
use go_bnc.Registration.Post.{
  is_complete, reauthenticate, post_cap_ack, post_cap, post_dispatch, step_post,
}
use go_bnc.Registration.Runs.{feed}
use go_bnc.Registration.Base64.{encode_base64, decode_base64}
use go_bnc.Irc.Message.Access.{param, trailing}
use go_bnc.Irc.Message.Encode.{value_of}
use go_bnc.Base.{
  Bool, Bytes, List, Option, Option-cases, [], arith, codes, false, has_some, if◌then◌else◌, inl,
  inr, is_empty, not, some, text_eq, true, ◌&&◌, ◌||◌, ◌∷◌, ◌≡◌, ◌≢◌,
}

abbrev pub is_failed : Phase → Bool
is_failed failed = true
is_failed _ = false

-- A mechanism that the configuration has the credentials for.
abbrev pub can_use : SaslConfig → Bytes → Bool
can_use c mech =
    c.wanted
    && (if text_eq mech external_name
        then external_ok c
        else (text_eq mech plain_name || text_eq mech scram_name) && password_ok c)

-- The errors of branches that only a mistake in the program can take.
abbrev pub is_internal : Option Reason → Bool
is_internal (some plain_missing) = true
is_internal (some scram_missing) = true
is_internal (some (unexpected_mechanism mech)) = true
is_internal _ = false

module _ {Conv : Type 0} where
  pub record IsValid (s : State Conv) : Type 0 where
    -- Only a client that was welcomed is registered, and it never negotiates again.
    pub complete_welcomed : s.phase ≡ complete → s.got_welcome ≡ true
    pub welcomed_past : s.got_welcome ≡ true → s.phase ≢ cap_negotiation
    -- There is an error exactly if the registration has failed.
    pub reason_iff_failed : has_some s.failure_reason ≡ is_failed s.phase
    pub not_internal : is_internal s.failure_reason ≡ false
    -- The exchange under way, and the SCRAM conversation, are ones that the configuration allows.
    pub mech_allowed : (is_empty s.sasl_mech || can_use s.sasl s.sasl_mech) ≡ true
    pub conv_scram : (not (has_some s.scram_conv) || text_eq s.sasl_mech scram_name) ≡ true

  module _ {s : State Conv} (inp : Input) (v : IsValid s) (alive : is_failed s.phase ≡ false) where
    pub outcome-IsValid : IsValid (step_sasl_outcome s inp).0
    unfolding step_sasl_outcome forget_mech fail_with is_empty
    outcome-IsValid = ground arith

    pub take_nick-IsValid : (next : Bytes) → IsValid (take_nick s inp next).0
    unfolding take_nick
    take_nick-IsValid [] = ground arith
    take_nick-IsValid (c ∷ cs) = ground arith

    pub welcome-IsValid : IsValid (step_welcome s inp).0
    unfolding step_welcome
    welcome-IsValid = ground arith

pub pick_among-can_use :
    (c : SaslConfig) (mechs : List Bytes) (mech : Bytes)
    → c.wanted ≡ true
    → pick_among c mechs ≡ some mech
    → can_use c mech ≡ true
unfolding pick_among first_offered text_eq
pick_among-can_use c [] mech w h = ground arith
pick_among-can_use c (m ∷ ms) mech w h = ground arith

module _ {Conv : Type 0} where
  pub pick-can_use :
      (s : State Conv) (mech : Bytes) → pick_sasl_mech s ≡ some mech → can_use s.sasl mech ≡ true
  unfolding pick_sasl_mech
  pick-can_use s mech h =
      ground
        (arith, pick_among-can_use s.sasl (offered_mechs (value_of s.offered (codes "sasl"))) mech)

  module _ {s : State Conv} (inp : Input) (v : IsValid s) (alive : is_failed s.phase ≡ false) where
    pub start-IsValid : IsValid (start_sasl s inp).0
    unfolding start_sasl fail_with is_empty
    start-IsValid = elim (Option-cases (pick_sasl_mech s)) [
      | inl e ↦ ground arith
      | inr (mech, e) ↦ ground (arith, pick-can_use s mech e)
    ]

    pub abort-IsValid :
        (reason : Reason) → is_internal (some reason) ≡ false → IsValid (abort_sasl s inp reason).0
    unfolding abort_sasl fail_with forget_mech is_empty
    abort-IsValid reason = ground arith

    pub send-IsValid : (b64 : Bytes) → IsValid (send_authenticate s inp b64).0
    unfolding send_authenticate
    send-IsValid b64 = ground arith

    pub store-IsValid : IsValid (step_store s inp).0
    unfolding step_store
    store-IsValid = ground arith

    pub error-IsValid : IsValid (step_error s inp).0
    unfolding step_error fail_with
    error-IsValid = ground arith

    pub end_of_motd-IsValid : IsValid (step_end_of_motd s inp).0
    unfolding step_end_of_motd
    end_of_motd-IsValid = ground arith

    pub request-IsValid : (caps : List Bytes) → IsValid (request_caps s inp caps).0
    unfolding request_caps
    request-IsValid [] = ground arith
    request-IsValid (r ∷ rs) = v
