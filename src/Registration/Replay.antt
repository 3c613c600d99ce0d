-- ===== src/Registration/Replay.antt =====
-- internal/registration: a replayed input is handled as a live one. The nonce that a SCRAM
-- conversation would draw is read by the AUTHENTICATE messages alone.
pub mod Exchange
pub mod Runs
use go_bnc.Registration.State.{
  Action, Input, Outcome, Phase, Reason, State, SaslConfig, new, start, authenticating,
  awaiting_welcome, bad_challenge, cap_negotiation, complete, failed, failure, plain_missing,
  registered, scram_library, scram_missing, send, unexpected_mechanism, no_mechanism, sasl_failed,
  server_error, nick_error, cap_end, welcome_tail,
}
use go_bnc.Registration.Step.{
  ack_all, acks_sasl, desired_caps, dispatch, is_terminal, offer_all, request_caps, request_from,
  step, step_cap, step_cap_ack, step_cap_ls, step_end_of_motd, step_error, step_store, step_welcome,
  command_of, Command, cap, authenticate, logged_in, sasl_outcome, welcome, end_of_motd,
  nick_refused, error, other, delete_all, offer_mechs,
}
use go_bnc.Registration.Sasl.{
  step_logged_in, plain_name, external_name, scram_name, password_ok, external_ok, pick_among,
  first_offered, offers, chunks, authenticate_line, plain_payload, pick_sasl_mech, forget_mech,
  fail_with, step_sasl_outcome, start_sasl, abort_sasl, send_authenticate, answer_scram,
  challenge_scram, decoded_scram, step_scram, step_plain, step_external, continue_mech,
  step_authenticate, authenticate_chunk_size, offered_mechs, trimmed,
}
use go_bnc.Registration.Nick.{
  take_nick, next_ladder_nick, step_nick_error, build_nick_ladder, next_nick_in_ladder,
  behind_match, add_rung, add_underscores, cut_to, nick_len,
}
use go_bnc.Registration.Post.{
  is_complete, reauthenticate, post_cap_ack, post_cap, post_dispatch, step_post,
}
use go_bnc.Registration.Runs.{feed}
use go_bnc.Registration.Base64.{encode_base64, decode_base64}
use go_bnc.Irc.Message.Access.{param, trailing}
use go_bnc.Irc.Message.Encode.{value_of}
use go_bnc.Base.{
  Bool, Bytes, List, Option-cases, [], ap, arith, false, fields, inl, inr, length, map, refl, ◌∷◌,
  ◌≡◌,
}

-- `Replay` of an action.
abbrev pub flag : Bool → Action → Action
flag r (send line r') = send line r
flag r (registered r') = registered r
flag r (failure reason r') = failure reason r

abbrev pub flag_all : Bool → List Action → List Action
flag_all r acts = map (flag r) acts

-- The message of an input, as received live, where another nonce would be drawn.
abbrev pub live : Bytes → Input → Input
live n inp = record { msg = inp.msg; replay = false; nonce = n }

map-flag-lines :
    (r : Bool) (texts : List Bytes)
    → flag_all r (map (authenticate_line false) texts) ≡ map (authenticate_line r) texts
map-flag-lines r [] = refl
map-flag-lines r (t ∷ ts) = ap (λ acts. authenticate_line r t ∷ acts) (map-flag-lines r ts)

module _ {Conv : Type 0} where
  -- The outcome differs from that of the live input at most in the flag.
  abbrev pub Replays : Bytes → Input → (Input → Outcome Conv) → Type 0
  Replays n inp h = h inp ≡ ((h (live n inp)).0, flag_all inp.replay (h (live n inp)).1)

  module _ (s : State Conv) (inp : Input) (n : Bytes) where
    take_nick-Replays : (next : Bytes) → Replays n inp (λ i. take_nick s i next)
    unfolding take_nick
    take_nick-Replays [] = refl
    take_nick-Replays (c ∷ cs) = refl

    pub nick_error-Replays : Replays n inp (step_nick_error s)
    unfolding step_nick_error
    nick_error-Replays = ground (arith, take_nick-Replays (next_ladder_nick s (param inp.msg 1)))

    pub outcome-Replays : Replays n inp (step_sasl_outcome s)
    unfolding step_sasl_outcome
    outcome-Replays = ground arith

    pub abort-Replays : (reason : Reason) → Replays n inp (λ i. abort_sasl s i reason)
    unfolding abort_sasl
    abort-Replays reason = ground arith

    pub send-Replays : (b64 : Bytes) → Replays n inp (λ i. send_authenticate s i b64)
    unfolding send_authenticate
    send-Replays b64 = ground (arith, map-flag-lines inp.replay (chunks (length b64) b64))

    pub start-Replays : Replays n inp (start_sasl s)
    unfolding start_sasl
    start-Replays = elim (Option-cases (pick_sasl_mech s)) [
      | inl e ↦ ground arith
      | inr (mech, e) ↦ ground arith
    ]

    pub request-Replays : (caps : List Bytes) → Replays n inp (λ i. request_caps s i caps)
    unfolding request_caps
    request-Replays [] = refl
    request-Replays (r ∷ rs) = refl

    pub welcome-Replays : Replays n inp (step_welcome s)
    unfolding step_welcome
    welcome-Replays = refl

    pub end_of_motd-Replays : Replays n inp (step_end_of_motd s)
    unfolding step_end_of_motd
    end_of_motd-Replays = ground arith

    pub error-Replays : Replays n inp (step_error s)
    unfolding step_error
    error-Replays = refl

    pub store-Replays : Replays n inp (step_store s)
    unfolding step_store
    store-Replays = ground arith

  module _ (s : State Conv) (inp : Input) (n : Bytes) where
    cap_ls-Replays : Replays n inp (step_cap_ls s)
    unfolding step_cap_ls
    cap_ls-Replays =
        let offered' = offer_all s.offered (fields (trailing inp.msg)) in
        ground (
          arith,
          request-Replays (record s { offered = offered' }) inp n
              (request_from s.sasl.wanted offered' desired_caps),
        )

    cap_ack-Replays : Replays n inp (step_cap_ack s)
    unfolding step_cap_ack
    cap_ack-Replays =
        let acked' = ack_all s.acked (fields (trailing inp.msg)) in
        ground (arith, start-Replays (record s { acked = acked' }) inp n)

    pub cap-Replays : Replays n inp (step_cap s)
    unfolding step_cap
    cap-Replays = ground (arith, cap_ls-Replays, cap_ack-Replays)
