-- ===== src/Registration/Post.antt =====
-- internal/registration/sasl.go: `StepPost`, which authenticates after registration.
pub mod Registered
use go_bnc.Irc.Message.Access.{param, trailing}
use go_bnc.Registration.Sasl.{
  pick_sasl_mech, step_authenticate, authenticate_line, step_sasl_outcome,
}
use go_bnc.Registration.State.{State, Input, Outcome, complete, Phase}
use go_bnc.Registration.Step.{offer_all, ack_all, acks_sasl, delete_all, offer_mechs}
use go_bnc.Base.{
  Bool, Bytes, Option, [], codes, false, fields, if◌then◌else◌, is_empty, length, ltb, none, not,
  some, text_eq, text_in, to_upper, true, ◌||◌, ◌∷◌, ◌⊎◌,
}

unfoldable pub is_complete : Phase → Bool
is_complete complete = true
is_complete _ = false

module _ {Conv : Type 0} where
  -- The end of `CAP ACK`, on the mechanism.
  unfoldable pub reauthenticate : State Conv → Input → Option Bytes → Outcome Conv
  reauthenticate s inp none = (s, [])
  reauthenticate s inp (some mech) =
      (record s { sasl_mech = mech; scram_conv = none }, authenticate_line inp.replay mech ∷ [])

  -- `CAP ACK`
  unfoldable pub post_cap_ack : State Conv → Input → Outcome Conv
  post_cap_ack s inp =
      let raws = fields (trailing inp.msg) in
      let s' : State Conv = record s {
        acked = ack_all s.acked raws;
        offered = offer_mechs s.offered raws;
      } in
      if not (acks_sasl raws) || not s.sasl.wanted || not (is_empty s.sasl_mech)
      then (s', [])
      else reauthenticate s' inp (pick_sasl_mech s')

  -- The case `CAP`.
  unfoldable pub post_cap : State Conv → Input → Outcome Conv
  post_cap s inp =
      let sub = to_upper (param inp.msg 1) in
      let words = fields (trailing inp.msg) in
      let kept = delete_all s.offered s.acked words in
      if ltb (length inp.msg.params) 2
      then (s, [])
      else if text_eq sub (codes "NEW")
      then (record s { offered = offer_all s.offered words }, [])
      else if text_eq sub (codes "DEL")
      then (record s { offered = kept.0; acked = kept.1 }, [])
      else if text_eq sub (codes "ACK")
      then post_cap_ack s inp
      else (s, [])

  module _ (new_client : Bytes → Bytes → Bytes → Bytes ⊎ Conv)
      (converse : Conv → Bytes → Bytes ⊎ (Bytes × Conv)) where
    -- The switch of `StepPost`.
    unfoldable pub post_dispatch : State Conv → Input → Outcome Conv
    post_dispatch s inp =
        let command = inp.msg.command in
        if text_eq command (codes "CAP")
        then post_cap s inp
        else if text_eq command (codes "AUTHENTICATE")
        then step_authenticate new_client converse s inp
        else if text_in command
            (codes "903" ∷ codes "904" ∷ codes "905" ∷ codes "906" ∷ codes "907" ∷ [])
        then step_sasl_outcome s inp
        else (s, [])

    -- `StepPost`
    unfoldable pub step_post : State Conv → Input → Outcome Conv
    step_post s inp = if not (is_complete s.phase) then (s, []) else post_dispatch s inp
