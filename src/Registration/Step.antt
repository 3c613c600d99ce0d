-- ===== src/Registration/Step.antt =====
-- internal/registration/registration.go and sasl.go: `Step`, and `StepPost` after registration.
use go_bnc.Registration.Nick.{step_nick_error}
use go_bnc.Irc.Message.Access.{trailing, param}
use go_bnc.Registration.Sasl.{
  start_sasl, step_authenticate, fail_with, step_logged_in, step_sasl_outcome,
}
use go_bnc.Irc.Message.{Tags}
use go_bnc.Irc.Isupport.{split_kv, parse_005}
use go_bnc.Registration.Text.{trim_dash}
use go_bnc.Registration.State.{
  State, Input, Outcome, Phase, send, failure, registered, failed, awaiting_welcome, complete,
  cap_negotiation, server_error, cap_end, welcome_tail,
}
use go_bnc.Base.{
  Bool, Bytes, List, [], byte_key, codes, erase, false, fields, if◌then◌else◌, insert, is_empty,
  join, leb, length, lookup, ltb, none, not, some, text_eq, text_in, text_key, to_upper, true, ◌&&◌,
  ◌++◌, ◌||◌, ◌∷◌, ◌⊎◌,
}

-- `DesiredCaps`
abbrev pub desired_caps : List Bytes
desired_caps =
    codes "cap-notify"
    ∷ codes "message-tags"
    ∷ codes "server-time"
    ∷ codes "batch"
    ∷ codes "labeled-response"
    ∷ codes "account-tag"
    ∷ codes "account-notify"
    ∷ codes "extended-join"
    ∷ codes "echo-message"
    ∷ codes "away-notify"
    ∷ codes "chghost"
    ∷ codes "invite-notify"
    ∷ codes "sasl"
    ∷ codes "chathistory"
    ∷ codes "draft/chathistory"
    ∷ []

-- `for _, tok := range …  { s.Offered[name] = val }`
unfoldable pub offer_all : Tags → List Bytes → Tags
unfolding split_kv
offer_all offered [] = offered
offer_all offered (tok ∷ toks) =
    let (name, val) = split_kv tok in offer_all (insert name val offered) toks

-- The name that a token of `CAP ACK` acknowledges.
unfoldable pub acked_name : Bytes → Bytes
unfolding trim_dash split_kv
acked_name raw = (split_kv (trim_dash raw)).0

unfoldable pub ack_all : List (Bytes × Bool) → List Bytes → List (Bytes × Bool)
unfolding acked_name
ack_all acked [] = acked
ack_all acked (raw ∷ raws) = ack_all (insert (acked_name raw) true acked) raws

unfoldable pub acks_sasl : List Bytes → Bool
unfolding acked_name
acks_sasl [] = false
acks_sasl (raw ∷ raws) = text_eq (acked_name raw) (codes "sasl") || acks_sasl raws

-- The loop over `DesiredCaps`.
unfoldable pub request_from : Bool → Tags → List Bytes → List Bytes
request_from wanted offered [] = []
request_from wanted offered (want ∷ wants) =
    let rest = request_from wanted offered wants in
    if text_eq want (codes "sasl") && not wanted
    then rest
    else elim (lookup want offered) [ none ↦ rest | some val ↦ want ∷ rest ]

-- The two deletions of `CAP DEL`.
unfoldable pub delete_all : Tags → List (Bytes × Bool) → List Bytes → Tags × List (Bytes × Bool)
unfolding split_kv
delete_all offered acked [] = (offered, acked)
delete_all offered acked (tok ∷ toks) =
    let name = (split_kv tok).0 in delete_all (erase name offered) (erase name acked) toks

-- What `CAP ACK` after registration writes to `Offered`.
unfoldable pub offer_mechs : Tags → List Bytes → Tags
unfolding trim_dash split_kv
offer_mechs offered [] = offered
offer_mechs offered (raw ∷ raws) =
    let (name, val) = split_kv (trim_dash raw) in
    let offered' : Tags =
      if text_eq name (codes "sasl") && not (is_empty val)
      then insert name val offered
      else offered in
    offer_mechs offered' raws

-- `s.Phase == PhaseComplete || s.Phase == PhaseFailed`
unfoldable pub is_terminal : Phase → Bool
is_terminal complete = true
is_terminal failed = true
is_terminal _ = false

-- The cases of the switch of `Step`.
pub data Command : Type 0 where
  cap authenticate logged_in sasl_outcome welcome end_of_motd nick_refused error other : Command

unfoldable pub command_of : Bytes → Command
unfolding text_in
command_of text =
    if text_eq text (codes "CAP")
    then cap
    else if text_eq text (codes "AUTHENTICATE")
    then authenticate
    else if text_eq text (codes "900")
    then logged_in
    else if text_in text (codes "903" ∷ codes "904" ∷ codes "905" ∷ codes "906" ∷ codes "907" ∷ [])
    then sasl_outcome
    else if text_eq text (codes "001")
    then welcome
    else if text_in text (codes "376" ∷ codes "422" ∷ [])
    then end_of_motd
    else if text_in text (codes "432" ∷ codes "433" ∷ codes "437" ∷ [])
    then nick_refused
    else if text_eq text (codes "ERROR")
    then error
    else other

module _ {Conv : Type 0} where
  -- The end of `CAP LS`, on the capabilities to request.
  unfoldable pub request_caps : State Conv → Input → List Bytes → Outcome Conv
  request_caps s inp [] = (record s { phase = awaiting_welcome }, cap_end inp)
  request_caps s inp (r ∷ rs) = (s, send (codes "CAP REQ :" ++ join b' ' (r ∷ rs)) inp.replay ∷ [])

  -- `CAP LS`
  unfoldable pub step_cap_ls : State Conv → Input → Outcome Conv
  step_cap_ls s inp =
      let offered' = offer_all s.offered (fields (trailing inp.msg)) in
      let s' : State Conv = record s { offered = offered' } in
      if leb 3 (length inp.msg.params) && text_eq (param inp.msg 2) (codes "*")
      then (s', [])
      else request_caps s' inp (request_from s.sasl.wanted offered' desired_caps)

  -- `CAP ACK`
  unfoldable pub step_cap_ack : State Conv → Input → Outcome Conv
  step_cap_ack s inp =
      let raws = fields (trailing inp.msg) in
      let s' : State Conv = record s { acked = ack_all s.acked raws } in
      if s.sasl.wanted && acks_sasl raws
      then start_sasl s' inp
      else (record s' { phase = awaiting_welcome }, cap_end inp)

  -- `stepCAP`
  unfoldable pub step_cap : State Conv → Input → Outcome Conv
  step_cap s inp =
      let sub = to_upper (param inp.msg 1) in
      if ltb (length inp.msg.params) 2
      then (s, [])
      else if text_eq sub (codes "LS")
      then step_cap_ls s inp
      else if text_eq sub (codes "ACK")
      then step_cap_ack s inp
      else if text_eq sub (codes "NAK")
      then (record s { phase = awaiting_welcome }, cap_end inp)
      else (s, [])

  -- `001`
  unfoldable pub step_welcome : State Conv → Input → Outcome Conv
  step_welcome s inp =
      let nick' : Bytes = elim inp.msg.params [ [] ↦ s.nick | p ∷ ps ↦ p ] in
      let phase' : Phase = elim s.phase [ cap_negotiation ↦ awaiting_welcome | later ↦ later ] in
      (record s { got_welcome = true; nick = nick'; phase = phase' }, [])

  -- `376` and `422`
  unfoldable pub step_end_of_motd : State Conv → Input → Outcome Conv
  step_end_of_motd s inp =
      if not s.got_welcome
      then (s, [])
      else (record s { phase = complete }, registered inp.replay ∷ [])

  -- `ERROR`
  unfoldable pub step_error : State Conv → Input → Outcome Conv
  step_error s inp =
      let reason = server_error (trailing inp.msg) in
      (fail_with s reason, failure reason inp.replay ∷ [])

  -- The cases of `Step` that only store what they read; any other command changes nothing.
  unfoldable pub step_store : State Conv → Input → Outcome Conv
  step_store s inp =
      let command = inp.msg.command in
      let params = inp.msg.params in
      if text_eq command (codes "002")
      then (record s { rpl_002 = welcome_tail params }, [])
      else if text_eq command (codes "003")
      then (record s { rpl_003 = welcome_tail params }, [])
      else if text_eq command (codes "004")
      then (record s { rpl_004 = welcome_tail params }, [])
      else if text_eq command (codes "005")
      then (record s { isupport = parse_005 s.isupport params }, [])
      else (s, [])

  module _ (new_client : Bytes → Bytes → Bytes → Bytes ⊎ Conv)
      (converse : Conv → Bytes → Bytes ⊎ (Bytes × Conv)) where
    -- The switch of `Step`.
    unfoldable pub dispatch : Command → State Conv → Input → Outcome Conv
    dispatch cap s inp = step_cap s inp
    dispatch authenticate s inp = step_authenticate new_client converse s inp
    dispatch logged_in s inp = step_logged_in s inp
    dispatch sasl_outcome s inp = step_sasl_outcome s inp
    dispatch welcome s inp = step_welcome s inp
    dispatch end_of_motd s inp = step_end_of_motd s inp
    dispatch nick_refused s inp = step_nick_error s inp
    dispatch error s inp = step_error s inp
    dispatch other s inp = step_store s inp

    -- `Step`
    unfoldable pub step : State Conv → Input → Outcome Conv
    step s inp =
        if is_terminal s.phase then (s, []) else dispatch (command_of inp.msg.command) s inp
