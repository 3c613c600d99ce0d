-- ===== src/Registration/Sasl.antt =====
-- internal/registration/sasl.go: the SASL exchange. The SCRAM client of github.com/xdg-go/scram is
-- a parameter: `new_client` is `NewClient` with `NewConversation` (the nonce it draws is part of
-- the conversation), `converse` the method `Step`, which may answer with an error.
pub mod Chunks
use go_bnc.Irc.Message.Access.{param}
use go_bnc.Registration.Base64.{decode_base64, encode_base64}
use go_bnc.Registration.State.{
  State, SaslConfig, Input, Outcome, Reason, Action, send, failure, failed, awaiting_welcome,
  authenticating, plain_missing, scram_missing, bad_challenge, unexpected_mechanism, scram_library,
  no_mechanism, sasl_failed, cap_end,
}
use go_bnc.Irc.Message.Encode.{value_of}
use go_bnc.Base.{
  Bool, Bytes, List, Option, [], codes, drop, equal_fold, false, if◌then◌else◌, inl, inr, is_empty,
  length, ltb, map, none, not, some, split, suc, take, text_eq, to_upper, trim_space, true, zero, ℕ,
  ◌&&◌, ◌++◌, ◌==◌, ◌||◌, ◌∷◌, ◌⊎◌,
}

abbrev pub authenticate_chunk_size : ℕ
authenticate_chunk_size = 400

abbrev pub scram_name : Bytes
scram_name = codes "SCRAM-SHA-256"

abbrev pub plain_name : Bytes
plain_name = codes "PLAIN"

abbrev pub external_name : Bytes
external_name = codes "EXTERNAL"

-- `stepLoggedIn`
unfoldable pub step_logged_in : {Conv : Type 0} → State Conv → Input → Outcome Conv
step_logged_in s inp = (s, [])

-- The trimmed parts of the list that the server offers, without the empty ones.
unfoldable pub trimmed : List Bytes → List Bytes
unfolding trim_space is_empty
trimmed [] = []
trimmed (m ∷ ms) = if is_empty (trim_space m) then trimmed ms else trim_space m ∷ trimmed ms

unfoldable pub offered_mechs : Bytes → List Bytes
unfolding trimmed
offered_mechs [] = []
offered_mechs (c ∷ cs) = trimmed (split b',' (c ∷ cs))

unfoldable pub offers : Bytes → List Bytes → Bool
unfolding equal_fold
offers want [] = false
offers want (m ∷ ms) = equal_fold m want || offers want ms

-- The last loops of `pickSASLMech`.
unfoldable pub first_offered : List Bytes → List Bytes → Option Bytes
unfolding offers
first_offered [] mechs = none
first_offered (want ∷ wants) mechs =
    if offers want mechs then some want else first_offered wants mechs

-- `passwordOK` and `externalOK`
unfoldable pub password_ok : SaslConfig → Bool
unfolding is_empty
password_ok c = not (is_empty c.user) && not (is_empty c.pass)

unfoldable pub external_ok : SaslConfig → Bool
unfolding is_empty
external_ok c = is_empty c.pass && c.has_client_cert

-- `pickSASLMech` on the mechanisms that are offered.
unfoldable pub pick_among : SaslConfig → List Bytes → Option Bytes
unfolding password_ok external_ok first_offered
pick_among c [] =
    if password_ok c then some plain_name else if external_ok c then some external_name else none
pick_among c (m ∷ ms) =
    if password_ok c
    then first_offered (scram_name ∷ plain_name ∷ []) (m ∷ ms)
    else if external_ok c
    then first_offered (external_name ∷ []) (m ∷ ms)
    else none

-- One after another, the lines of `sendAuthenticate`; the fuel is the length of the text, since
-- each round but the last one takes 400 bytes.
unfoldable pub chunks : ℕ → Bytes → List Bytes
chunks zero b64 = []
chunks (suc f) b64 = elim (ltb authenticate_chunk_size (length b64)) [
  | true ↦ take authenticate_chunk_size b64 ∷ chunks f (drop authenticate_chunk_size b64)
  | false ↦ if length b64 == authenticate_chunk_size then b64 ∷ codes "+" ∷ [] else b64 ∷ []
]

abbrev pub authenticate_line : Bool → Bytes → Action
authenticate_line r text = send (codes "AUTHENTICATE " ++ text) r

-- The text that PLAIN sends.
abbrev pub plain_payload : SaslConfig → Bytes
plain_payload c = 0 ∷ (c.user ++ (0 ∷ c.pass))

module _ {Conv : Type 0} where
  -- `pickSASLMech`
  unfoldable pub pick_sasl_mech : State Conv → Option Bytes
  pick_sasl_mech s =
      if not s.sasl.wanted
      then none
      else pick_among s.sasl (offered_mechs (value_of s.offered (codes "sasl")))

  -- `s.saslMech = ""; s.scramConv = nil`
  unfoldable pub forget_mech : State Conv → State Conv
  forget_mech s = record s { sasl_mech = []; scram_conv = none }

  -- `s.Phase = PhaseFailed; s.Err = …`
  unfoldable pub fail_with : State Conv → Reason → State Conv
  fail_with s reason = record s { phase = failed; failure_reason = some reason }

  -- `stepSASLOutcome`
  unfoldable pub step_sasl_outcome : State Conv → Input → Outcome Conv
  step_sasl_outcome s inp =
      let s' = forget_mech s in
      let reason = sasl_failed inp.msg.command inp.msg.params in
      if s.got_welcome
      then (s', [])
      else if not (text_eq inp.msg.command (codes "903"))
          && not (text_eq inp.msg.command (codes "907"))
          && s.sasl.required
      then (fail_with s' reason, failure reason inp.replay ∷ [])
      else (record s' { phase = awaiting_welcome }, cap_end inp)

  -- `startSASL`
  unfoldable pub start_sasl : State Conv → Input → Outcome Conv
  start_sasl s inp = elim (pick_sasl_mech s) [
    | none ↦
        let reason = no_mechanism (value_of s.offered (codes "sasl")) in
        if s.sasl.required
        then (fail_with s reason, failure reason inp.replay ∷ [])
        else (record s { phase = awaiting_welcome }, cap_end inp)
    | some mech ↦ (
      record s { phase = authenticating; sasl_mech = mech; scram_conv = none },
      authenticate_line inp.replay mech ∷ [],
    )
  ]

  -- `abortSASL`
  unfoldable pub abort_sasl : State Conv → Input → Reason → Outcome Conv
  abort_sasl s inp reason =
      let s' = forget_mech s in
      let abort_line = authenticate_line inp.replay (codes "*") in
      if s.got_welcome
      then (s', abort_line ∷ [])
      else if s.sasl.required
      then (fail_with s' reason, abort_line ∷ failure reason inp.replay ∷ [])
      else (record s' { phase = awaiting_welcome }, abort_line ∷ cap_end inp)

  -- `sendAuthenticate`
  unfoldable pub send_authenticate : State Conv → Input → Bytes → Outcome Conv
  send_authenticate s inp b64 =
      if is_empty b64 || text_eq b64 (codes "+")
      then (s, authenticate_line inp.replay (codes "+") ∷ [])
      else (s, map (authenticate_line inp.replay) (chunks (length b64) b64))

  -- The case `PLAIN` of `stepAuthenticate`.
  unfoldable pub step_plain : State Conv → Input → Bytes → Outcome Conv
  step_plain s inp param_text =
      if not (text_eq param_text (codes "+"))
      then (s, [])
      else if not (password_ok s.sasl)
      then abort_sasl s inp plain_missing
      else send_authenticate s inp (encode_base64 (plain_payload s.sasl))

  -- The case `EXTERNAL` of `stepAuthenticate`.
  unfoldable pub step_external : State Conv → Input → Bytes → Outcome Conv
  step_external s inp param_text =
      if not (text_eq param_text (codes "+"))
      then (s, [])
      else if is_empty s.sasl.user
      then send_authenticate s inp (codes "+")
      else send_authenticate s inp (encode_base64 s.sasl.user)

  module _ (new_client : Bytes → Bytes → Bytes → Bytes ⊎ Conv)
      (converse : Conv → Bytes → Bytes ⊎ (Bytes × Conv)) where
    -- `stepSCRAM` from the answer of the conversation on.
    unfoldable pub answer_scram : State Conv → Input → Bytes ⊎ (Bytes × Conv) → Outcome Conv
    answer_scram s inp (inl text) = abort_sasl s inp (scram_library text)
    answer_scram s inp (inr ([], conv)) =
        send_authenticate (record s { scram_conv = some conv }) inp (codes "+")
    answer_scram s inp (inr (c ∷ cs, conv)) =
        send_authenticate (record s { scram_conv = some conv }) inp (encode_base64 (c ∷ cs))

    -- `stepSCRAM` from the call of `conv.Step` on, if there is a conversation.
    unfoldable pub challenge_scram : State Conv → Input → Bytes → Bytes ⊎ Conv → Outcome Conv
    challenge_scram s inp challenge (inl text) = abort_sasl s inp (scram_library text)
    challenge_scram s inp challenge (inr conv) = answer_scram s inp (converse conv challenge)

    -- `stepSCRAM` with the challenge, if it could be decoded.
    unfoldable pub decoded_scram : State Conv → Input → Option Bytes → Outcome Conv
    decoded_scram s inp none = abort_sasl s inp bad_challenge
    decoded_scram s inp (some challenge) = challenge_scram s inp challenge (elim s.scram_conv [
      | some conv ↦ inr conv
      | none ↦ new_client s.sasl.user s.sasl.pass inp.nonce
    ])

    -- `stepSCRAM`
    unfoldable pub step_scram : State Conv → Input → Bytes → Outcome Conv
    step_scram s inp param_text =
        if not (password_ok s.sasl)
        then abort_sasl s inp scram_missing
        else decoded_scram s inp
            (if text_eq param_text (codes "+") then some [] else decode_base64 param_text)

    -- The switch of `stepAuthenticate`.
    unfoldable pub continue_mech : State Conv → Input → Bytes → Outcome Conv
    continue_mech s inp param_text =
        let mech = to_upper s.sasl_mech in
        if text_eq mech plain_name
        then step_plain s inp param_text
        else if text_eq mech external_name
        then step_external s inp param_text
        else if text_eq mech scram_name
        then step_scram s inp param_text
        else abort_sasl s inp (unexpected_mechanism s.sasl_mech)

    -- `stepAuthenticate`
    unfoldable pub step_authenticate : State Conv → Input → Outcome Conv
    step_authenticate s inp =
        let param_text = param inp.msg 0 in
        if is_empty param_text
        then (s, [])
        else if text_eq param_text (codes "*")
        then (forget_mech s, [])
        else if is_empty s.sasl_mech
        then (s, [])
        else continue_mech s inp param_text
