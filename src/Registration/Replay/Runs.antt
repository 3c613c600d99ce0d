-- ===== src/Registration/Replay/Runs.antt =====
-- internal/registration: `Step` on a replayed transcript.
use go_bnc.Irc.Message.{Message}
use go_bnc.Registration.State.{Action, Input, State}
use go_bnc.Registration.Step.{
  dispatch, step, command_of, Command, cap, authenticate, logged_in, sasl_outcome, welcome,
  end_of_motd, nick_refused, error, other,
}
use go_bnc.Registration.Sasl.{step_logged_in, step_authenticate}
use go_bnc.Registration.Runs.{feed}
use go_bnc.Registration.Replay.{
  Replays, flag, flag_all, live, cap-Replays, outcome-Replays, welcome-Replays, end_of_motd-Replays,
  nick_error-Replays, error-Replays, store-Replays,
}
use go_bnc.Registration.Replay.Exchange.{authenticate-Replays}
use go_bnc.Base.{All, Bool, Bytes, List, [], ap, arith, false, refl, subst, ◌++◌, ◌∷◌, ◌≡◌, ◌⊎◌}

-- A message of a transcript, with the nonce drawn when it came and the one drawn in the replay.
pub record Round : Type 0 where
  pub message : Message
  pub nonce_live : Bytes
  pub nonce_then : Bytes

abbrev pub SameNonce : Round → Type 0
SameNonce m = command_of m.message.command ≡ authenticate → m.nonce_then ≡ m.nonce_live

abbrev pub replayed : Bool → List Round → List Input
replayed r [] = []
replayed r (m ∷ ms) = record { msg = m.message; replay = r; nonce = m.nonce_then } ∷ replayed r ms

abbrev pub received_live : List Round → List Input
received_live [] = []
received_live (m ∷ ms) =
    record { msg = m.message; replay = false; nonce = m.nonce_live } ∷ received_live ms

map-flag-append :
    (r : Bool) (acts more : List Action)
    → flag_all r (acts ++ more) ≡ flag_all r acts ++ flag_all r more
map-flag-append r [] more = refl
map-flag-append r (a ∷ acts) more = ap (λ rest. flag r a ∷ rest) (map-flag-append r acts more)

module _ {Conv : Type 0} (new_client : Bytes → Bytes → Bytes → Bytes ⊎ Conv)
    (converse : Conv → Bytes → Bytes ⊎ (Bytes × Conv)) where
  dispatch-Replays :
      (s : State Conv) (inp : Input) (n : Bytes) (c : Command)
      → (c ≡ authenticate → inp.nonce ≡ n)
      → Replays n inp (dispatch new_client converse c s)
  unfolding dispatch step_logged_in
  dispatch-Replays s inp n cap same = cap-Replays s inp n
  dispatch-Replays s inp n authenticate same =
      subst (λ m. Replays m inp (step_authenticate new_client converse s)) (same refl)
        (authenticate-Replays new_client converse s inp)
  dispatch-Replays s inp n logged_in same = refl
  dispatch-Replays s inp n sasl_outcome same = outcome-Replays s inp n
  dispatch-Replays s inp n welcome same = welcome-Replays s inp n
  dispatch-Replays s inp n end_of_motd same = end_of_motd-Replays s inp n
  dispatch-Replays s inp n nick_refused same = nick_error-Replays s inp n
  dispatch-Replays s inp n error same = error-Replays s inp n
  dispatch-Replays s inp n other same = store-Replays s inp n

  step-Replays :
      (s : State Conv) (inp : Input) (n : Bytes)
      → (command_of inp.msg.command ≡ authenticate → inp.nonce ≡ n)
      → Replays n inp (step new_client converse s)
  unfolding step
  step-Replays s inp n same =
      ground (arith, dispatch-Replays s inp n (command_of inp.msg.command) same)

  -- A replayed transcript takes the machine to the same state as the same messages received live,
  -- with the same actions in the same order, each carrying the flag of the replay, whatever nonces
  -- the live run and the replay draw, as long as they draw the same one wherever the message is
  -- AUTHENTICATE. So a replay without AUTHENTICATE ends as the live run did.
  pub feed-inputs :
      (s : State Conv) (r : Bool) (rounds : List Round)
      → All SameNonce rounds
      → feed new_client converse s (replayed r rounds) ≡ (
        (feed new_client converse s (received_live rounds)).0,
        flag_all r (feed new_client converse s (received_live rounds)).1,
      )
  unfolding feed
  feed-inputs s r [] same = refl
  feed-inputs s r (m ∷ ms) (same, others) =
      let inp : Input = record { msg = m.message; replay = r; nonce = m.nonce_then } in
      let next = step new_client converse s (live m.nonce_live inp) in
      let rest = feed new_client converse next.0 (received_live ms) in
      rw (
        step-Replays s inp m.nonce_live same,
        feed-inputs next.0 r ms others,
        map-flag-append r next.1 rest.1,
      )
