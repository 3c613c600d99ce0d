-- ===== src/Tests/Registering.antt =====
-- A client that registers, with a library of SCRAM that answers `r` to every challenge.
use go_bnc.Registration.State.{Input, State, SaslConfig, new, authenticating, complete, failed}
use go_bnc.Registration.Step.{is_terminal, step, command_of}
use go_bnc.Registration.Sasl.{plain_name, password_ok, step_authenticate}
use go_bnc.Registration.Nick.{build_nick_ladder}
use go_bnc.Registration.Post.{step_post}
use go_bnc.Registration.Runs.{feed}
use go_bnc.Irc.Message.Access.{param}
use go_bnc.Registration.Validity.{IsValid}
use go_bnc.Registration.Validity.Reach.{Reached-IsValid, begun, stepped}
use go_bnc.Registration.Announce.Runs.{feed-Announces}
use go_bnc.Registration.Announce.{Announces}
use go_bnc.Registration.Required.{IsOpen, EndsNothing, Withholds}
use go_bnc.Registration.Required.Runs.{feed-Withholds}
use go_bnc.Registration.Replay.Runs.{Round, SameNonce, replayed, received_live, feed-inputs}
use go_bnc.Registration.Replay.{flag_all}
use go_bnc.Registration.Sasl.Chunks.{received-step_authenticate, received}
use go_bnc.Registration.Nick.Refusals.{feed-IsRefusal, IsRefusal}
use go_bnc.Registration.Nick.Ladder.{build_nick_ladder-Distinct, Fits, Distinct}
use go_bnc.Registration.Post.Registered.{step_post-StaysRegistered, StaysRegistered}
use go_bnc.Registration.Offers.{feed-ls_more, ls_more, ls_last}
use go_bnc.Base.{
  All, Bytes, List, [], arith, codes, false, inr, is_empty, length, refl, replicate, some, suc,
  text_eq, text_in, true, zero, ℕ, ◌++◌, ◌+◌, ◌∷◌, ◌≡◌, ◌⊎◌,
}

new_client : Bytes → Bytes → Bytes → Bytes ⊎ ℕ
new_client user pass nonce = inr (length nonce)

converse : ℕ → Bytes → Bytes ⊎ (Bytes × ℕ)
converse n challenge = inr (codes "r", n + 1)

abbrev config : SaslConfig
config = record {
  wanted = true;
  required = true;
  user = codes "al";
  pass = codes "pw";
  has_client_cert = false;
}

abbrev al : State ℕ
al = new (codes "al") (codes "bo") true config

abbrev said : Bytes → List Bytes → Input
said command params = record {
  msg = record { tags = []; source = []; command = command; params = params; raw = [] };
  replay = false;
  nonce = [];
}

abbrev asking : State ℕ
asking = record al { phase = authenticating; sasl_mech = plain_name }

build_nick_ladder-Distinct_example :
    All (Fits 9) (build_nick_ladder (codes "al") (codes "bo") 9)
    × Distinct (build_nick_ladder (codes "al") (codes "bo") 9)
build_nick_ladder-Distinct_example = build_nick_ladder-Distinct (codes "al") (codes "bo") 9

-- The message of an input, with the nonces that are drawn when it comes and in the replay.
abbrev round : Input → Bytes → Bytes → Round
round inp live then = record { message = inp.msg; nonce_live = live; nonce_then = then }

abbrev welcome_rounds : List Round
welcome_rounds =
    round (said (codes "CAP") (codes "*" ∷ codes "LS" ∷ codes "sasl=PLAIN batch" ∷ [])) (codes "n")
      (codes "m")
    ∷ round (said (codes "CAP") (codes "*" ∷ codes "ACK" ∷ codes "sasl" ∷ [])) [] []
    ∷ round (said (codes "AUTHENTICATE") (codes "+" ∷ [])) [] []
    ∷ round (said (codes "903") []) [] (codes "n")
    ∷ round (said (codes "001") (codes "al" ∷ [])) [] []
    ∷ round (said (codes "376") []) [] []
    ∷ []

welcome_rounds-SameNonce : All SameNonce welcome_rounds
unfolding command_of text_in text_eq
welcome_rounds-SameNonce =
    ((λ e. cc), ((λ e. refl), ((λ e. refl), ((λ e. cc), ((λ e. refl), ((λ e. refl), tt))))))

feed-inputs_example : feed new_client converse al (replayed true welcome_rounds) ≡ (
  (feed new_client converse al (received_live welcome_rounds)).0,
  flag_all true (feed new_client converse al (received_live welcome_rounds)).1,
)
feed-inputs_example =
    feed-inputs new_client converse al true welcome_rounds welcome_rounds-SameNonce

feed-Announces_example : Announces (feed new_client converse al (received_live welcome_rounds))
feed-Announces_example =
    feed-Announces new_client converse al (received_live welcome_rounds) (unfold new in refl)

Reached-IsValid_example :
    IsValid (step new_client converse al (said (codes "001") (codes "al" ∷ []))).0
Reached-IsValid_example =
    Reached-IsValid new_client converse
      (stepped (said (codes "001") (codes "al" ∷ [])) (begun (codes "al") (codes "bo") true config))

received-step_authenticate_example :
    received
      (step_authenticate new_client converse asking
        (said (codes "AUTHENTICATE") (codes "+" ∷ []))).1
    ≡ some (0 ∷ (codes "al" ++ (0 ∷ codes "pw")))
unfolding new
received-step_authenticate_example =
    received-step_authenticate new_client converse asking
      (said (codes "AUTHENTICATE") (codes "+" ∷ [])) refl (unfold param in refl)
      (unfold new password_ok is_empty in refl) (unfold new in omega arith)
      (unfold new in omega arith)

abbrev refused : Input
refused = said (codes "433") (codes "*" ∷ codes "al" ∷ [])

refused-IsRefusal : IsRefusal refused
refused-IsRefusal = unfold command_of text_in text_eq in (refl, refl)

many : (n : ℕ) → All IsRefusal (replicate n refused)
many zero = tt
many (suc n) = (refused-IsRefusal, many n)

feed-IsRefusal_example : (feed new_client converse al (replicate 22 refused)).0.phase ≡ failed
feed-IsRefusal_example =
    feed-IsRefusal new_client converse al (replicate 22 refused) (unfold new is_terminal in refl)
      (unfold new in refl) (many 22) (omega arith)

abbrev online : State ℕ
online = record al { phase = complete; got_welcome = true }

online-IsValid : IsValid online
online-IsValid = record {
  complete_welcomed = λ e. refl;
  welcomed_past = λ e. cc;
  reason_iff_failed = unfold new in refl;
  not_internal = unfold new in refl;
  mech_allowed = unfold new is_empty in refl;
  conv_scram = unfold new in refl;
}

step_post-StaysRegistered_example : StaysRegistered online (
    step_post new_client converse online
      (said (codes "CAP") (codes "*" ∷ codes "ACK" ∷ codes "sasl" ∷ [])))
step_post-StaysRegistered_example =
    step_post-StaysRegistered new_client converse online-IsValid
      (said (codes "CAP") (codes "*" ∷ codes "ACK" ∷ codes "sasl" ∷ []))

abbrev locked : Input
locked = said (codes "904") (codes "al" ∷ [])

asking-IsOpen : IsOpen asking
asking-IsOpen = record { unwelcomed = unfold new in refl; required = unfold new in refl }

locked_after_refusal : All EndsNothing (refused ∷ locked ∷ [])
unfolding command_of text_in text_eq
locked_after_refusal =
    (((λ e. cc), (λ e. cc), refl, refl), (((λ e. cc), (λ e. cc), refl, refl), tt))

feed-Withholds_example : Withholds asking (feed new_client converse asking (refused ∷ locked ∷ []))
feed-Withholds_example =
    feed-Withholds new_client converse asking (refused ∷ locked ∷ []) asking-IsOpen
      locked_after_refusal

feed-ls_more_example :
    feed new_client converse al (
      record { msg = ls_more (codes "*") (codes "sasl"); replay = false; nonce = [] }
      ∷ record { msg = ls_last (codes "*") (codes "batch"); replay = false; nonce = [] }
      ∷ [])
    ≡ feed new_client converse al
        (record { msg = ls_last (codes "*") (codes "sasl batch"); replay = false; nonce = [] } ∷ [])
feed-ls_more_example =
    feed-ls_more new_client converse al false [] [] [] (codes "*") (codes "sasl") (codes "batch")
      (unfold new is_terminal in refl) (λ e. cc)
