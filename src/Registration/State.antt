-- ===== src/Registration/State.antt =====
-- internal/registration/registration.go: the state of the machine, its inputs and its actions.
-- `Conv` is the type of a SCRAM conversation, which github.com/xdg-go/scram implements.
use go_bnc.Irc.Isupport.{new_isupport, Isupport}
use go_bnc.Irc.Message.{Message, Tags}
use go_bnc.Base.{Bool, Bytes, List, Option, [], codes, false, none, true, ◌++◌, ◌∷◌}

pub data Phase : Type 0 where
  cap_negotiation authenticating awaiting_welcome complete failed : Phase

-- `SASLConfig`
pub record SaslConfig : Type 0 where
  pub wanted : Bool
  pub required : Bool
  pub user : Bytes
  pub pass : Bytes
  pub has_client_cert : Bool

-- The errors that `Err` holds, with the values that their texts show.
pub data Reason : Type 0 where
  server_error : Bytes → Reason
  nick_error : Bytes → List Bytes → Reason
  sasl_failed : Bytes → List Bytes → Reason
  no_mechanism : Bytes → Reason
  plain_missing scram_missing bad_challenge : Reason
  unexpected_mechanism : Bytes → Reason
  scram_library : Bytes → Reason

pub record State (Conv : Type 0) : Type 0 where
  pub phase : Phase
  pub nick : Bytes
  pub primary_nick : Bytes
  pub alt_nick : Bytes
  pub nick_recovery : Bool
  pub sasl : SaslConfig
  pub sasl_mech : Bytes
  pub scram_conv : Option Conv
  pub offered : Tags
  pub acked : List (Bytes × Bool)
  pub rpl_002 : List Bytes
  pub rpl_003 : List Bytes
  pub rpl_004 : List Bytes
  pub isupport : Isupport
  pub got_welcome : Bool
  pub failure_reason : Option Reason

-- `New`
unfoldable pub new : {Conv : Type 0} → Bytes → Bytes → Bool → SaslConfig → State Conv
new primary alt recovery config = record {
  phase = cap_negotiation;
  nick = primary;
  primary_nick = primary;
  alt_nick = alt;
  nick_recovery = recovery;
  sasl = config;
  sasl_mech = [];
  scram_conv = none;
  offered = [];
  acked = [];
  rpl_002 = [];
  rpl_003 = [];
  rpl_004 = [];
  isupport = new_isupport;
  got_welcome = false;
  failure_reason = none;
}

-- An `Action` with the fields that its kind uses; the last one is `Replay`.
pub data Action : Type 0 where
  send : Bytes → Bool → Action
  registered : Bool → Action
  failure : Reason → Bool → Action

-- `Input`, with the nonce that `NewConversation` draws if the step opens a SCRAM conversation.
pub record Input : Type 0 where
  pub msg : Message
  pub replay : Bool
  pub nonce : Bytes

abbrev pub Outcome : Type 0 → Type 0
Outcome Conv = State Conv × List Action

-- `Start`
unfoldable pub start : Bytes → Bytes → Bytes → Bytes → Bool → List Action
start nick pass username realname true = []
start nick pass username realname false =
    let user_text : Bytes = elim username [ [] ↦ codes "gobnc" | c ∷ cs ↦ c ∷ cs ] in
    let real_text : Bytes = elim realname [ [] ↦ codes "GoBNC" | c ∷ cs ↦ c ∷ cs ] in
    let pass_lines : List Action = elim pass [
      | [] ↦ []
      | c ∷ cs ↦ send (codes "PASS " ++ (c ∷ cs)) false ∷ []
    ] in
    send (codes "CAP LS 302") false
    ∷ (pass_lines
        ++ (send (codes "NICK " ++ nick) false
            ∷ send (codes "USER " ++ (user_text ++ (codes " 0 * :" ++ real_text))) false
            ∷ []))

-- The only answer that ends the negotiation.
abbrev pub cap_end : Input → List Action
cap_end inp = send (codes "CAP END") inp.replay ∷ []

-- `welcomeTail`
unfoldable pub welcome_tail : List Bytes → List Bytes
welcome_tail [] = []
welcome_tail (p ∷ ps) = ps
