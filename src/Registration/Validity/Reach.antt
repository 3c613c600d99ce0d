-- ===== src/Registration/Validity/Reach.antt =====
-- internal/registration: the states that calls of `Step` and `StepPost` reach from `New`.
use go_bnc.Registration.State.{Input, State, SaslConfig, new}
use go_bnc.Registration.Step.{ack_all, offer_all, step, delete_all, offer_mechs}
use go_bnc.Registration.Sasl.{pick_sasl_mech}
use go_bnc.Registration.Post.{
  is_complete, reauthenticate, post_cap_ack, post_cap, post_dispatch, step_post,
}
use go_bnc.Irc.Message.Access.{trailing}
use go_bnc.Registration.Validity.{IsValid, is_failed, can_use, outcome-IsValid, pick-can_use}
use go_bnc.Registration.Validity.Exchange.{authenticate-IsValid}
use go_bnc.Registration.Validity.Runs.{step-IsValid, new-IsValid, offered-IsValid, acked-IsValid}
use go_bnc.Base.{
  Bool, Bool-cases, Bytes, Option-cases, arith, false, fields, inl, inr, is_empty, none, true, ◌≡◌,
  ◌⊎◌,
}

module _ {Conv : Type 0} where
  mech-IsValid :
      {s : State Conv} (v : IsValid s) (mech : Bytes)
      → can_use s.sasl mech ≡ true
      → IsValid (record s { sasl_mech = mech; scram_conv = none })
  unfolding is_empty
  mech-IsValid v mech ok = ground (arith, v)

  reauthenticate-IsValid :
      {s : State Conv} (inp : Input) (v : IsValid s)
      → IsValid (reauthenticate s inp (pick_sasl_mech s)).0
  unfolding reauthenticate
  reauthenticate-IsValid {s} inp v = elim (Option-cases (pick_sasl_mech s)) [
    | inl e ↦ rw e v
    | inr (mech, e) ↦ rw e (mech-IsValid v mech (pick-can_use s mech e))
  ]

  module _ {s : State Conv} (inp : Input) (v : IsValid s) where
    post_cap_ack-IsValid : IsValid (post_cap_ack s inp).0
    unfolding post_cap_ack
    post_cap_ack-IsValid =
        let raws = fields (trailing inp.msg) in
        let w =
          offered-IsValid (acked-IsValid v (ack_all s.acked raws)) (offer_mechs s.offered raws) in
        ground (arith, w, reauthenticate-IsValid inp w)

    post_cap-IsValid : IsValid (post_cap s inp).0
    unfolding post_cap
    post_cap-IsValid =
        let words = fields (trailing inp.msg) in
        let kept = delete_all s.offered s.acked words in
        ground (
          arith,
          v,
          post_cap_ack-IsValid,
          offered-IsValid v (offer_all s.offered words),
          offered-IsValid (acked-IsValid v kept.1) kept.0,
        )

  module _ (new_client : Bytes → Bytes → Bytes → Bytes ⊎ Conv)
      (converse : Conv → Bytes → Bytes ⊎ (Bytes × Conv)) where
    post-IsValid :
        {s : State Conv} (inp : Input) → IsValid s → IsValid (step_post new_client converse s inp).0
    unfolding step_post post_dispatch is_complete
    post-IsValid {s} inp v = elim (Bool-cases (is_complete s.phase)) [
      | inr going ↦ ground (arith, v)
      | inl over ↦
          let alive : is_failed s.phase ≡ false = ground arith in
          ground (
            arith,
            v,
            post_cap-IsValid inp v,
            authenticate-IsValid new_client converse inp v alive,
            outcome-IsValid inp v alive,
          )
    ]

    -- Any calls of `Step` and `StepPost`, in any order.
    pub data Reached : State Conv → Type 0 where
      begun :
          (primary alt : Bytes) (recovery : Bool) (config : SaslConfig)
          → Reached (new primary alt recovery config)
      stepped :
          {s : State Conv} (inp : Input) → Reached s → Reached (step new_client converse s inp).0
      posted :
          {s : State Conv} (inp : Input)
          → Reached s
          → Reached (step_post new_client converse s inp).0

    -- In every state that calls of `Step` and `StepPost` reach from a new one, the registration is
    -- complete only if the server has sent 001; there is an error exactly if it has failed, and the
    -- error is not one of missing credentials or of an unknown mechanism; the mechanism under way
    -- is one that the configuration wants and has the credentials for, and only SCRAM-SHA-256 has
    -- a conversation.
    pub Reached-IsValid : {s : State Conv} → Reached s → IsValid s
    Reached-IsValid (begun primary alt recovery config) =
        new-IsValid new_client converse primary alt recovery config
    Reached-IsValid (stepped inp r) = step-IsValid new_client converse inp (Reached-IsValid r)
    Reached-IsValid (posted inp r) = post-IsValid inp (Reached-IsValid r)
