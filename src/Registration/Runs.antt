-- ===== src/Registration/Runs.antt =====
-- internal/registration: `Step` on one message after another.
use go_bnc.Registration.Step.{step, is_terminal}
use go_bnc.Registration.State.{State, Input, Outcome}
use go_bnc.Base.{Bytes, List, [], refl, true, ◌++◌, ◌∷◌, ◌≡◌, ◌⊎◌}

module _ {Conv : Type 0} (new_client : Bytes → Bytes → Bytes → Bytes ⊎ Conv)
    (converse : Conv → Bytes → Bytes ⊎ (Bytes × Conv)) where
  -- The messages with the flag `Replay` each of them carries.
  unfoldable pub feed : State Conv → List Input → Outcome Conv
  feed s [] = (s, [])
  feed s (inp ∷ inps) =
      let next = step new_client converse s inp in
      let rest = feed next.0 inps in (rest.0, next.1 ++ rest.1)

  -- Once the registration is over, nothing changes it.
  pub feed-is_terminal :
      (s : State Conv) (inps : List Input) → is_terminal s.phase ≡ true → feed s inps ≡ (s, [])
  unfolding feed step
  feed-is_terminal s [] e = refl
  feed-is_terminal s (inp ∷ inps) e = rw e (feed-is_terminal s inps e)
