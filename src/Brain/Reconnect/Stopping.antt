-- ===== src/Brain/Reconnect/Stopping.antt =====
-- internal/brain/reconnect.go: a stopped network stays down.
use go_bnc.Brain.Reconnect.{
  Network, Bounds, KeeperRequest, close_request, dial_request, stop_network, send_close,
  arm_reconnect, timer_fires, take_out, redial,
}
use go_bnc.Base.{
  Bool, List, Option-cases, [], ap, arith, inl, inr, length, refl, some, subst, suc, sym, true,
  zero, ℕ, ◌++◌, ◌+◌, ◌∙◌, ◌∷◌, ◌≡◌,
}

-- What may happen to a network by itself, and the close request that ends `StopNetwork`: a failure
-- arms the timer, a timer function begins, a timer function goes on.
pub data Event : Type 0 where
  fails : Event
  fires : Bool → Event
  redials : ℕ → Event
  closes : Event

pub after : Bounds → Network → Event → Network
after b w fails = arm_reconnect b w
after b w (fires tracked) = timer_fires tracked w
after b w (redials n) = redial n w
after b w closes = send_close w

pub run : Bounds → Network → List Event → Network
run b w [] = w
run b w (e ∷ es) = run b (after b w e) es

-- The number of dial requests.
pub dials : List KeeperRequest → ℕ
dials [] = 0
dials (dial_request ∷ rs) = suc (dials rs)
dials (close_request ∷ rs) = dials rs

-- The dial requests that were sent, and those that timer functions are about to send.
abbrev pub promised : Network → ℕ
promised w = dials w.sent + length w.redialling

dials-append :
    (rs : List KeeperRequest) (r : KeeperRequest)
    → dials (rs ++ (r ∷ [])) ≡ dials (r ∷ []) + dials rs
unfolding dials
dials-append [] r = ground arith
dials-append (dial_request ∷ rs) r = ground (arith, dials-append rs r)
dials-append (close_request ∷ rs) r = ground (arith, dials-append rs r)

length-take_out :
    (n : ℕ) (ts : List Bool) (t : Bool) (us : List Bool)
    → take_out n ts ≡ some (t, us)
    → length ts ≡ suc (length us)
unfolding take_out
length-take_out n [] t us h = absurd (ground (arith, h))
length-take_out zero (x ∷ ts) t us h = ground (arith, h)
length-take_out (suc n) (x ∷ ts) t us h = elim (Option-cases (take_out n ts)) [
  | inl e ↦ absurd (ground (arith, e, h))
  | inr ((u, vs), e) ↦ ground (arith, h, e, length-take_out n ts u vs e)
]

abbrev Keeps : Network → Network → Type 0
Keeps w w' = (promised w' ≡ promised w) × (w'.stopped ≡ true)

after-Keeps : (b : Bounds) (w : Network) (e : Event) → w.stopped ≡ true → Keeps w (after b w e)
unfolding after
after-Keeps b w fails h = unfold arm_reconnect in ground arith
after-Keeps b w (fires tracked) h = unfold timer_fires in ground arith
after-Keeps b w closes h =
    unfold send_close dials in ground (arith, dials-append w.sent close_request)
after-Keeps b w (redials n) h = elim (Option-cases (take_out n w.redialling)) [
  | inl e ↦
      let same : redial n w ≡ w = unfold redial in ground arith in
      subst (Keeps w) (sym same) (refl, h)
  | inr ((t, us), e) ↦
      let sent_now : (redial n w).sent ≡ w.sent ++ (dial_request ∷ []) =
        unfold redial in ground arith in
      let others : (redial n w).redialling ≡ us = unfold redial in ground arith in
      let still : (redial n w).stopped ≡ true = unfold redial in ground arith in
      (
        unfold dials in
            ground (
              arith,
              ap dials sent_now,
              ap length others,
              dials-append w.sent dial_request,
              length-take_out n w.redialling t us e,
            ),
        still,
      )
]

run-Keeps : (b : Bounds) (w : Network) (es : List Event) → w.stopped ≡ true → Keeps w (run b w es)
unfolding run
run-Keeps b w [] h = (refl, h)
run-Keeps b w (e ∷ es) h =
    let now = after-Keeps b w e h in
    let later = run-Keeps b (after b w e) es now.1 in (later.0 ∙ now.0, later.1)

-- Once `StopNetwork` has marked a network as stopped, no sequence of failures, timers and the close
-- request, in any order, makes another timer function redial it: the dial requests that are sent
-- and those that are still to come from timer functions stay as many as they were at that moment.
-- So only a timer function that had passed its test before can still send its dial request, before
-- the close request or behind it.
pub stop_network-run :
    (b : Bounds) (w : Network) (es : List Event)
    → (promised (run b (stop_network w) es) ≡ promised w)
      × ((run b (stop_network w) es).stopped ≡ true)
unfolding stop_network
stop_network-run b w es = run-Keeps b (stop_network w) es refl
