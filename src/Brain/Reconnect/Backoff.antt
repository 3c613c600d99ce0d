-- ===== src/Brain/Reconnect/Backoff.antt =====
-- internal/brain/reconnect.go: the waits grow and stay in range.
use go_bnc.Base.{
  add-zero, ap, arith, false, if◌then◌else◌, ltb, min, some, suc, sym, true, zero, zero-add, ℕ, ◌%◌,
  ◌*◌, ◌+◌, ◌<◌, ◌^◌, ◌∙◌, ◌≡◌, ◌≤◌,
}
use native.Mathlib.Nat.{pow-suc, mul_assoc, mod-eq_of_lt}
use go_bnc.Brain.Reconnect.{
  Network, Bounds, reconnect_wait, arm_reconnect, reset_backoff, less_int64,
}

-- On durations that are not negative the comparison is that of numbers.
less_int64-ltb : (a b : ℕ) → a < 2 ^ 63 → b < 2 ^ 63 → less_int64 a b ≡ ltb a b
unfolding less_int64
less_int64-ltb a b ha hb = ground arith

-- The bounds are in order, doubling the larger one is in the range of int64, and the network may be
-- redialled.
pub record IsLive (b : Bounds) (w : Network) : Type 0 where
  pub ordered : b.min_backoff ≤ b.max_backoff
  pub positive : 0 < b.min_backoff
  pub in_range : b.max_backoff < 2 ^ 62
  pub dialled_once : w.dialled ≡ true
  pub not_stopped : w.stopped ≡ false
  pub backoff_le : w.backoff ≤ b.max_backoff

pub arm_all : Bounds → ℕ → Network → Network
arm_all b zero w = w
arm_all b (suc n) w = arm_all b n (arm_reconnect b w)

wait_small :
    (b : Bounds) (w : Network)
    → IsLive b w
    → reconnect_wait b w ≡ (if ltb w.backoff b.min_backoff then b.min_backoff else w.backoff)
unfolding reconnect_wait
wait_small b w v = ground (
  arith,
  less_int64-ltb w.backoff b.min_backoff (omega (arith, v.backoff_le, v.in_range))
      (omega (arith, v.ordered, v.in_range)),
)

wait_le : (b : Bounds) (w : Network) → IsLive b w → reconnect_wait b w ≤ b.max_backoff
wait_le b w v = ground (arith, wait_small b w v)

next_small :
    (b : Bounds) (w : Network)
    → IsLive b w
    → less_int64 b.max_backoff (reconnect_wait b w * 2 % 2 ^ 64)
      ≡ ltb b.max_backoff (reconnect_wait b w * 2)
next_small b w v =
    let le = wait_le b w v in
    let small : reconnect_wait b w * 2 % 2 ^ 64 ≡ reconnect_wait b w * 2 =
      mod-eq_of_lt (omega (arith, le, v.in_range)) in
    rw small (
      less_int64-ltb b.max_backoff (reconnect_wait b w * 2) (omega (arith, v.in_range))
        (omega (arith, le, v.in_range)))

-- The backoff after an attempt.
backoff-arm_reconnect :
    (b : Bounds) (w : Network)
    → IsLive b w
    → (arm_reconnect b w).backoff ≡ (
        let next : ℕ = reconnect_wait b w * 2 in
        if ltb b.max_backoff next then b.max_backoff else next)
unfolding arm_reconnect
backoff-arm_reconnect b w v =
    let small : reconnect_wait b w * 2 % 2 ^ 64 ≡ reconnect_wait b w * 2 =
      mod-eq_of_lt (omega (arith, wait_le b w v, v.in_range)) in
    ground (arith, next_small b w v, small)

arm_reconnect-IsLive : (b : Bounds) (w : Network) → IsLive b w → IsLive b (arm_reconnect b w)
unfolding arm_reconnect
arm_reconnect-IsLive b w v = ground arith

-- The wait before attempt `n + 1`: doubled each time, up to the maximum.
abbrev doubled : Bounds → ℕ → ℕ
doubled b zero = b.min_backoff
doubled b (suc n) =
    let next : ℕ = doubled b n * 2 in if ltb b.max_backoff next then b.max_backoff else next

arm_reconnect-timer :
    (b : Bounds) (w : Network) → IsLive b w → (arm_reconnect b w).timer ≡ some (reconnect_wait b w)
unfolding arm_reconnect
arm_reconnect-timer b w v = ground arith

reconnect_wait-range :
    (b : Bounds) (w : Network)
    → IsLive b w
    → (b.min_backoff ≤ reconnect_wait b w) × (reconnect_wait b w ≤ b.max_backoff)
unfolding reconnect_wait
reconnect_wait-range b w v = ground arith

reconnect_wait-arm :
    (b : Bounds) (w : Network)
    → IsLive b w
    → reconnect_wait b (arm_reconnect b w) ≡ (
        let next : ℕ = reconnect_wait b w * 2 in
        if ltb b.max_backoff next then b.max_backoff else next)
unfolding arm_reconnect
reconnect_wait-arm b w v = ground arith

wait-arm_all :
    (b : Bounds) (n : ℕ) (w : Network) (k : ℕ)
    → IsLive b w
    → reconnect_wait b w ≡ doubled b k
    → (arm_all b (suc n) w).timer ≡ some (doubled b (k + n))
unfolding arm_all
wait-arm_all b zero w k v h = arm_reconnect-timer b w v ∙ rw (h, add-zero)
wait-arm_all b (suc n) w k v h =
    let shift : suc k + n ≡ k + suc n = omega arith in
    wait-arm_all b n (arm_reconnect b w) (suc k) (arm_reconnect-IsLive b w v)
      (reconnect_wait-arm b w v ∙ rw h)
    ∙ rw shift

doubled-min :
    (b : Bounds) (n : ℕ)
    → b.min_backoff ≤ b.max_backoff
    → doubled b n ≡ min b.max_backoff (b.min_backoff * 2 ^ n)
doubled-min b zero h = omega arith
doubled-min b (suc n) h =
    let twice : b.min_backoff * 2 ^ suc n ≡ b.min_backoff * 2 ^ n * 2 =
      rw pow-suc (sym (mul_assoc b.min_backoff (2 ^ n) 2)) in
    ground (arith, doubled-min b n h, twice)

-- After a successful dial, with bounds that are in order, a positive minimum and a maximum below
-- 2 ^ 62 nanoseconds, the wait armed by failure number `n + 1` is the minimum doubled `n` times, cut
-- off at the maximum.
pub backoff_doubles :
    (b : Bounds) (w : Network) (n : ℕ)
    → b.min_backoff ≤ b.max_backoff
    → 0 < b.min_backoff
    → b.max_backoff < 2 ^ 62
    → w.dialled ≡ true
    → (arm_all b (suc n) (reset_backoff b w)).timer
      ≡ some (min b.max_backoff (b.min_backoff * 2 ^ n))
unfolding reset_backoff reconnect_wait
backoff_doubles b w n ordered positive in_range dialled =
    wait-arm_all b n (reset_backoff b w) 0 (ground arith) (ground arith)
    ∙ rw zero-add (ap some (doubled-min b n ordered))
