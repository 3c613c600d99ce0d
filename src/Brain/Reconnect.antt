-- ===== src/Brain/Reconnect.antt =====
-- internal/brain/reconnect.go: redialling with backoff. Every operation works on the map entries
-- of one network id, and this record is those entries: a missing `backoff` is 0, a missing
-- `stopped` is false. A duration is the bit pattern of an int64, a number below 2 ^ 64, of
-- nanoseconds. The lines that reach the keeper are the list `sent`, in order. What runs under
-- `reconnMu` is one step, and what runs after it is unlocked is another.
pub mod Backoff
pub mod Stopping
use go_bnc.Base.{
  Bool, List, Option, [], false, if◌then◌else◌, ltb, none, not, some, suc, true, zero, ℕ, ◌%◌, ◌&&◌,
  ◌*◌, ◌++◌, ◌+◌, ◌^◌, ◌||◌, ◌∷◌,
}

-- What is sent to the keeper for the network.
pub data KeeperRequest : Type 0 where
  close_request dial_request : KeeperRequest

-- The timer of the network, with the wait that it was armed with.
pub record Network : Type 0 where
  pub dialled : Bool  -- `dialConfigs[id]` is there
  pub backoff : ℕ
  pub stopped : Bool
  pub timer : Option ℕ
  pub redialling : List Bool  -- timer functions that have passed their test of `stopped`
  pub sent : List KeeperRequest
  pub resets : ℕ  -- calls of `resetStateLocked`

pub record Bounds : Type 0 where
  pub min_backoff : ℕ
  pub max_backoff : ℕ

-- `DefaultMinBackoff`, `DefaultMaxBackoff`
abbrev pub default_bounds : Bounds
default_bounds = record { min_backoff = 1_000_000_000; max_backoff = 60_000_000_000 }

-- `a < b` on int64.
unfoldable pub less_int64 : ℕ → ℕ → Bool
less_int64 a b = if ltb a (2 ^ 63) then ltb b (2 ^ 63) && ltb a b else ltb b (2 ^ 63) || ltb a b

-- `StopNetwork` up to the unlocking of `reconnMu`, after the recovery and keepalive loops are
-- stopped.
unfoldable pub stop_network : Network → Network
stop_network w = record w { stopped = true; timer = none }

-- `d.client.SendClose(id)`, the end of `StopNetwork`.
unfoldable pub send_close : Network → Network
send_close w = record w { sent = w.sent ++ (close_request ∷ []) }

-- `wait` in `armReconnect`
unfoldable pub reconnect_wait : Bounds → Network → ℕ
unfolding less_int64
reconnect_wait b w = if less_int64 w.backoff b.min_backoff then b.min_backoff else w.backoff

-- `armReconnect`, up to the function that the timer runs.
unfoldable pub arm_reconnect : Bounds → Network → Network
unfolding reconnect_wait less_int64
arm_reconnect b w =
    if not w.dialled
    then w
    else if w.stopped
    then w
    else let delay = reconnect_wait b w in
      let next = delay * 2 % 2 ^ 64 in
      record w {
        backoff = if less_int64 b.max_backoff next then b.max_backoff else next;
        timer = some delay;
      }

-- The function that the timer runs, up to its test of `stopped`; `tracked` is what `armReconnect`
-- saw of `configs`.
unfoldable pub timer_fires : Bool → Network → Network
timer_fires tracked w =
    let fired = record w { timer = none } in
    if w.stopped then fired else record fired { redialling = w.redialling ++ (tracked ∷ []) }

-- The function that goes on, and the others.
unfoldable pub take_out : ℕ → List Bool → Option (Bool × List Bool)
take_out n [] = none
take_out zero (t ∷ ts) = some (t, ts)
take_out (suc n) (t ∷ ts) = elim (take_out n ts) [ none ↦ none | some (u, us) ↦ some (u, t ∷ us) ]

-- The rest of that function, which runs without `reconnMu`, for the one at that place.
unfoldable pub redial : ℕ → Network → Network
unfolding take_out
redial n w = elim (take_out n w.redialling) [
  | none ↦ w
  | some (tracked, others) ↦ record w {
    redialling = others;
    resets = if tracked then w.resets + 1 else w.resets;
    sent = w.sent ++ (dial_request ∷ []);
  }
]

-- `resetBackoff`
unfoldable pub reset_backoff : Bounds → Network → Network
reset_backoff b w = record w { backoff = b.min_backoff; stopped = false; timer = none }

-- `clearStopped`
unfoldable pub clear_stopped : Network → Network
clear_stopped w = record w { stopped = false; timer = none }
