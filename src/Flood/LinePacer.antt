-- ===== src/Flood/LinePacer.antt =====
-- internal/flood/line.go: the pacer that charges a line the way ircds do. A `time.Time` and a
-- `time.Duration` are numbers of nanoseconds, the zero time is 0, and a size that is not positive
-- is 0. The clock and the sleep are inputs: `attempt` is one round of the loop of `Take`.
pub mod Wait
pub mod Ircu
use go_bnc.Base.{Bool, false, if◌then◌else◌, leb, ltb, not, true, ℕ, ◌*◌, ◌+◌, ◌-◌, ◌/◌, ◌==◌, ◌||◌}

-- `time.Second`
abbrev pub second : ℕ
second = 1_000_000_000

pub record LinePacer : Type 0 where
  pub base : ℕ
  pub per_bytes : ℕ
  pub allowance : ℕ
  pub on : Bool
  pub clock : ℕ

-- `NewLinePacer`
abbrev pub new_line_pacer : LinePacer
new_line_pacer = record {
  base = 2 * second;
  per_bytes = 120;
  allowance = 8 * second;
  on = false;
  clock = 0;
}

-- `Configure`
unfoldable pub configure : LinePacer → Bool → LinePacer
configure p true = record p { on = true }
configure p false = record p { on = false; clock = 0 }

-- `Cost`
unfoldable pub cost : LinePacer → ℕ → ℕ
cost p n = if p.per_bytes == 0 then p.base else p.base + n / p.per_bytes * second

-- What one round of `Take` comes to: the line may go, or the caller sleeps and tries again.
pub data Attempt : Type 0 where
  send : LinePacer → Attempt
  wait : ℕ → LinePacer → Attempt

-- `if p.clock.Before(now) { p.clock = now }`
abbrev pub caught_up : LinePacer → ℕ → LinePacer
caught_up p now = if ltb p.clock now then record p { clock = now } else p

-- The round from there on, with `ahead` and `cost`.
unfoldable pub decide_line : LinePacer → ℕ → ℕ → Attempt
decide_line p ahead c =
    if leb (ahead + c) p.allowance || ahead == 0
    then send (record p { clock = p.clock + c })
    else let delay = ahead + c - p.allowance in wait (if ltb ahead delay then ahead else delay) p

-- One round of the loop of `Take` for a line of `n` bytes at the time `now`.
unfoldable pub attempt : LinePacer → ℕ → ℕ → Attempt
unfolding decide_line cost
attempt p now n =
    if not p.on then send p else let q = caught_up p now in decide_line q (q.clock - now) (cost q n)
