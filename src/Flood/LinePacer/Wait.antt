-- ===== src/Flood/LinePacer/Wait.antt =====
-- internal/flood/line.go: `Take` sleeps at most once.
use go_bnc.Base.{arith, true, ℕ, ◌+◌, ◌<◌, ◌≡◌, ◌≤◌}
use go_bnc.Flood.LinePacer.{LinePacer, send, wait, attempt, cost, caught_up}

-- The pacer once a line is charged.
abbrev pub charged : LinePacer → ℕ → ℕ → LinePacer
charged p now n = let q = caught_up p now in record q { clock = q.clock + cost q n }

-- A line that has slept for as long as it was told goes out in the next round, if no other line
-- was charged meanwhile.
pub attempt-wait_once :
    (p : LinePacer) (now n later : ℕ) {d : ℕ} {q : LinePacer}
    → attempt p now n ≡ wait d q
    → now + d ≤ later
    → attempt q later n ≡ send (charged q later n)
unfolding attempt
attempt-wait_once p now n later h le = ground arith

-- A line is made to wait no longer than the charged clock runs ahead of real time.
pub wait-le :
    (p : LinePacer) (now n : ℕ) {d : ℕ} {q : LinePacer}
    → attempt p now n ≡ wait d q
    → (0 < d) × (now + d ≤ p.clock) × (p.on ≡ true)
unfolding attempt
wait-le p now n h = ground arith
