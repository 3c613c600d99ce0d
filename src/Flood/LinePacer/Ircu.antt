-- ===== src/Flood/LinePacer/Ircu.antt =====
-- internal/flood/line.go against the flood rule of ircu, which the pacer follows.
use go_bnc.Base.{
  List, [], arith, if◌then◌else◌, ltb, true, ℕ, ◌*◌, ◌+◌, ◌-◌, ◌/◌, ◌<◌, ◌∷◌, ◌≡◌, ◌≤◌,
}
use go_bnc.Flood.LinePacer.{second, LinePacer, send, wait, attempt}

-- A time and a size for each line that the pacer let go, in order; rounds that only wait stand
-- between them.
pub data Released : LinePacer → List (ℕ × ℕ) → Type 0 where
  done : {p : LinePacer} → Released p []
  waited :
      {p q : LinePacer} {xs : List (ℕ × ℕ)} (now n : ℕ) {d : ℕ}
      → attempt p now n ≡ wait d q
      → Released q xs
      → Released p xs
  sent :
      {p q : LinePacer} {xs : List (ℕ × ℕ)} (now n : ℕ)
      → attempt p now n ≡ send q
      → Released q xs
      → Released p ((now, n) ∷ xs)

-- ircu's rule: a line is parsed on arrival only while the client's clock is less than 10 seconds
-- ahead, and each parsed line advances the clock by 2 seconds and one more for each 120 bytes.
abbrev pub IrcuReads : ℕ → List (ℕ × ℕ) → Type 0
IrcuReads since [] = Unit
IrcuReads since ((now, n) ∷ xs) =
    let clock : ℕ = if ltb since now then now else since in
    (clock - now < 10 * second) × IrcuReads (clock + (2 + n / 120) * second) xs

-- The pacer's parameters are those of ircu's rule.
pub record IsIrcu (p : LinePacer) : Type 0 where
  pub base_is : p.base ≡ 2 * second
  pub per_bytes_is : p.per_bytes ≡ 120
  pub allowance_le : p.allowance < 10 * second
  pub is_on : p.on ≡ true

attempt-IsIrcu_send : (p q : LinePacer) (now n : ℕ) → IsIrcu p → attempt p now n ≡ send q → IsIrcu q
unfolding attempt
attempt-IsIrcu_send p q now n v h = ground arith

attempt-IsIrcu_wait :
    (p q : LinePacer) (now n : ℕ) {d : ℕ} → IsIrcu p → attempt p now n ≡ wait d q → IsIrcu q
unfolding attempt
attempt-IsIrcu_wait p q now n v h = ground arith

wait-clock : (p q : LinePacer) (now n : ℕ) {d : ℕ} → attempt p now n ≡ wait d q → p.clock ≤ q.clock
unfolding attempt
wait-clock p q now n h = ground arith

send-clock :
    (p q : LinePacer) (now n since : ℕ)
    → IsIrcu p
    → attempt p now n ≡ send q
    → since ≤ p.clock
    → let clock : ℕ = if ltb since now then now else since in
      (clock - now < 10 * second) × (clock + (2 + n / 120) * second ≤ q.clock)
unfolding attempt
send-clock p q now n since v h le = ground arith

-- Every line that the pacer lets go, with ircu's parameters, an allowance under 10 seconds and a
-- clock that is not behind the server's, is parsed by ircu on arrival, so nothing waits in the
-- server's receive queue.
pub Released-IrcuReads :
    {p : LinePacer} {xs : List (ℕ × ℕ)} (since : ℕ)
    → IsIrcu p
    → since ≤ p.clock
    → Released p xs
    → IrcuReads since xs
Released-IrcuReads since v le done = tt
Released-IrcuReads since v le (waited {p} {q} now n h r) =
    Released-IrcuReads since (attempt-IsIrcu_wait p q now n v h)
      (omega (arith, wait-clock p q now n h)) r
Released-IrcuReads since v le (sent {p} {q} now n h r) =
    let (near, charged) = send-clock p q now n since v h le in
    (near, Released-IrcuReads _ (attempt-IsIrcu_send p q now n v h) charged r)
