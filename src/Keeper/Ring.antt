-- ===== src/Keeper/Ring.antt =====
-- internal/keeper/ring.go: the bounded buffer of recently read lines. A time is a number of
-- nanoseconds; `uint64` counters wrap. `int` indices stay below twice the capacity and do not.
pub mod Window
pub mod Since
use go_bnc.Base.{
  Bool, Bytes, List, Option, [], get_or, if◌then◌else◌, ltb, none, not, replicate, set, some, suc,
  zero, ℕ, ◌%◌, ◌&&◌, ◌+◌, ◌-◌, ◌==◌, ◌^◌, ◌∷◌,
}

-- uint64 arithmetic.
abbrev pub u64_mod : ℕ
u64_mod = 2 ^ 64

pub record Entry : Type 0 where
  pub seq : ℕ
  pub epoch : ℕ
  pub line : Bytes
  pub time : ℕ

-- The zero value of `Entry`.
abbrev pub zero_entry : Entry
zero_entry = record { seq = 0; epoch = 0; line = []; time = 0 }

pub record Ring : Type 0 where
  pub buf : List Entry
  pub cap : ℕ
  pub start : ℕ
  pub len : ℕ
  pub dropped : ℕ

-- `newRing`; every capacity that is not positive is 0 here.
unfoldable pub new_ring : ℕ → Ring
new_ring capacity =
    let cap : ℕ = if capacity == 0 then 4096 else capacity in
    record { buf = replicate cap zero_entry; cap = cap; start = 0; len = 0; dropped = 0 }

-- The first half of `push`: make room if the ring is full.
unfoldable pub evict : Ring → Ring
evict r =
    if r.len == r.cap
    then record r {
      start = (r.start + 1) % r.cap;
      len = r.len - 1;
      dropped = (r.dropped + 1) % u64_mod;
    }
    else r

-- The second half: write behind the newest entry.
unfoldable pub append : Ring → Entry → Ring
append r e = record r { buf = set r.buf ((r.start + r.len) % r.cap) e; len = r.len + 1 }

-- `push`, with its result `evicted`.
unfoldable pub push : Ring → Entry → Ring × Bool
unfolding evict append
push r e = (append (evict r) e, r.len == r.cap)

-- `r.buf[(r.start+i)%r.cap]`
unfoldable pub entry_at : Ring → ℕ → Entry
entry_at r i = get_or r.buf ((r.start + i) % r.cap) zero_entry

-- The loop of `since` from index `i`, with `n` rounds to go.
unfoldable pub since_loop : Ring → ℕ → ℕ → ℕ → List Entry
unfolding entry_at
since_loop r after_seq i zero = []
since_loop r after_seq i (suc n) =
    let e = entry_at r i in
    let rest = since_loop r after_seq (i + 1) n in if ltb after_seq e.seq then e ∷ rest else rest

-- `since`; `none` is the result `ok == false`.
unfoldable pub since : Ring → ℕ → Option (List Entry)
unfolding since_loop
since r after_seq =
    let oldest = (get_or r.buf r.start zero_entry).seq in
    if r.len == 0
    then some []
    else if ltb ((after_seq + 1) % u64_mod) oldest && not (after_seq == 0)
    then none
    else some (since_loop r after_seq 0 r.len)

-- `lastSeq`
unfoldable pub last_seq : Ring → ℕ
last_seq r = if r.len == 0 then 0 else (get_or r.buf ((r.start + r.len - 1) % r.cap) zero_entry).seq

-- `Stats`
pub record Stats : Type 0 where
  pub occupancy : ℕ
  pub capacity : ℕ
  pub latest : ℕ
  pub last_line_time : ℕ
  pub evictions : ℕ

-- `snapshot`
unfoldable pub snapshot : Ring → Stats
snapshot r =
    let last = get_or r.buf ((r.start + r.len - 1) % r.cap) zero_entry in
    let st : Stats = record {
      occupancy = r.len;
      capacity = r.cap;
      latest = 0;
      last_line_time = 0;
      evictions = r.dropped;
    } in
    if ltb 0 r.len then record st { latest = last.seq; last_line_time = last.time } else st
