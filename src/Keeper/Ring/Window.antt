-- ===== src/Keeper/Ring/Window.antt =====
-- internal/keeper/ring.go: the ring holds a window of the pushed lines, the newest ones.
use go_bnc.Base.{
  ==_iff, Bool-cases, List, [], ap, ap₂, arith, drop, false, get_or, get_or-set_ne, get_or-set_self,
  if◌then◌else◌, inl, inr, length, length-replicate, length-set, ltb, ltb→lt, min, refl, suc, sym,
  zero, ℕ, ◌%◌, ◌++◌, ◌+◌, ◌-◌, ◌<◌, ◌==◌, ◌∙◌, ◌∷◌, ◌≡◌, ◌≢◌, ◌≤◌, ◌⊎◌,
}
use native.Mathlib.Nat.{mod-eq_of_lt, mod-lt, mod-add-mod, mod-eq-sub-mod, add-zero, zero-add}
use go_bnc.Keeper.Ring.{Entry, Ring, zero_entry, new_ring, evict, append, push, entry_at, u64_mod}

-- What `push` keeps true of the fields.
pub record IsRing (r : Ring) : Type 0 where
  pub cap_pos : 0 < r.cap
  pub buf_full : length r.buf ≡ r.cap
  pub start_in : r.start < r.cap
  pub len_in : r.len ≤ r.cap

-- The entries from index `i` on, `n` of them, oldest first.
unfoldable pub window : Ring → ℕ → ℕ → List Entry
window r i zero = []
window r i (suc n) = entry_at r i ∷ window r (i + 1) n

-- What the ring holds: the abstract view.
unfoldable pub contents : Ring → List Entry
unfolding window
contents r = window r 0 r.len

mod_cases : (x c : ℕ) → x < c + c → ((x % c ≡ x) × (x < c)) ⊎ ((x % c ≡ x - c) × (c ≤ x))
mod_cases x c h = elim (Bool-cases (ltb x c)) [
  | inl lt ↦ inl (mod-eq_of_lt (ltb→lt x c lt), ltb→lt x c lt)
  | inr ge ↦
      let le : c ≤ x = ground arith in inr (mod-eq-sub-mod le ∙ mod-eq_of_lt (omega arith), le)
]

-- Two indices of the window stand at different places of the buffer.
index_ne : (s j k c : ℕ) → s < c → j < k → k < c → (s + k) % c ≢ (s + j) % c
index_ne s j k c hs hj hk e =
    omega (arith, mod_cases (s + k) c (omega arith), mod_cases (s + j) c (omega arith))

window-concat :
    (r : Ring) (i n : ℕ) → window r i (suc n) ≡ window r i n ++ (entry_at r (i + n) ∷ [])
unfolding window
window-concat r i zero = rw add-zero
window-concat r i (suc n) =
    let e : (i + 1) + n ≡ i + suc n = omega arith in
    ap (λ w. entry_at r i ∷ w) (rw (window-concat r (i + 1) n) (rw e))

length-window : (r : Ring) (i n : ℕ) → length (window r i n) ≡ n
unfolding window
length-window r i zero = refl
length-window r i (suc n) = ap suc (length-window r (i + 1) n)

pub length-contents : (r : Ring) → length (contents r) ≡ r.len
unfolding contents
length-contents r = length-window r 0 r.len

module _ (r : Ring) (e : Entry) (v : IsRing r) (room : r.len < r.cap) where
  entry_at-append_old : (j : ℕ) → j < r.len → entry_at (append r e) j ≡ entry_at r j
  unfolding entry_at append
  entry_at-append_old j h =
      get_or-set_ne r.buf ((r.start + r.len) % r.cap) ((r.start + j) % r.cap) e zero_entry
        (index_ne r.start j r.len r.cap v.start_in h room)

  entry_at-append_new : entry_at (append r e) r.len ≡ e
  unfolding entry_at append
  entry_at-append_new =
      get_or-set_self r.buf ((r.start + r.len) % r.cap) e zero_entry
        (omega (arith, v.buf_full, mod-lt (r.start + r.len) v.cap_pos))

  window-append : (i n : ℕ) → i + n ≤ r.len → window (append r e) i n ≡ window r i n
  unfolding window
  window-append i zero h = refl
  window-append i (suc n) h =
      cc (entry_at-append_old i (omega arith), window-append (i + 1) n (omega arith))

  contents-append : contents (append r e) ≡ contents r ++ (e ∷ [])
  unfolding contents
  contents-append =
      let grown : (append r e).len ≡ suc r.len = unfold append in omega arith in
      ap (window (append r e) 0) grown
      ∙ window-concat (append r e) 0 r.len
      ∙ ap₂ (λ w x. w ++ (x ∷ [])) (window-append 0 r.len (omega arith))
          (rw zero-add entry_at-append_new)

module _ (r : Ring) (v : IsRing r) (full : r.len ≡ r.cap) where
  abbrev emptied : Ring
  emptied = record r {
    start = (r.start + 1) % r.cap;
    len = r.len - 1;
    dropped = (r.dropped + 1) % u64_mod;
  }

  evict_full : evict r ≡ emptied
  unfolding evict
  evict_full = simp ((==_iff r.len r.cap).1 full)

  entry_at-evict : (j : ℕ) → entry_at emptied j ≡ entry_at r (j + 1)
  unfolding entry_at
  entry_at-evict j =
      let same : r.start + 1 + j ≡ r.start + (j + 1) = omega arith in
      ap (λ i. get_or r.buf i zero_entry)
        (mod-add-mod (r.start + 1) r.cap j ∙ ap (λ i. i % r.cap) same)

  window-evict : (i n : ℕ) → window emptied i n ≡ window r (i + 1) n
  unfolding window
  window-evict i zero = refl
  window-evict i (suc n) = cc (entry_at-evict i, window-evict (i + 1) n)

  contents-evict : contents (evict r) ≡ drop 1 (contents r)
  unfolding contents
  contents-evict =
      let some_entry : r.len ≡ suc (r.len - 1) = omega (arith, v.cap_pos) in
      ap contents evict_full
      ∙ window-evict 0 (r.len - 1)
      ∙ sym (ap (λ n. drop 1 (window r 0 n)) some_entry)

-- Making room keeps the fields in range, and leaves room.
evict-IsRing : (r : Ring) → IsRing r → IsRing (evict r) × ((evict r).len < (evict r).cap)
unfolding evict
evict-IsRing r v = ground (arith, mod-lt (r.start + 1) v.cap_pos)

append-IsRing : (r : Ring) (e : Entry) → IsRing r → r.len < r.cap → IsRing (append r e)
unfolding append
append-IsRing r e v room = record {
  cap_pos = v.cap_pos;
  buf_full = length-set r.buf ((r.start + r.len) % r.cap) e ∙ v.buf_full;
  start_in = v.start_in;
  len_in = omega arith;
}

-- Every push to a well-formed ring keeps the indices in range and the buffer at its capacity.
pub push-IsRing : (r : Ring) (e : Entry) → IsRing r → IsRing (push r e).0
unfolding push
push-IsRing r e v = let (w, room) = evict-IsRing r v in append-IsRing (evict r) e w room

pub new_ring-IsRing : (capacity : ℕ) → IsRing (new_ring capacity)
unfolding new_ring
new_ring-IsRing capacity =
    ground (arith, length-replicate capacity zero_entry, length-replicate 4096 zero_entry)

contents-make_room :
    (r : Ring)
    → IsRing r
    → contents (evict r) ≡ (if r.len == r.cap then drop 1 (contents r) else contents r)
contents-make_room r v = elim (Bool-cases (r.len == r.cap)) [
  | inl full ↦ contents-evict r v ((==_iff r.len r.cap).0 full) ∙ sym (simp full)
  | inr more ↦ ap contents (evict_more more) ∙ sym (simp more)
]
  where
    evict_more : (r.len == r.cap) ≡ false → evict r ≡ r
    evict_more more = unfold evict in simp more

-- A well-formed ring that is full loses its oldest entry, and says so; otherwise nothing is lost.
-- Either way the new entry stands last.
pub contents-push :
    (r : Ring) (e : Entry)
    → IsRing r
    → (contents (push r e).0
        ≡ (if r.len == r.cap then drop 1 (contents r) else contents r) ++ (e ∷ []))
      × ((push r e).1 ≡ (length (contents r) == r.cap))
unfolding push append
contents-push r e v =
    let (w, room) = evict-IsRing r v in
    (
      pushed w room ∙ ap (λ c. c ++ (e ∷ [])) (contents-make_room r v),
      unfold push in rw (length-contents r),
    )
  where
    pushed :
        IsRing (evict r)
        → (evict r).len < (evict r).cap
        → contents (push r e).0 ≡ contents (evict r) ++ (e ∷ [])
    pushed w room = contents-append (evict r) e w room

-- Pushing the lines of a stream one by one.
unfoldable pub push_all : Ring → List Entry → Ring
push_all r [] = r
push_all r (e ∷ es) = push_all (push r e).0 es

pub drop-append_one {ℓ} :
    {A : Type ℓ} (n : ℕ) (xs : List A) (x : A)
    → n ≤ length xs
    → drop n xs ++ (x ∷ []) ≡ drop n (xs ++ (x ∷ []))
drop-append_one zero xs x h = refl
drop-append_one (suc n) [] x h = elim h [ ]
drop-append_one (suc n) (y ∷ xs) x h = drop-append_one n xs x (omega arith)

pub drop_one-drop {ℓ} : {A : Type ℓ} (n : ℕ) (xs : List A) → drop 1 (drop n xs) ≡ drop (suc n) xs
drop_one-drop zero xs = refl
drop_one-drop (suc n) [] = refl
drop_one-drop (suc n) (x ∷ xs) = drop_one-drop n xs

pub push-cap : (r : Ring) (e : Entry) → (push r e).0.cap ≡ r.cap
unfolding push
push-cap r e = ground arith

push-len : (r : Ring) (e : Entry) → IsRing r → (push r e).0.len ≡ min r.cap (suc r.len)
unfolding push
push-len r e v = ground (arith, v.cap_pos, v.len_in)
