-- ===== src/Keeper/Ring/Since.antt =====
-- internal/keeper/ring.go: what a reader that resumes gets.
use go_bnc.Base.{
  Bool-cases, List, Option, [], ap, append-nil, append_assoc, arith, drop, false, get_or,
  if◌then◌else◌, inl, inr, length, length-append, ltb, none, not, refl, some, suc, sym, true, zero,
  ℕ, ◌%◌, ◌&&◌, ◌++◌, ◌+◌, ◌-◌, ◌<◌, ◌==◌, ◌∙◌, ◌∷◌, ◌≡◌, ◌≤◌,
}
use native.Mathlib.Nat.{mod-eq_of_lt, zero-add, suc-add, add-zero, add-suc}
use go_bnc.Keeper.Ring.{
  Entry, Ring, zero_entry, u64_mod, new_ring, push, entry_at, since_loop, since,
}
use go_bnc.Keeper.Ring.Window.{
  IsRing, window, contents, length-contents, push-IsRing, new_ring-IsRing, contents-push, push_all,
  drop-append_one, drop_one-drop, push-cap,
}

length-drop {ℓ} : {A : Type ℓ} (n : ℕ) (xs : List A) → length (drop n xs) ≡ length xs - n
length-drop zero xs = omega arith
length-drop (suc n) [] = omega arith
length-drop (suc n) (x ∷ xs) = omega (arith, length-drop n xs)

drop-nil {ℓ} : {A : Type ℓ} (n : ℕ) → drop {A = A} n [] ≡ []
drop-nil zero = refl
drop-nil (suc n) = refl

drop-drop {ℓ} : {A : Type ℓ} (m n : ℕ) (xs : List A) → drop m (drop n xs) ≡ drop (n + m) xs
drop-drop m zero xs = rw zero-add
drop-drop m (suc n) [] = rw suc-add (drop-nil m)
drop-drop m (suc n) (x ∷ xs) = rw suc-add (drop-drop m n xs)

-- One more line behind those seen: the window moves on.
window_moves :
    (r : Ring) (e : Entry) (seen : List Entry)
    → IsRing r
    → contents r ≡ drop (length seen - r.cap) seen
    → contents (push r e).0 ≡ drop (length (seen ++ (e ∷ [])) - r.cap) (seen ++ (e ∷ []))
window_moves r e seen v h =
    let held : r.len ≡ length seen - (length seen - r.cap) =
      sym (length-contents r) ∙ ap length h ∙ length-drop (length seen - r.cap) seen in
    let grown : length (seen ++ (e ∷ [])) ≡ suc (length seen) =
      length-append seen (e ∷ []) ∙ omega arith in
    (contents-push r e v).0 ∙ elim (Bool-cases (r.len == r.cap)) [
      | inl full ↦
          let n : length (seen ++ (e ∷ [])) - r.cap ≡ suc (length seen - r.cap) =
            ground (arith, v.cap_pos) in
          rw (full, h, n)
            (ap (λ xs. xs ++ (e ∷ [])) (drop_one-drop (length seen - r.cap) seen)
              ∙ drop-append_one (suc (length seen - r.cap)) seen e (ground (arith, v.cap_pos)))
      | inr more ↦
          let n : length (seen ++ (e ∷ [])) - r.cap ≡ length seen - r.cap =
            ground (arith, v.len_in) in
          rw (more, h, n) (drop-append_one (length seen - r.cap) seen e (omega arith))
    ]

contents-push_all_from :
    (es seen : List Entry) (r : Ring)
    → IsRing r
    → contents r ≡ drop (length seen - r.cap) seen
    → contents (push_all r es) ≡ drop (length (seen ++ es) - r.cap) (seen ++ es)
unfolding push_all
contents-push_all_from [] seen r v h = rw append-nil h
contents-push_all_from (e ∷ es) seen r v h =
    let step : contents (push r e).0
        ≡ drop (length (seen ++ (e ∷ [])) - (push r e).0.cap) (seen ++ (e ∷ [])) =
      rw push-cap (window_moves r e seen v h) in
    let later =
      contents-push_all_from es (seen ++ (e ∷ [])) (push r e).0 (push-IsRing r e v) step in
    rw append_assoc at (rw push-cap at later)

contents-new_ring : (capacity : ℕ) → contents (new_ring capacity) ≡ []
unfolding contents new_ring
contents-new_ring capacity = refl

-- After any stream of lines the ring holds exactly the last lines, as many as its capacity
-- allows, in order.
pub contents-push_all :
    (capacity : ℕ) (es : List Entry)
    → contents (push_all (new_ring capacity) es) ≡ drop (length es - (new_ring capacity).cap) es
contents-push_all capacity es =
    contents-push_all_from es [] (new_ring capacity) (new_ring-IsRing capacity)
      (contents-new_ring capacity ∙ sym (drop-nil (0 - (new_ring capacity).cap)))

-- The entries behind a sequence number.
newer : ℕ → List Entry → List Entry
newer k [] = []
newer k (e ∷ es) = if ltb k e.seq then e ∷ newer k es else newer k es

since_loop-window : (r : Ring) (k i n : ℕ) → since_loop r k i n ≡ newer k (window r i n)
unfolding since_loop window newer
since_loop-window r k i zero = refl
since_loop-window r k i (suc n) = rw (since_loop-window r k (i + 1) n)

-- `since` on the abstract view.
since_contents : ℕ → List Entry → Option (List Entry)
since_contents k [] = some []
since_contents k (e ∷ es) =
    if ltb ((k + 1) % u64_mod) e.seq && not (k == 0) then none else some (newer k (e ∷ es))

-- `since` at a given number of entries.
abbrev since_at : Ring → ℕ → ℕ → Option (List Entry)
since_at r k n =
    if n == 0
    then some []
    else if ltb ((k + 1) % u64_mod) (get_or r.buf r.start zero_entry).seq && not (k == 0)
    then none
    else some (since_loop r k 0 n)

oldest_entry : (r : Ring) → IsRing r → get_or r.buf r.start zero_entry ≡ entry_at r 0
unfolding entry_at
oldest_entry r v = ap (λ i. get_or r.buf i zero_entry) (sym (rw add-zero (mod-eq_of_lt v.start_in)))

since_at-contents :
    (r : Ring) (k n : ℕ) → IsRing r → since_at r k n ≡ since_contents k (window r 0 n)
since_at-contents r k zero v = unfold window since_contents in refl
since_at-contents r k (suc n) v =
    let some_entry : (suc n == 0) ≡ false = ground arith in
    rw (some_entry, oldest_entry r v, since_loop-window r k 0 (suc n))
      (unfold window since_contents in refl)

since-contents : (r : Ring) (k : ℕ) → IsRing r → since r k ≡ since_contents k (contents r)
unfolding since contents
since-contents r k v = since_at-contents r k r.len v

-- The lines of a stream carry the numbers behind `n`, in order: `Keeper.nextSeq`.
abbrev pub Numbered : ℕ → List Entry → Type 0
Numbered n [] = Unit
Numbered n (e ∷ es) = (e.seq ≡ suc n) × Numbered (suc n) es

Numbered-drop : (j n : ℕ) (es : List Entry) → Numbered n es → Numbered (n + j) (drop j es)
Numbered-drop zero n es h = rw add-zero h
Numbered-drop (suc j) n [] h = tt
Numbered-drop (suc j) n (e ∷ es) h = rw (add-suc, ← suc-add) (Numbered-drop j (suc n) es h.1)

-- Behind a number that the stream has passed, `newer` is a suffix.
newer-Numbered : (k n : ℕ) (es : List Entry) → Numbered n es → newer k es ≡ drop (k - n) es
unfolding newer
newer-Numbered k n [] h = sym (drop-nil (k - n))
newer-Numbered k n (e ∷ es) h =
    let ih = newer-Numbered k (suc n) es h.1 in
    elim (Bool-cases (ltb k e.seq)) [
      | inl new ↦
          let a : k - suc n ≡ 0 = ground arith in
          let b : k - n ≡ 0 = ground arith in rw (new, ih, a, b)
      | inr old ↦ let b : k - n ≡ suc (k - suc n) = ground arith in rw (old, ih, b)
    ]

-- The window's first line, if it has one.
since_contents-Numbered :
    (k n : ℕ) (es : List Entry)
    → Numbered n es
    → k + 1 < u64_mod
    → since_contents k es
      ≡ (if ltb k n && not (k == 0) && ltb 0 (length es) then none else some (drop (k - n) es))
unfolding since_contents
since_contents-Numbered k n [] h b = ground (arith, drop-nil {A = Entry} (k - n))
since_contents-Numbered k n (e ∷ es) h b =
    let small : (k + 1) % u64_mod ≡ k + 1 = mod-eq_of_lt b in
    rw (small, newer-Numbered k n (e ∷ es) h) (ground arith)

push_all-IsRing : (es : List Entry) (r : Ring) → IsRing r → IsRing (push_all r es)
unfolding push_all
push_all-IsRing [] r v = v
push_all-IsRing (e ∷ es) r v = push_all-IsRing es (push r e).0 (push-IsRing r e v)

module _ (capacity : ℕ) (es : List Entry) (k : ℕ) (numbered : Numbered 0 es)
    (in_range : length es + 1 < u64_mod) where
  abbrev ring : Ring
  ring = push_all (new_ring capacity) es

  abbrev cap : ℕ
  cap = (new_ring capacity).cap

  abbrev gone : ℕ
  gone = length es - cap

  since_stream :
      k + 1 < u64_mod
      → since ring k ≡ (
          if ltb k gone && not (k == 0) && ltb 0 (length (drop gone es))
          then none
          else some (drop (k - gone) (drop gone es)))
  since_stream b =
      since-contents ring k (push_all-IsRing es (new_ring capacity) (new_ring-IsRing capacity))
      ∙ ap (since_contents k) (contents-push_all capacity es)
      ∙ since_contents-Numbered k gone (drop gone es)
          (rw zero-add at (Numbered-drop gone 0 es numbered)) b

  -- For a stream of fewer than 2 ^ 64 - 1 lines, numbered from 1 and pushed into a new ring: a
  -- reader that has seen `k` of them, of which the ring still holds every later one, gets exactly
  -- the lines that it has not seen, in order.
  pub since_recovers : k ≤ length es → length es ≤ k + cap → since ring k ≡ some (drop k es)
  since_recovers seen kept =
      let fresh : ltb k gone ≡ false = ground arith in
      let same : gone + (k - gone) ≡ k = omega arith in
      since_stream (omega arith)
      ∙ rw fresh (ap some (drop-drop (k - gone) gone es ∙ ap (λ n. drop n es) same))

  -- For a stream of fewer than 2 ^ 64 - 1 lines, numbered from 1 and pushed into a new ring: a
  -- reader that has seen at least one line, and misses a later one that is evicted, is told of
  -- the gap.
  pub since_gap : 0 < k → k + cap < length es → since ring k ≡ none
  since_gap some_seen evicted =
      let stale : ltb k gone ≡ true = ground arith in
      let not_all : (k == 0) ≡ false = ground arith in
      let held : ltb 0 (length (drop gone es)) ≡ true =
        ground (arith, length-drop gone es, (new_ring-IsRing capacity).cap_pos) in
      since_stream (omega arith) ∙ rw (stale, not_all, held)
