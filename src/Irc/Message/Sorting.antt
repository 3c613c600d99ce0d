-- ===== src/Irc/Message/Sorting.antt =====
-- internal/irc/message.go: `sortStrings` keeps the keys that it is given.
use go_bnc.Base.{
  All, Bool-cases, Bytes, List, [], arith, inl, inr, refl, text_in, text_lt, ◌||◌, ◌∷◌, ◌≡◌,
}
use go_bnc.Irc.Message.Encode.{sink, sort_loop, sort_strings, reverse_onto}

module _ {κ} (P : Bytes → Type κ) where
  sink-All : (x : Bytes) (ys : List Bytes) → P x → All P ys → All P (sink x ys)
  unfolding sink
  sink-All x [] h k = (h, tt)
  sink-All x (y ∷ ys) h k = elim (Bool-cases (text_lt x y)) [
    | inl less ↦ rw less (k.0, sink-All x ys h k.1)
    | inr more ↦ rw more (h, (k.0, k.1))
  ]

  sort_loop-All : (acc xs : List Bytes) → All P acc → All P xs → All P (sort_loop acc xs)
  unfolding sort_loop
  sort_loop-All acc [] h k = h
  sort_loop-All acc (x ∷ xs) h k = sort_loop-All (sink x acc) xs (sink-All x acc k.0 h) k.1

  reverse_onto-All : (acc xs : List Bytes) → All P acc → All P xs → All P (reverse_onto acc xs)
  reverse_onto-All acc [] h k = h
  reverse_onto-All acc (x ∷ xs) h k = reverse_onto-All (x ∷ acc) xs (k.0, h) k.1

  pub sort_strings-All : (xs : List Bytes) → All P xs → All P (sort_strings xs)
  unfolding sort_strings
  sort_strings-All xs h = reverse_onto-All [] (sort_loop [] xs) tt (sort_loop-All [] xs tt h)

module _ (j : Bytes) where
  text_in-sink : (x : Bytes) (ys : List Bytes) → text_in j (sink x ys) ≡ text_in j (x ∷ ys)
  unfolding sink text_in
  text_in-sink x [] = refl
  text_in-sink x (y ∷ ys) = ground (arith, text_in-sink x ys)

  text_in-sort_loop :
      (acc xs : List Bytes) → text_in j (sort_loop acc xs) ≡ (text_in j acc || text_in j xs)
  unfolding sort_loop text_in
  text_in-sort_loop acc [] = ground arith
  text_in-sort_loop acc (x ∷ xs) =
      ground (arith, text_in-sort_loop (sink x acc) xs, text_in-sink x acc)

  text_in-reverse_onto :
      (acc xs : List Bytes) → text_in j (reverse_onto acc xs) ≡ (text_in j acc || text_in j xs)
  unfolding text_in
  text_in-reverse_onto acc [] = ground arith
  text_in-reverse_onto acc (x ∷ xs) = ground (arith, text_in-reverse_onto (x ∷ acc) xs)

  -- Sorting loses no key and adds none.
  pub text_in-sort_strings : (xs : List Bytes) → text_in j (sort_strings xs) ≡ text_in j xs
  unfolding sort_strings text_in
  text_in-sort_strings xs =
      ground (arith, text_in-reverse_onto [] (sort_loop [] xs), text_in-sort_loop [] xs)

sink-ne-nil : (x : Bytes) (ys : List Bytes) → (y : Bytes) × (zs : List Bytes) × (sink x ys ≡ y ∷ zs)
unfolding sink
sink-ne-nil x [] = (x, [], refl)
sink-ne-nil x (y ∷ ys) = elim (Bool-cases (text_lt x y)) [
  | inl less ↦ (y, sink x ys, rw less)
  | inr more ↦ (x, y ∷ ys, rw more)
]

reverse_onto-cons :
    (y : Bytes) (ys zs : List Bytes)
    → (x : Bytes) × (xs : List Bytes) × (reverse_onto (y ∷ ys) zs ≡ x ∷ xs)
reverse_onto-cons y ys [] = (y, ys, refl)
reverse_onto-cons y ys (z ∷ zs) = reverse_onto-cons z (y ∷ ys) zs

sort_loop-cons :
    (y : Bytes) (ys xs : List Bytes)
    → (x : Bytes) × (rest : List Bytes) × (sort_loop (y ∷ ys) xs ≡ x ∷ rest)
unfolding sort_loop
sort_loop-cons y ys [] = (y, ys, refl)
sort_loop-cons y ys (x ∷ xs) =
    let (a, as_, e) = sink-ne-nil x (y ∷ ys) in rw e (sort_loop-cons a as_ xs)

pub sort_strings-cons :
    (x : Bytes) (xs : List Bytes)
    → (y : Bytes) × (ys : List Bytes) × (sort_strings (x ∷ xs) ≡ y ∷ ys)
unfolding sort_strings sort_loop sink
sort_strings-cons x xs =
    let (a, rest, e) = sort_loop-cons x [] xs in rw e (reverse_onto-cons a [] rest)
