-- ===== src/Registration/Nick/Ladder.antt =====
-- internal/registration/nick.go: the rungs of the nick ladder.
use go_bnc.Registration.Nick.{
  cut_to, add_rung, add_underscores, build_nick_ladder, default_nick_len, max_underscore_tries,
}
use go_bnc.Irc.CaseMap.{ascii, fold}
use go_bnc.Base.{
  All, All-append, Bool-cases, Bytes, List, [], arith, false, if◌then◌else◌, inl, inr, leb, length,
  length-append, map, refl, replicate, subst, suc, sym, take, text_eq, text_eq_iff, text_in, true,
  zero, ℕ, ◌++◌, ◌+◌, ◌-◌, ◌<◌, ◌==◌, ◌||◌, ◌∙◌, ◌∷◌, ◌≡◌, ◌≤◌,
}

abbrev pub key_of : Bytes → Bytes
key_of nick = fold ascii nick

-- A nick that a server with this limit takes.
abbrev pub Fits : ℕ → Bytes → Type 0
Fits max_len nick = (0 < length nick) × (length nick ≤ max_len)

-- No two nicks differ in letter case only.
abbrev pub Distinct : List Bytes → Type 0
Distinct [] = Unit
Distinct (n ∷ ns) = (text_in (key_of n) (map key_of ns) ≡ false) × Distinct ns

-- A rung at the end.
text_in-concat :
    (k : Bytes) (ns : List Bytes) (n : Bytes)
    → text_in k (map key_of (ns ++ (n ∷ []))) ≡ (text_in k (map key_of ns) || text_eq k (key_of n))
unfolding text_in
text_in-concat k [] n = ground arith
text_in-concat k (m ∷ ns) n = ground (arith, text_in-concat k ns n)

Distinct-concat :
    (ns : List Bytes) (n : Bytes)
    → Distinct ns
    → text_in (key_of n) (map key_of ns) ≡ false
    → Distinct (ns ++ (n ∷ []))
unfolding text_in
Distinct-concat [] n h new = (refl, tt)
Distinct-concat (m ∷ ns) n (hm, h) new = (
  ground (
    arith,
    text_in-concat (key_of m) ns n,
    text_eq_iff (key_of m) (key_of n),
    text_eq_iff (key_of n) (key_of m),
  ),
  Distinct-concat ns n h (ground arith),
)

record Climbs (max_len : ℕ) (rungs : List Bytes × List Bytes) : Type 0 where
  fits : All (Fits max_len) rungs.0
  distinct : Distinct rungs.0
  seen_lem : (k : Bytes) → text_in k rungs.1 ≡ text_in k (map key_of rungs.0)

length-take-le : (n : ℕ) (xs : Bytes) → (length (take n xs) ≤ n) × (length (take n xs) ≤ length xs)
length-take-le zero xs = omega arith
length-take-le (suc n) [] = omega arith
length-take-le (suc n) (x ∷ xs) = omega (arith, length-take-le n xs)

cut_to-Fits : (max_len c : ℕ) (cs : Bytes) → 0 < max_len → Fits max_len (cut_to max_len (c ∷ cs))
unfolding cut_to
cut_to-Fits zero c cs h = absurd (omega arith)
cut_to-Fits (suc n) c cs h = ground (arith, length-take-le n cs)

-- One more rung, if its key is new.
climb :
    (max_len : ℕ) (out seen : List Bytes) (short : Bytes)
    → Fits max_len short
    → text_in (key_of short) seen ≡ false
    → Climbs max_len (out, seen)
    → Climbs max_len (out ++ (short ∷ []), key_of short ∷ seen)
unfolding text_in
climb max_len out seen short fits_short new climbs = record {
  fits = All-append (Fits max_len) out (short ∷ []) climbs.fits (fits_short, tt);
  distinct = Distinct-concat out short climbs.distinct (sym (climbs.seen_lem (key_of short)) ∙ new);
  seen_lem = λ k. ground (
    arith,
    climbs.seen_lem k,
    text_in-concat k out short,
    text_eq_iff (key_of short) k,
    text_eq_iff k (key_of short),
  );
}

add_rung-Climbs :
    (max_len : ℕ) (rungs : List Bytes × List Bytes) (nick : Bytes)
    → 0 < max_len
    → Climbs max_len rungs
    → Climbs max_len (add_rung max_len rungs nick)
unfolding add_rung text_in
add_rung-Climbs max_len (out, seen) [] h climbs = climbs
add_rung-Climbs max_len (out, seen) (c ∷ cs) h climbs =
    let short = cut_to max_len (c ∷ cs) in
    elim (Bool-cases (text_in (key_of short) seen)) [
      | inl old ↦
          let same : add_rung max_len (out, seen) (c ∷ cs) ≡ (out, seen) = ground arith in
          subst (Climbs max_len) (sym same) climbs
      | inr new ↦
          let same : add_rung max_len (out, seen) (c ∷ cs)
              ≡ (out ++ (short ∷ []), key_of short ∷ seen) =
            ground arith in
          subst (Climbs max_len) (sym same)
            (climb max_len out seen short (cut_to-Fits max_len c cs h) new climbs)
    ]

add_underscores-Climbs :
    (tries i : ℕ) (primary : Bytes) (max_len : ℕ) (rungs : List Bytes × List Bytes)
    → 0 < max_len
    → Climbs max_len rungs
    → Climbs max_len (add_underscores tries i primary max_len rungs)
unfolding add_underscores
add_underscores-Climbs zero i primary max_len rungs h climbs = climbs
add_underscores-Climbs (suc tries) i primary max_len rungs h climbs =
    let nick = cut_to (max_len - i) primary ++ replicate i b'_' in
    elim (leb max_len i)
      as (λ b. Climbs max_len (elim b [
        | true ↦ rungs
        | false ↦ add_underscores tries (i + 1) primary max_len (add_rung max_len rungs nick)
      ])) [
        | true ↦ climbs
        | false ↦
            add_underscores-Climbs tries (i + 1) primary max_len (add_rung max_len rungs nick) h
              (add_rung-Climbs max_len rungs nick h climbs)
      ]

module _ (primary alt : Bytes) (max_len : ℕ) where
  abbrev limit : ℕ
  limit = if max_len == 0 then default_nick_len else max_len

  ladder-Climbs : Climbs limit (
      add_underscores max_underscore_tries 1 primary limit
        (add_rung limit (add_rung limit ([], []) primary) alt))
  unfolding text_in
  ladder-Climbs =
      let positive : 0 < limit = ground arith in
      let ground_level : Climbs limit ([], []) = record {
        fits = tt;
        distinct = tt;
        seen_lem = λ k. refl;
      } in
      add_underscores-Climbs max_underscore_tries 1 primary limit _ positive (
        add_rung-Climbs limit _ alt positive
          (add_rung-Climbs limit ([], []) primary positive ground_level))

-- Each nick of the ladder has at least one byte and at most `maxLen` of them (30, if no length is
-- given), and no two of them differ in ASCII letter case only.
pub build_nick_ladder-Distinct :
    (primary alt : Bytes) (max_len : ℕ)
    → All
        (Fits (if max_len == 0 then default_nick_len else max_len))
        (build_nick_ladder primary alt max_len)
      × Distinct (build_nick_ladder primary alt max_len)
unfolding build_nick_ladder
build_nick_ladder-Distinct primary alt max_len =
    let climbs = ladder-Climbs primary alt max_len in (climbs.fits, climbs.distinct)

length-add_rung :
    (max_len : ℕ) (rungs : List Bytes × List Bytes) (nick : Bytes)
    → length (add_rung max_len rungs nick).0 ≤ length rungs.0 + 1
unfolding add_rung
length-add_rung max_len (out, seen) [] = omega arith
length-add_rung max_len (out, seen) (c ∷ cs) =
    ground (arith, length-append out (cut_to max_len (c ∷ cs) ∷ []))

length-add_underscores :
    (tries i : ℕ) (primary : Bytes) (max_len : ℕ) (rungs : List Bytes × List Bytes)
    → length (add_underscores tries i primary max_len rungs).0 ≤ length rungs.0 + tries
unfolding add_underscores
length-add_underscores zero i primary max_len rungs = omega arith
length-add_underscores (suc tries) i primary max_len rungs =
    let nick = cut_to (max_len - i) primary ++ replicate i b'_' in
    ground (
      arith,
      length-add_rung max_len rungs nick,
      length-add_underscores tries (i + 1) primary max_len (add_rung max_len rungs nick),
    )

pub length-build_nick_ladder :
    (primary alt : Bytes) (max_len : ℕ) → length (build_nick_ladder primary alt max_len) ≤ 22
unfolding build_nick_ladder
length-build_nick_ladder primary alt max_len =
    let len = limit primary alt max_len in
    let one = add_rung len ([], []) primary in
    omega (
      arith,
      length-add_rung len ([], []) primary,
      length-add_rung len one alt,
      length-add_underscores max_underscore_tries 1 primary len (add_rung len one alt),
    )
