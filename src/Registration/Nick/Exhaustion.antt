-- ===== src/Registration/Nick/Exhaustion.antt =====
-- internal/registration/nick.go: refused nicks use the ladder up.
use go_bnc.Registration.Nick.{behind_match, next_nick_in_ladder}
use go_bnc.Irc.CaseMap.{CaseMapping, equal, fold}
use go_bnc.Base.{
  Bytes, List, Option-cases, [], arith, get_or, inl, inr, length, some, subst, text_eq_refl, ℕ, ◌+◌,
  ◌<◌, ◌∷◌, ◌≡◌, ◌≤◌,
}

-- The part of the ladder behind the last match is shorter than the ladder.
length-behind_match :
    (cm : CaseMapping) (last bad : Bytes) (ladder : List Bytes) (rest : List Bytes)
    → behind_match cm last bad ladder ≡ some rest
    → length rest < length ladder
unfolding behind_match
length-behind_match cm last bad [] rest h = cc
length-behind_match cm last bad (n ∷ ns) rest h =
    elim (Option-cases (behind_match cm last bad ns)) [
      | inl e ↦ ground arith
      | inr (r, e) ↦ ground (arith, length-behind_match cm last bad ns r e)
    ]

-- A nick that stands in the ladder matches itself, or something behind it matches.
unfoldable pub Behind : CaseMapping → Bytes → List Bytes → ℕ → Type 0
Behind cm nick ladder k =
    (bad : Bytes) → (r : List Bytes) × (behind_match cm nick bad ladder ≡ some r) × (length r ≤ k)

Behind-head : (cm : CaseMapping) (n : Bytes) (ns : List Bytes) → Behind cm n (n ∷ ns) (length ns)
unfolding Behind behind_match equal
Behind-head cm n ns bad = elim (Option-cases (behind_match cm n bad ns)) [
  | inl e ↦ (ns, ground (arith, text_eq_refl (fold cm n)), omega arith)
  | inr (r, e) ↦ (r, ground arith, omega (arith, length-behind_match cm n bad ns r e))
]

Behind-tail :
    (cm : CaseMapping) (nick m : Bytes) (ns : List Bytes) (k : ℕ)
    → Behind cm nick ns k
    → Behind cm nick (m ∷ ns) k
unfolding Behind behind_match
Behind-tail cm nick m ns k behind bad = let (r, e, le) = behind bad in (r, ground arith, le)

-- The rung behind a match: from it, fewer rungs are left.
Behind-next :
    (cm : CaseMapping) (last bad : Bytes) (ladder : List Bytes) (n : Bytes) (ns : List Bytes)
    → behind_match cm last bad ladder ≡ some (n ∷ ns)
    → Behind cm n ladder (length ns)
unfolding behind_match
Behind-next cm last bad [] n ns h = cc
Behind-next cm last bad (m ∷ ms) n ns h = elim (Option-cases (behind_match cm last bad ms)) [
  | inl e ↦
      let same : n ∷ ns ≡ ms = ground arith in
      Behind-tail cm n m ms (length ns)
        (subst (λ l. Behind cm n l (length ns)) same (Behind-head cm n ns))
  | inr (r, e) ↦ Behind-tail cm n m ms (length ns) (Behind-next cm last bad ms n ns (ground arith))
]

-- The next nick, from a nick of the ladder and from any other.
pub next-Behind :
    (cm : CaseMapping) (ladder : List Bytes) (last bad : Bytes) (k c : ℕ) (cs : Bytes)
    → Behind cm last ladder k
    → next_nick_in_ladder ladder last bad cm ≡ c ∷ cs
    → (j : ℕ) × Behind cm (c ∷ cs) ladder j × (j < k)
unfolding next_nick_in_ladder Behind
next-Behind cm ladder last bad k c cs behind e = go (behind bad).0 (behind bad).1 (behind bad).2
  where
    go :
        (r : List Bytes)
        → behind_match cm last bad ladder ≡ some r
        → length r ≤ k
        → (j : ℕ) × Behind cm (c ∷ cs) ladder j × (j < k)
    go [] found le = absurd (ground arith)
    go (n ∷ ns) found le =
        let same : n ≡ c ∷ cs = ground arith in
        (
          length ns,
          subst (λ m. Behind cm m ladder (length ns)) same
              (Behind-next cm last bad ladder n ns found),
          omega arith,
        )

pub first-Behind :
    (cm : CaseMapping) (ladder : List Bytes) (last bad : Bytes) (c : ℕ) (cs : Bytes)
    → next_nick_in_ladder ladder last bad cm ≡ c ∷ cs
    → (j : ℕ) × Behind cm (c ∷ cs) ladder j × (j + 1 < length ladder)
unfolding next_nick_in_ladder
first-Behind cm ladder last bad c cs e = elim (Option-cases (behind_match cm last bad ladder)) [
  | inl none_left ↦ second ladder (ground arith)
  | inr (r, found) ↦ go r found
]
  where
    second :
        (l : List Bytes)
        → get_or l 1 [] ≡ c ∷ cs
        → (j : ℕ) × Behind cm (c ∷ cs) l j × (j + 1 < length l)
    second [] h = absurd (ground arith)
    second (a ∷ []) h = absurd (ground arith)
    second (a ∷ n ∷ ns) h = (
      length ns,
      subst (λ m. Behind cm m (a ∷ n ∷ ns) (length ns)) h
          (Behind-tail cm n a (n ∷ ns) (length ns) (Behind-head cm n ns)),
      omega arith,
    )

    go :
        (r : List Bytes)
        → behind_match cm last bad ladder ≡ some r
        → (j : ℕ) × Behind cm (c ∷ cs) ladder j × (j + 1 < length ladder)
    go [] found = absurd (ground arith)
    go (n ∷ ns) found =
        let same : n ≡ c ∷ cs = ground arith in
        (
          length ns,
          subst (λ m. Behind cm m ladder (length ns)) same
              (Behind-next cm last bad ladder n ns found),
          omega (arith, length-behind_match cm last bad ladder (n ∷ ns) found),
        )
