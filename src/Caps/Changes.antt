-- ===== src/Caps/Changes.antt =====
-- internal/caps/caps.go: what CAP NEW and CAP DEL tell a client when the uplink's capabilities
-- change.
use go_bnc.Caps.{
  without_values, diff, not_in, offered, enabled, always_offer, uplink_offer, cap_name,
}
use go_bnc.Base.{
  Bool, Bool-cases, Bytes, List, [], arith, false, inl, inr, not, refl, set, subst, sym, text_eq,
  text_eq_iff, text_eq_refl, text_in, true, ◌&&◌, ◌++◌, ◌||◌, ◌∷◌, ◌≡◌,
}

-- The name is among the capabilities, their values left aside.
abbrev pub has_name : Bytes → List Bytes → Bool
has_name n caps = text_in n (without_values caps)

not_in-name :
    (n : Bytes) (set after : List Bytes)
    → has_name n (not_in set after) ≡ (has_name n after && not (text_in n set))
unfolding not_in without_values text_in
not_in-name n set [] = refl
not_in-name n set (c ∷ cs) = elim (Bool-cases (text_eq n (cap_name c))) [
  | inl same ↦
      let e : n ≡ cap_name c = (text_eq_iff n (cap_name c)).0 same in
      subst (λ m. has_name m (not_in set (c ∷ cs)) ≡ (has_name m (c ∷ cs) && not (text_in m set)))
        (sym e) (ground (arith, not_in-name (cap_name c) set cs, text_eq_refl (cap_name c)))
  | inr other ↦ ground (arith, not_in-name n set cs)
]

diff-name :
    (n : Bytes) (before after : List Bytes)
    → has_name n (diff before after) ≡ (has_name n after && not (has_name n before))
unfolding diff
diff-name n before after = not_in-name n (without_values before) after

-- The names of one list of capabilities, with those that `Diff` finds new and without those that it
-- finds gone, are exactly the names of the other list.
pub diff_synchronises :
    (n : Bytes) (before after : List Bytes)
    → ((has_name n before || has_name n (diff before after))
        && not (has_name n (diff after before)))
      ≡ has_name n after
diff_synchronises n before after =
    ground (arith, diff-name n before after, diff-name n after before)

in-append : (n : Bytes) (xs ys : List Bytes) → has_name n xs ≡ true → has_name n (xs ++ ys) ≡ true
unfolding without_values text_in
in-append n [] ys h = ground arith
in-append n (x ∷ xs) ys h = ground (arith, in-append n xs ys)

-- Whatever becomes of the uplink's capabilities, one that is always offered is never reported as
-- gone.
pub always_offer-stays :
    (n : Bytes) (old new : Bytes → Bool)
    → has_name n always_offer ≡ true
    → has_name n (diff (offered new) (offered old)) ≡ false
unfolding offered
always_offer-stays n old new h = ground (
  arith,
  diff-name n (offered new) (offered old),
  in-append n always_offer (enabled new uplink_offer) h,
)
