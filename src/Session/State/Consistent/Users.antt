-- ===== src/Session/State/Consistent/Users.antt =====
-- internal/session/user.go: the invariant under the operations on users.
use go_bnc.Session.State.{User, fresh_user, SessionState, key_of, user_at, put_user, self_nick}
use go_bnc.Session.State.Users.{rename_at, ensure_known}
use go_bnc.Irc.CaseMap.{fold, equal, CaseMapping}
use go_bnc.Irc.Isupport.{Isupport}
use go_bnc.Session.State.Consistent.{
  nick_at, Keyed, IsConsistent, Grows, Serves, Serves-trans, put_user-Serves,
}
use go_bnc.Base.{
  Bool-cases, Bytes, List, Option-cases, [], ap, arith, byte_key, get_or, get_or-set_self, inl, inr,
  insert, length, length-append, length-set, lookup, lookup-insert, refl, some, subst, suc, sym,
  text_eq, text_eq_iff, text_eq_refl, text_key, zero, ℕ, ◌++◌, ◌<◌, ◌∙◌, ◌∷◌, ◌≡◌,
}

-- What `ensureUserLocked` promises of its result.
pub record Found (s s' : SessionState) (nick : Bytes) (r : ℕ) : Type 0 where
  pub serves : Serves s s'
  pub there : r < length s'.heap
  pub named : nick_at s'.heap r ≡ nick
  pub entry : lookup (fold s.isupport.case_mapping nick) s'.users ≡ some r

pub Grows-insert : (users : List (Bytes × ℕ)) (k : Bytes) (r : ℕ) → Grows users (insert k r users)
Grows-insert users k r m h = ground (arith, lookup-insert k m r users)

-- One more entry, for a user whose nick folds to the key.
pub Keyed-insert :
    (cm : CaseMapping) (users : List (Bytes × ℕ)) (heap : List User) (k : Bytes) (r : ℕ)
    → r < length heap
    → fold cm (nick_at heap r) ≡ k
    → Keyed cm users heap
    → Keyed cm (insert k r users) heap
Keyed-insert cm users heap k r in_heap folded keyed j q found = elim (Bool-cases (text_eq k j)) [
  | inl e ↦
      let same : k ≡ j = ground (arith, text_eq_iff k j) in
      let same_user : r ≡ q = ground (arith, lookup-insert k j r users) in
      (
        subst (λ x. x < length heap) same_user in_heap,
        subst (λ x. fold cm (nick_at heap x) ≡ j) same_user (folded ∙ same),
      )
  | inr ne ↦ keyed j q (ground (arith, lookup-insert k j r users))
]

get_or-append :
    (heap : List User) (u d : User) (r : ℕ)
    → r < length heap
    → get_or (heap ++ (u ∷ [])) r d ≡ get_or heap r d
get_or-append [] u d r h = absurd (omega arith)
get_or-append (v ∷ heap) u d zero h = refl
get_or-append (v ∷ heap) u d (suc r) h = get_or-append heap u d r (omega arith)

get_or-concat : (heap : List User) (u d : User) → get_or (heap ++ (u ∷ [])) (length heap) d ≡ u
get_or-concat [] u d = refl
get_or-concat (v ∷ heap) u d = get_or-concat heap u d

Keyed-append :
    (cm : CaseMapping) (users : List (Bytes × ℕ)) (heap : List User) (u : User)
    → Keyed cm users heap
    → Keyed cm users (heap ++ (u ∷ []))
Keyed-append cm users heap u keyed k r found =
    let (in_heap, folded) = keyed k r found in
    (
      omega (arith, length-append heap (u ∷ [])),
      ap (λ (v : User). fold cm v.nick) (get_or-append heap u (fresh_user []) r in_heap) ∙ folded,
    )

-- A nick that folds to the same key as before.
rename_at-Found :
    (s : SessionState) (r : ℕ) (nick : Bytes)
    → Keyed s.isupport.case_mapping s.users s.heap
    → r < length s.heap
    → fold s.isupport.case_mapping nick ≡ fold s.isupport.case_mapping (nick_at s.heap r)
    → lookup (fold s.isupport.case_mapping nick) s.users ≡ some r
    → Found s (rename_at s r nick) nick r
unfolding rename_at put_user user_at
rename_at-Found s r nick keyed in_heap same found = record {
  serves = put_user-Serves s r (record (user_at s r) { nick = nick }) (λ h. same) keyed;
  there = omega (arith, length-set s.heap r (record (user_at s r) { nick = nick }));
  named =
      ap (λ (v : User). v.nick)
        (get_or-set_self s.heap r (record (user_at s r) { nick = nick }) (fresh_user []) in_heap);
  entry = found;
}

Found-after :
    {s t u : SessionState} {nick : Bytes} {r : ℕ} → Serves s t → Found t u nick r → Found s u nick r
Found-after {s} {t} {u} {nick} {r} first found = record {
  serves = Serves-trans first found.serves;
  there = found.there;
  named = found.named;
  entry =
      subst (λ (i : Isupport). lookup (fold i.case_mapping nick) u.users ≡ some r)
        first.same_support found.entry;
}

insert-Serves :
    (s : SessionState) (k : Bytes) (r : ℕ)
    → IsConsistent s
    → r < length s.heap
    → fold s.isupport.case_mapping (nick_at s.heap r) ≡ k
    → Serves s (record s { users = insert k r s.users })
insert-Serves s k r good in_heap folded = record {
  same_channels = refl;
  same_support = refl;
  same_self = refl;
  keyed_still = Keyed-insert s.isupport.case_mapping s.users s.heap k r in_heap folded good.keyed;
  grows = Grows-insert s.users k r;
  longer = omega arith;
}

module _ (s : SessionState) (nick : Bytes) (good : IsConsistent s) where
  new-Found :
      Found s
        (record s {
          users = insert (fold s.isupport.case_mapping nick) (length s.heap) s.users;
          heap = s.heap ++ (fresh_user nick ∷ []);
        })
        nick
        (length s.heap)
  new-Found =
      let k = fold s.isupport.case_mapping nick in
      let named = get_or-concat s.heap (fresh_user nick) (fresh_user []) in
      let n = length-append s.heap (fresh_user nick ∷ []) in
      let nick_named : nick_at (s.heap ++ (fresh_user nick ∷ [])) (length s.heap) ≡ nick =
        ap (λ (v : User). v.nick) named ∙ unfold fresh_user in refl in
      record {
        serves = record {
          same_channels = refl;
          same_support = refl;
          same_self = refl;
          keyed_still =
              Keyed-insert s.isupport.case_mapping s.users (s.heap ++ (fresh_user nick ∷ [])) k
                (length s.heap) (omega arith) (ap (fold s.isupport.case_mapping) nick_named)
                (Keyed-append s.isupport.case_mapping s.users s.heap (fresh_user nick) good.keyed);
          grows = Grows-insert s.users k (length s.heap);
          longer = omega arith;
        };
        there = omega arith;
        named = nick_named;
        entry = ground (arith, lookup-insert k k (length s.heap) s.users, text_eq_refl k);
      }

  pub ensure_known-Found : Found s (ensure_known s nick).0 nick (ensure_known s nick).1
  unfolding ensure_known key_of
  ensure_known-Found =
      let cm = s.isupport.case_mapping in
      let k = fold cm nick in
      let at : SessionState × ℕ → Type 0 = λ p. Found s p.0 nick p.1 in
      elim (Option-cases (lookup k s.users)) [
        | inr (r, e) ↦
            let (in_heap, folded) = good.keyed k r e in
            let same : ensure_known s nick ≡ (rename_at s r nick, r) = ground arith in
            subst at (sym same) (rename_at-Found s r nick good.keyed in_heap (sym folded) e)
        | inl e ↦ elim (Bool-cases (equal cm nick (self_nick s))) [
          | inl mine ↦
              let folded : fold cm (nick_at s.heap s.self) ≡ k =
                unfold equal self_nick user_at in sym ((text_eq_iff _ _).0 mine) in
              let t : SessionState = record s { users = insert k s.self s.users } in
              let serves : Serves s t = insert-Serves s k s.self good good.self_there folded in
              let same : ensure_known s nick ≡ (rename_at t s.self nick, s.self) = ground arith in
              subst at (sym same) (
                Found-after serves (
                  rename_at-Found t s.self nick serves.keyed_still good.self_there (sym folded)
                    (ground (arith, lookup-insert k k s.self s.users, text_eq_refl k))))
          | inr other ↦
              let same : ensure_known s nick ≡ (
                record s {
                  users = insert k (length s.heap) s.users;
                  heap = s.heap ++ (fresh_user nick ∷ []);
                },
                length s.heap,
              ) =
                ground arith in
              subst at (sym same) new-Found
        ]
      ]
