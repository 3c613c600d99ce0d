-- ===== src/Session/State/Consistent/Served.antt =====
-- internal/session/user.go: the invariant under a write to a user, and the users that the
-- operations return.
use go_bnc.Session.State.Consistent.Users.{Found, ensure_known-Found}
use go_bnc.Session.State.{User, fresh_user, SessionState, key_of, user_at, put_user}
use go_bnc.Session.State.Users.{
  split_userhost, ensure_known, ensure_user, set_identity, touch_parts, touch_user,
}
use go_bnc.Irc.Message.{contains_byte}
use go_bnc.Irc.CaseMap.{fold}
use go_bnc.Irc.Isupport.{Isupport}
use go_bnc.Session.State.Consistent.{
  IsConsistent, Serves, Serves-trans, put_user-Serves, Serves-IsConsistent,
}
use go_bnc.Base.{
  Bool-cases, Bytes, Option, [], ap, arith, byte_key, get_or-set_self, inl, inr, length, length-set,
  lookup, none, refl, some, subst, sym, text_key, ℕ, ◌<◌, ◌∙◌, ◌∷◌, ◌≡◌,
}

-- A write that keeps the nick.
pub edit-Serves :
    (s : SessionState) (r : ℕ) (u : User)
    → IsConsistent s
    → u.nick ≡ (user_at s r).nick
    → Serves s (put_user s r u)
edit-Serves s r u good same =
    put_user-Serves s r u (λ h. ap (fold s.isupport.case_mapping) same) good.keyed

pub edit-IsConsistent :
    (s : SessionState) (r : ℕ) (u : User)
    → IsConsistent s
    → u.nick ≡ (user_at s r).nick
    → IsConsistent (put_user s r u)
edit-IsConsistent s r u good same = Serves-IsConsistent good (edit-Serves s r u good same)

-- A user that is there, under its own key.
pub record Shown (s : SessionState) (r : ℕ) : Type 0 where
  pub shown_there : r < length s.heap
  pub shown_entry : lookup (key_of s (user_at s r).nick) s.users ≡ some r

pub Found-Shown : {s s' : SessionState} {nick : Bytes} {r : ℕ} → Found s s' nick r → Shown s' r
unfolding key_of user_at
Found-Shown {s} {s'} {nick} {r} found = record {
  shown_there = found.there;
  shown_entry =
      ap (λ n. lookup (fold s'.isupport.case_mapping n) s'.users) found.named
      ∙ ap (λ (i : Isupport). lookup (fold i.case_mapping nick) s'.users) found.serves.same_support
      ∙ found.entry;
}

pub edit-Shown :
    (s : SessionState) (r : ℕ) (u : User)
    → u.nick ≡ (user_at s r).nick
    → Shown s r
    → Shown (put_user s r u) r
unfolding put_user user_at key_of
edit-Shown s r u same shown = record {
  shown_there = ground (arith, shown.shown_there, length-set s.heap r u);
  shown_entry =
      ap (λ (v : User). lookup (fold s.isupport.case_mapping v.nick) s.users)
        (get_or-set_self s.heap r u (fresh_user []) shown.shown_there)
      ∙ ap (λ n. lookup (fold s.isupport.case_mapping n) s.users) same
      ∙ shown.shown_entry;
}

-- A user that an operation returns, if it returns one.
abbrev pub Served : SessionState → SessionState × Option ℕ → Type 0
Served s (s', none) = Serves s s'
Served s (s', some r) = Serves s s' × Shown s' r

pub Serves-refl : (s : SessionState) → IsConsistent s → Serves s s
Serves-refl s good = record {
  same_channels = refl;
  same_support = refl;
  same_self = refl;
  keyed_still = good.keyed;
  grows = λ m h. h;
  longer = omega arith;
}

pub ensure_user-Served :
    (s : SessionState) (nick : Bytes) → IsConsistent s → Served s (ensure_user s nick)
unfolding ensure_user
ensure_user-Served s [] good = Serves-refl s good
ensure_user-Served s (c ∷ cs) good =
    let found = ensure_known-Found s (c ∷ cs) good in (found.serves, Found-Shown found)

touch_parts-Served :
    (s : SessionState) (parts : Bytes × Bytes × Bytes)
    → IsConsistent s
    → Served s (touch_parts s parts)
unfolding touch_parts set_identity
touch_parts-Served s ([], user, host) good = Serves-refl s good
touch_parts-Served s (c ∷ cs, user, host) good =
    let found = ensure_known-Found s (c ∷ cs) good in
    let s' = (ensure_known s (c ∷ cs)).0 in
    let r = (ensure_known s (c ∷ cs)).1 in
    let u = set_identity (user_at s' r) user host in
    let good' : IsConsistent s' = Serves-IsConsistent good found.serves in
    (
      Serves-trans found.serves (edit-Serves s' r u good' refl),
      edit-Shown s' r u refl (Found-Shown found),
    )

pub touch_user-Served :
    (s : SessionState) (source : Bytes) → IsConsistent s → Served s (touch_user s source)
unfolding touch_user
touch_user-Served s source good = elim (Bool-cases (contains_byte b'!' source)) [
  | inl e ↦
      let same : touch_user s source ≡ touch_parts s (split_userhost source) = ground arith in
      subst (Served s) (sym same) (touch_parts-Served s (split_userhost source) good)
  | inr e ↦
      let same : touch_user s source ≡ (s, none) = ground arith in
      subst (Served s) (sym same) (Serves-refl s good)
]

pub Served-IsConsistent :
    (s : SessionState) (o : SessionState × Option ℕ)
    → IsConsistent s
    → Served s o
    → IsConsistent o.0
Served-IsConsistent s (s', none) good serves = Serves-IsConsistent good serves
Served-IsConsistent s (s', some r) good (serves, shown) = Serves-IsConsistent good serves
