-- ===== src/Session/Tracker/Requests.antt =====
-- internal/session/tracker.go: the waiters of one request.
use go_bnc.Base.{
  Bool, Bool-cases, Bytes, List, Option, [], ap, arith, false, if◌then◌else◌, inl, inr, none, refl,
  some, sym, text_eq, text_eq_iff, text_in, true, ◌++◌, ◌∙◌, ◌∷◌, ◌≡◌,
}
use go_bnc.Session.Tracker.{
  Waiter, Pending, dests_of, fix_whox_rewrite, has_client, coalesce, drop_waiter, drop_client,
  promote,
}

-- The clients that a reply goes to, in order.
unfoldable pub clients : List Waiter → List Bytes
clients [] = []
clients (w ∷ ws) = w.client ∷ clients ws

-- No client stands twice.
abbrev pub Distinct : List Bytes → Type 0
Distinct [] = Unit
Distinct (k ∷ ks) = (text_in k ks ≡ false) × Distinct ks

-- `filter` by a client's name.
pub without : Bytes → List Bytes → List Bytes
without c [] = []
without c (k ∷ ks) = if text_eq k c then without c ks else k ∷ without c ks

-- The request that `dropClient` leaves, as the clients it serves.
abbrev pub served : Option Pending → List Bytes
served none = []
served (some r) = clients (dests_of r)

has_client-clients : (c : Bytes) (ws : List Waiter) → has_client c ws ≡ text_in c (clients ws)
unfolding has_client clients text_in
has_client-clients c [] = refl
has_client-clients c (w ∷ ws) =
    ground (arith, has_client-clients c ws, text_eq_iff w.client c, text_eq_iff c w.client)

clients-append : (ws vs : List Waiter) → clients (ws ++ vs) ≡ clients ws ++ clients vs
unfolding clients
clients-append [] vs = refl
clients-append (w ∷ ws) vs = rw (clients-append ws vs)

fix_whox_rewrite-client : (w : Waiter) (b : Bool) → (fix_whox_rewrite w b).client ≡ w.client
unfolding fix_whox_rewrite
fix_whox_rewrite-client w b = ground arith

-- A client that joins an exchange is served behind the others, and one that already waits is
-- served once.
pub clients-coalesce :
    (r : Pending) (w : Waiter)
    → clients (dests_of (coalesce r w)) ≡ (
        if text_in w.client (clients (dests_of r))
        then clients (dests_of r)
        else clients (dests_of r) ++ (w.client ∷ []))
unfolding coalesce dests_of clients text_in
clients-coalesce r w = ground (
  arith,
  has_client-clients w.client r.extra,
  clients-append r.extra (fix_whox_rewrite w r.strip_token ∷ []),
  fix_whox_rewrite-client w r.strip_token,
)

drop_waiter-clients :
    (c : Bytes) (ws : List Waiter) → clients (drop_waiter c ws) ≡ without c (clients ws)
unfolding drop_waiter clients without
drop_waiter-clients c [] = refl
drop_waiter-clients c (w ∷ ws) = ground (arith, drop_waiter-clients c ws)

without_absent : (c : Bytes) (ks : List Bytes) → text_in c ks ≡ false → without c ks ≡ ks
unfolding without text_in
without_absent c [] h = refl
without_absent c (k ∷ ks) h = ground (arith, without_absent c ks, text_eq_iff k c, text_eq_iff c k)

promote-served : (r : Pending) (ws : List Waiter) → served (promote r ws) ≡ clients ws
unfolding dests_of clients
promote-served r [] = refl
promote-served r (w ∷ ws) = refl

-- When a client of an exchange without doubles goes away, exactly the others are served, in
-- order; a request that is given up serves none.
pub drop_client-served :
    (r : Pending) (c : Bytes)
    → Distinct (clients (dests_of r))
    → served (drop_client r c) ≡ without c (clients (dests_of r))
drop_client-served r c d = elim (Bool-cases (text_eq r.client c)) [
  | inl same ↦ drop_head same
  | inr other ↦ drop_other other
]
  where
    drop_head :
        text_eq r.client c ≡ true → served (drop_client r c) ≡ without c (clients (dests_of r))
    drop_head same =
        let e : r.client ≡ c = (text_eq_iff r.client c).0 same in
        let absent : text_in c (clients r.extra) ≡ false =
          ap (λ k. text_in k (clients r.extra)) (sym e) ∙ (unfold dests_of clients in d.0) in
        let dropped : drop_client r c ≡ promote r r.extra = unfold drop_client in rw same in
        let others : without c (clients (dests_of r)) ≡ without c (clients r.extra) =
          unfold dests_of clients without in rw same in
        ap served dropped
        ∙ promote-served r r.extra
        ∙ sym (without_absent c (clients r.extra) absent)
        ∙ sym others

    drop_other :
        text_eq r.client c ≡ false → served (drop_client r c) ≡ without c (clients (dests_of r))
    drop_other other =
        let dropped : drop_client r c ≡ some (record r { extra = drop_waiter c r.extra }) =
          unfold drop_client in rw other in
        ap served dropped
        ∙ (unfold dests_of clients without in rw (other, drop_waiter-clients c r.extra))
