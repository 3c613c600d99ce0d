-- ===== src/Session/Tracker/InFlight.antt =====
-- internal/session/tracker.go: of the requests under one key, the first alone is not marked as held,
-- and a request that becomes the first gives its line.
use go_bnc.Base.{
  All, All-append, Bool, Bool-cases, Bytes, List, Option-cases, [], ap, arith, drop, false,
  if◌then◌else◌, inl, inr, length, none, refl, some, subst, sym, text_eq, true, ◌==◌, ◌↔◌, ◌∙◌, ◌∷◌,
  ◌≡◌,
}
use go_bnc.Session.Tracker.{
  Pending, Waiter, coalesce, drop_client, head_waiter, promote, Message, drop_waiter,
}
use mathlib.Core.Option.{some-injective}
use go_bnc.Session.Tracker.Queues.{
  enqueue_held_write, pop_queue, drop_kept, drops_head, settle, drop_queue, expire_kept,
  expire_queue, join_remote, begin_queue, has_outbound, expires_head,
}

abbrev flags : List Pending → List Bool
flags [] = []
flags (r ∷ rs) = r.hold_write ∷ flags rs

abbrev IsHeld : Pending → Type 0
IsHeld r = r.hold_write ≡ true

-- The head of the queue is not marked as held, and every other request is.
abbrev pub OneInFlight : List Pending → Type 0
OneInFlight [] = Unit
OneInFlight (r ∷ rs) = (r.hold_write ≡ false) × All (λ (w : Pending). w.hold_write ≡ true) rs

-- The lines that a released head gives.
abbrev pub released : List Pending → List Message
released [] = []
released (r ∷ rs) = if has_outbound r.outbound then r.outbound ∷ [] else []

enqueue_held : (r : Pending) → IsHeld r → (enqueue_held_write r).0.hold_write ≡ false
unfolding enqueue_held_write
enqueue_held r h = rw h

coalesce-hold : (r : Pending) (w : Waiter) → (coalesce r w).hold_write ≡ r.hold_write
unfolding coalesce
coalesce-hold r w = ground arith

drop_client-hold :
    (r : Pending) (c : Bytes) {r' : Pending}
    → drop_client r c ≡ some r'
    → r'.hold_write ≡ r.hold_write
unfolding drop_client
drop_client-hold r c {r'} h = by_extra r.extra h
  where
    by_extra :
        (ws : List Waiter)
        → (if text_eq r.client c
            then promote r ws
            else some (record r { extra = drop_waiter c r.extra }))
          ≡ some r'
        → r'.hold_write ≡ r.hold_write
    by_extra [] e = ground arith
    by_extra (w ∷ ws) e = ground arith

-- When the first exchange of a queue of which the head alone is not marked as held ends, the next
-- request is no longer held, and its line, if it has one, is all that becomes ready.
pub pop_queue-OneInFlight :
    (q : List Pending)
    → OneInFlight q
    → OneInFlight (pop_queue q).0 × ((pop_queue q).1 ≡ released (drop 1 q))
unfolding pop_queue
pop_queue-OneInFlight [] h = (tt, refl)
pop_queue-OneInFlight (r ∷ []) h = (tt, refl)
pop_queue-OneInFlight (r ∷ next ∷ rs) (written, (held, others)) =
    ((enqueue_held next held, others), unfold enqueue_held_write in rw held)

drop_kept-IsHeld : (c : Bytes) (rs : List Pending) → All IsHeld rs → All IsHeld (drop_kept c rs)
unfolding drop_kept
drop_kept-IsHeld c [] h = tt
drop_kept-IsHeld c (r ∷ rs) (held, others) = elim (Option-cases (drop_client r c)) [
  | inl gone ↦ rw (gone, drop_kept) (drop_kept-IsHeld c rs others)
  | inr (r', e) ↦ rw (e, drop_kept) (drop_client-hold r c e ∙ held, drop_kept-IsHeld c rs others)
]

settle-OneInFlight :
    (dropped_head : Bool) (q : List Pending)
    → (dropped_head ≡ true → All IsHeld q)
    → (dropped_head ≡ false → OneInFlight q)
    → OneInFlight (settle dropped_head q).0
unfolding settle
settle-OneInFlight dropped_head [] dropped kept = tt
settle-OneInFlight true (r ∷ rs) dropped kept = (enqueue_held r (dropped refl).0, (dropped refl).1)
settle-OneInFlight false (r ∷ rs) dropped kept = kept refl

-- A head that is released by `settle` gives its line, if it has one; nothing else becomes ready.
settle-lines :
    (dropped_head : Bool) (q : List Pending)
    → (dropped_head ≡ true → All IsHeld q)
    → (settle dropped_head q).1 ≡ (if dropped_head then released (settle dropped_head q).0 else [])
unfolding settle
settle-lines true [] held = refl
settle-lines false [] held = refl
settle-lines true (r ∷ rs) held = unfold enqueue_held_write in rw (held refl).0
settle-lines false (r ∷ rs) held = refl

drop_kept-gone :
    (c : Bytes) (r : Pending) (rs : List Pending)
    → drop_client r c ≡ none
    → (drop_kept c (r ∷ rs) ≡ drop_kept c rs) × (drops_head c (r ∷ rs) ≡ true)
unfolding drop_kept drops_head
drop_kept-gone c r rs h = (rw (h, drop_kept), rw (h, drops_head))

drop_kept-stays :
    (c : Bytes) (r : Pending) (rs : List Pending) {r' : Pending}
    → drop_client r c ≡ some r'
    → (drop_kept c (r ∷ rs) ≡ r' ∷ drop_kept c rs) × (drops_head c (r ∷ rs) ≡ false)
unfolding drop_kept drops_head
drop_kept-stays c r rs h = (rw (h, drop_kept), rw (h, drops_head))

-- A client that goes away leaves a queue of which the head alone is not marked as held as such a
-- queue, whichever requests go with it. If the head has gone, the line of the new head, if there is
-- one and it has a line, is what becomes ready; otherwise nothing does.
pub drop_queue-OneInFlight :
    (c : Bytes) (q : List Pending)
    → OneInFlight q
    → OneInFlight (drop_queue c q).0
      × ((drop_queue c q).1 ≡ (if drops_head c q then released (drop_queue c q).0 else []))
drop_queue-OneInFlight c [] h = unfold drop_queue in (tt, unfold drops_head in refl)
drop_queue-OneInFlight c (r ∷ rs) (written, others) =
    unfold drop_queue in
    (
      settle-OneInFlight (drops_head c (r ∷ rs)) (drop_kept c (r ∷ rs)) dropped kept,
      settle-lines (drops_head c (r ∷ rs)) (drop_kept c (r ∷ rs)) dropped,
    )
  where
    rest : All IsHeld (drop_kept c rs)
    rest = drop_kept-IsHeld c rs others

    dropped : drops_head c (r ∷ rs) ≡ true → All IsHeld (drop_kept c (r ∷ rs))
    dropped t = elim (Option-cases (drop_client r c)) [
      | inl gone ↦ subst (All IsHeld) (sym (drop_kept-gone c r rs gone).0) rest
      | inr (r', e) ↦ cc (t, (drop_kept-stays c r rs e).1)
    ]

    kept : drops_head c (r ∷ rs) ≡ false → OneInFlight (drop_kept c (r ∷ rs))
    kept f = elim (Option-cases (drop_client r c)) [
      | inl gone ↦ cc (f, (drop_kept-gone c r rs gone).1)
      | inr (r', e) ↦
          subst OneInFlight (sym (drop_kept-stays c r rs e).0)
            (drop_client-hold r c e ∙ written, rest)
    ]

expire_kept-IsHeld :
    (stale : Pending → Bool) (rs : List Pending) → All IsHeld rs → All IsHeld (expire_kept stale rs)
unfolding expire_kept
expire_kept-IsHeld stale [] h = tt
expire_kept-IsHeld stale (r ∷ rs) (held, others) = elim (Bool-cases (stale r)) [
  | inl old ↦ rw old (expire_kept-IsHeld stale rs others)
  | inr young ↦ rw young (held, expire_kept-IsHeld stale rs others)
]

-- Requests that expire, by any test, leave a queue of which the head alone is not marked as held as
-- such a queue. If the head has expired, the line of the new head, if there is one and it has a
-- line, is what becomes ready; otherwise nothing does.
pub expire_queue-OneInFlight :
    (stale : Pending → Bool) (q : List Pending)
    → OneInFlight q
    → OneInFlight (expire_queue stale q).0
      × ((expire_queue stale q).1
          ≡ (if expires_head stale q then released (expire_queue stale q).0 else []))
unfolding expire_queue expires_head
expire_queue-OneInFlight stale [] h = (tt, refl)
expire_queue-OneInFlight stale (r ∷ rs) (written, others) =
    let held : stale r ≡ true → All IsHeld (expire_kept stale (r ∷ rs)) =
      λ old. rw old (expire_kept-IsHeld stale rs others) in
    (
      settle-OneInFlight (stale r) (expire_kept stale (r ∷ rs)) held
          (λ young. rw young (written, expire_kept-IsHeld stale rs others)),
      settle-lines (stale r) (expire_kept stale (r ∷ rs)) held,
    )

-- Joining changes one request's waiters and nothing that the property reads.
join_remote-holds :
    (remote : Bytes) (w : Waiter) (rs : List Pending) {q : List Pending}
    → join_remote remote w rs ≡ some q
    → flags q ≡ flags rs
unfolding join_remote
join_remote-holds remote w [] h = cc
join_remote-holds remote w (r ∷ rs) {q} h = elim (Bool-cases (text_eq r.remote remote)) [
  | inl same ↦
      let e = some-injective (coalesce r w ∷ rs) q (rw (same, join_remote) at h) in
      subst (λ q. flags q ≡ r.hold_write ∷ flags rs) e (ap (λ b. b ∷ flags rs) (coalesce-hold r w))
  | inr other ↦ elim (Option-cases (join_remote remote w rs)) [
    | inl n ↦ absurd (ground arith)
    | inr (rs', n) ↦
        let e = some-injective (r ∷ rs') q (rw n at (rw (other, join_remote) at h)) in
        subst (λ q. flags q ≡ r.hold_write ∷ flags rs) e
          (ap (λ b. r.hold_write ∷ b) (join_remote-holds remote w rs n))
  ]
]

-- The property reads the hold flags alone.
abbrev OneFalse : List Bool → Type 0
OneFalse [] = Unit
OneFalse (b ∷ bs) = (b ≡ false) × All (λ b. b ≡ true) bs

All-flags : (rs : List Pending) → All IsHeld rs ↔ All (λ b. b ≡ true) (flags rs)
All-flags [] = (λ h. h, λ h. h)
All-flags (r ∷ rs) = (λ h. (h.0, (All-flags rs).0 h.1), λ h. (h.0, (All-flags rs).1 h.1))

OneInFlight-iff : (q : List Pending) → OneInFlight q ↔ OneFalse (flags q)
OneInFlight-iff [] = (λ h. h, λ h. h)
OneInFlight-iff (r ∷ rs) = (λ h. (h.0, (All-flags rs).0 h.1), λ h. (h.0, (All-flags rs).1 h.1))

join_remote-OneInFlight :
    (remote : Bytes) (w : Waiter) (q : List Pending) {q' : List Pending}
    → join_remote remote w q ≡ some q'
    → OneInFlight q
    → OneInFlight q'
join_remote-OneInFlight remote w q {q'} h v =
    (OneInFlight-iff q').1
      (subst OneFalse (sym (join_remote-holds remote w q h)) ((OneInFlight-iff q).0 v))

-- A request that is not marked as held, added to a queue of which the head alone is not marked as
-- held, leaves such a queue, and it is to be written at once exactly if the queue was empty.
pub begin_queue-OneInFlight :
    (q : List Pending) (req : Pending)
    → req.hold_write ≡ false
    → OneInFlight q
    → OneInFlight (begin_queue q req).0 × ((begin_queue q req).1 ≡ (length q == 0))
unfolding begin_queue
begin_queue-OneInFlight [] req fresh h = ((fresh, tt), refl)
begin_queue-OneInFlight (r ∷ rs) req fresh (written, others) =
    elim (Option-cases (join_remote req.remote (head_waiter req) (r ∷ rs))) [
      | inl none_joins ↦
          rw (none_joins, begin_queue)
            (
              (written, All-append (λ (w : Pending). w.hold_write ≡ true) rs _ others (refl, tt)),
              ground arith,
            )
      | inr (q', e) ↦
          rw (e, begin_queue)
            (
              join_remote-OneInFlight req.remote (head_waiter req) (r ∷ rs) e (written, others),
              ground arith,
            )
    ]
