-- ===== src/Session/Tracker/AllInFlight.antt =====
-- internal/session/tracker.go: what the operations on a map of queues keep true of all its queues.
use go_bnc.Session.Tracker.Begin.Request.{BeginOpts}
use go_bnc.Session.Tracker.{Pending, RequestTracker, Queues, Message}
use go_bnc.Session.Tracker.Begin.{begin_keyed, begin_whois, whois_request}
use go_bnc.Base.{
  All, Bool-cases, Bytes, List, [], byte_key, erase, false, inl, inr, insert, lookup, refl, subst,
  sym, text_eq, text_key, ℕ, ◌∷◌, ◌≡◌,
}
use go_bnc.Session.Tracker.Queues.{put_queue, queue_at, pop_waiters, each_queue, popped}
use go_bnc.Session.Tracker.InFlight.{OneInFlight, begin_queue-OneInFlight, pop_queue-OneInFlight}

abbrev pub KeyInFlight : Bytes × List Pending → Type 0
KeyInFlight (key, q) = OneInFlight q

-- Under each key the head alone is not marked as held.
abbrev pub AllInFlight : Queues → Type 0
AllInFlight queues = All KeyInFlight queues

pub put_at :
    (key : Bytes) (q : List Pending) (queues : Queues)
    → OneInFlight q
    → AllInFlight queues
    → AllInFlight (insert key q queues)
unfolding insert
put_at key q [] h v = (h, tt)
put_at key q ((j, w) ∷ queues) h (hw, v) = elim (Bool-cases (text_eq j key)) [
  | inl same ↦ rw (same, insert) (h, v)
  | inr other ↦ rw (other, insert) (hw, put_at key q queues h v)
]

pub taken_out :
    (key : Bytes) (queues : Queues) → AllInFlight queues → AllInFlight (erase key queues)
unfolding erase
taken_out key [] v = tt
taken_out key ((j, w) ∷ queues) (hw, v) = elim (Bool-cases (text_eq j key)) [
  | inl same ↦ rw (same, erase) (taken_out key queues v)
  | inr other ↦ rw (other, erase) (hw, taken_out key queues v)
]

pub queue_at-OneInFlight :
    (queues : Queues) (key : Bytes) → AllInFlight queues → OneInFlight (queue_at queues key)
unfolding queue_at lookup
queue_at-OneInFlight [] key v = tt
queue_at-OneInFlight ((j, w) ∷ queues) key (hw, v) = elim (Bool-cases (text_eq j key)) [
  | inl same ↦
      let e : queue_at ((j, w) ∷ queues) key ≡ w = rw (same, queue_at, lookup) refl in
      subst OneInFlight (sym e) hw
  | inr other ↦
      let e : queue_at ((j, w) ∷ queues) key ≡ queue_at queues key =
        rw (other, queue_at, lookup) refl in
      subst OneInFlight (sym e) (queue_at-OneInFlight queues key v)
]

pub put_queue-AllInFlight :
    (queues : Queues) (key : Bytes) (q : List Pending)
    → OneInFlight q
    → AllInFlight queues
    → AllInFlight (put_queue queues key q)
put_queue-AllInFlight queues key [] h v = taken_out key queues v
put_queue-AllInFlight queues key (r ∷ rs) h v = put_at key (r ∷ rs) queues h v

pub popped-AllInFlight :
    (queues : Queues) (key : Bytes) (q : List Pending)
    → OneInFlight q
    → AllInFlight queues
    → AllInFlight (popped queues key q).0
unfolding popped
popped-AllInFlight queues key [] h v = v
popped-AllInFlight queues key (r ∷ rs) h v =
    put_queue-AllInFlight queues key _ (pop_queue-OneInFlight (r ∷ rs) h).0 v

pub pop_waiters-AllInFlight :
    (queues : Queues) (key : Bytes) → AllInFlight queues → AllInFlight (pop_waiters queues key).0
unfolding pop_waiters
pop_waiters-AllInFlight queues key v =
    popped-AllInFlight queues key (queue_at queues key) (queue_at-OneInFlight queues key v) v

pub each_queue-AllInFlight :
    (f : List Pending → List Pending × List Message) (queues : Queues)
    → ((q : List Pending) → OneInFlight q → OneInFlight (f q).0)
    → AllInFlight queues
    → AllInFlight (each_queue f queues).0
unfolding each_queue
each_queue-AllInFlight f [] keeps v = tt
each_queue-AllInFlight f ((key, q) ∷ queues) keeps (h, v) =
    of_queue (f q).0 (keeps q h) (each_queue-AllInFlight f queues keeps v)
  where
    of_queue :
        (q' : List Pending)
        → OneInFlight q'
        → AllInFlight (each_queue f queues).0
        → AllInFlight (elim q' [
          | [] ↦ (each_queue f queues).0
          | r ∷ rs ↦ (key, r ∷ rs) ∷ (each_queue f queues).0
        ])
    of_queue [] h' v' = v'
    of_queue (r ∷ rs) h' v' = (h', v')

pub begin_keyed-AllInFlight :
    (queues : Queues) (key : Bytes) (req : Pending)
    → req.hold_write ≡ false
    → AllInFlight queues
    → AllInFlight (begin_keyed queues key req).0
unfolding begin_keyed
begin_keyed-AllInFlight queues key req new v =
    put_at key _ queues
      (begin_queue-OneInFlight (queue_at queues key) req new (queue_at-OneInFlight queues key v)).0
      v

pub begin_whois-AllInFlight :
    (now : ℕ) (rt : RequestTracker) (o : BeginOpts) (wires : List Bytes) (queues : Queues)
    → AllInFlight queues
    → AllInFlight (begin_whois now rt o queues wires).0
unfolding begin_whois whois_request
begin_whois-AllInFlight now rt o [] queues v = v
begin_whois-AllInFlight now rt o ([] ∷ wires) queues v =
    begin_whois-AllInFlight now rt o wires queues v
begin_whois-AllInFlight now rt o ((c ∷ cs) ∷ wires) queues v =
    begin_whois-AllInFlight now rt o wires _
      (begin_keyed-AllInFlight queues _ (whois_request now rt o (c ∷ cs)) refl v)
