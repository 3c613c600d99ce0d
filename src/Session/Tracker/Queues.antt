-- ===== src/Session/Tracker/Queues.antt =====
-- internal/session/tracker.go: the queues of requests under one key. Each operation also gives
-- the lines that it appends to `ready`.
use go_bnc.Base.{
  Bool, Bytes, List, Option, [], byte_key, erase, false, if◌then◌else◌, insert, lookup, none, not,
  some, text_eq, text_key, true, ◌++◌, ◌||◌, ◌∷◌,
}
use go_bnc.Irc.Message.{Message}
use go_bnc.Session.Tracker.{Pending, Queues, Waiter, coalesce, drop_client, head_waiter}

-- `Outbound.Command != "" || Outbound.Raw != ""`
unfoldable pub has_outbound : Message → Bool
has_outbound m = not (text_eq m.command []) || not (text_eq m.raw [])

-- `enqueueHeldWrite`: the request, and the line that becomes writable.
unfoldable pub enqueue_held_write : Pending → Pending × List Message
unfolding has_outbound
enqueue_held_write r =
    if not r.hold_write
    then (r, [])
    else (record r { hold_write = false }, if has_outbound r.outbound then r.outbound ∷ [] else [])

-- A queue after its first request is taken off: none is left, or the next one is released.
unfoldable pub pop_queue : List Pending → List Pending × List Message
unfolding enqueue_held_write
pop_queue [] = ([], [])
pop_queue (r ∷ []) = ([], [])
pop_queue (r ∷ next ∷ rs) = let (next', lines) = enqueue_held_write next in (next' ∷ rs, lines)

-- `queues[key]`
unfoldable pub queue_at : Queues → Bytes → List Pending
queue_at queues key = elim (lookup key queues) [ none ↦ [] | some q ↦ q ]

abbrev pub put_queue : Queues → Bytes → List Pending → Queues
put_queue queues key [] = erase key queues
put_queue queues key (r ∷ rs) = insert key (r ∷ rs) queues

-- `popWaiters` on the queue that stands under the key.
unfoldable pub popped : Queues → Bytes → List Pending → Queues × List Message
unfolding pop_queue
popped queues key [] = (queues, [])
popped queues key (r ∷ rs) =
    let (rest, lines) = pop_queue (r ∷ rs) in (put_queue queues key rest, lines)

-- `popWaiters`, and `popSerial`, which is the same code on `rt.serial`.
unfoldable pub pop_waiters : Queues → Bytes → Queues × List Message
unfolding popped queue_at
pop_waiters queues key = popped queues key (queue_at queues key)

-- The loop of `dropQueueClient` over one queue: the requests that are kept.
unfoldable pub drop_kept : Bytes → List Pending → List Pending
drop_kept client [] = []
drop_kept client (r ∷ rs) =
    let rest = drop_kept client rs in
    elim (drop_client r client) [ none ↦ rest | some r' ↦ r' ∷ rest ]

-- Whether that loop drops the first request.
unfoldable pub drops_head : Bytes → List Pending → Bool
drops_head client [] = false
drops_head client (r ∷ rs) = elim (drop_client r client) [ none ↦ true | some r' ↦ false ]

-- A kept queue, its new head released if the old one is gone.
unfoldable pub settle : Bool → List Pending → List Pending × List Message
unfolding enqueue_held_write
settle dropped_head [] = ([], [])
settle dropped_head (r ∷ rs) =
    if dropped_head
    then (let (r', lines) = enqueue_held_write r in (r' ∷ rs, lines))
    else (r ∷ rs, [])

-- `dropQueueClient` on one queue.
unfoldable pub drop_queue : Bytes → List Pending → List Pending × List Message
unfolding settle drop_kept drops_head
drop_queue client q = settle (drops_head client q) (drop_kept client q)

-- The body of the loop of `DropClient` over `rt.serial`, on one queue.
unfoldable pub drop_serial_kept : Bytes → List Pending → List Pending
drop_serial_kept client [] = []
drop_serial_kept client (r ∷ rs) =
    if text_eq r.client client then drop_serial_kept client rs else r ∷ drop_serial_kept client rs

unfoldable pub drop_serial_queue : Bytes → List Pending → List Pending × List Message
unfolding settle drop_serial_kept
drop_serial_queue client [] = ([], [])
drop_serial_queue client (r ∷ rs) =
    settle (text_eq r.client client) (drop_serial_kept client (r ∷ rs))

-- The loop of `expireQueue` over one queue.
unfoldable pub expire_kept : (Pending → Bool) → List Pending → List Pending
expire_kept stale [] = []
expire_kept stale (r ∷ rs) = if stale r then expire_kept stale rs else r ∷ expire_kept stale rs

unfoldable pub expires_head : (Pending → Bool) → List Pending → Bool
expires_head stale [] = false
expires_head stale (r ∷ rs) = stale r

-- `expireQueue` on one queue.
unfoldable pub expire_queue : (Pending → Bool) → List Pending → List Pending × List Message
unfolding settle expire_kept expires_head
expire_queue stale q = settle (expires_head stale q) (expire_kept stale q)

-- A loop over the map: every queue is replaced by what the operation leaves of it, and an empty
-- one is deleted.
unfoldable pub each_queue :
    (List Pending → List Pending × List Message) → Queues → Queues × List Message
each_queue f [] = ([], [])
each_queue f ((key, q) ∷ queues) =
    let (q', lines) = f q in
    let (rest, more) = each_queue f queues in
    (elim q' [ [] ↦ rest | r ∷ rs ↦ (key, r ∷ rs) ∷ rest ], lines ++ more)

-- `findRemoteMatch`, with the request replaced by the one that `other` has joined.
unfoldable pub join_remote : Bytes → Waiter → List Pending → Option (List Pending)
join_remote remote other [] = none
join_remote remote other (r ∷ rs) =
    let rest = join_remote remote other rs in
    if text_eq r.remote remote
    then some (coalesce r other ∷ rs)
    else elim rest [ none ↦ none | some rs' ↦ some (r ∷ rs') ]

-- The branch of `Begin` for a request under a key (WHOIS, STATS, NAMES), on one queue: the first
-- request is written, one with the same remote joins, any other is held.
unfoldable pub begin_queue : List Pending → Pending → List Pending × Bool
unfolding join_remote
begin_queue [] req = (req ∷ [], true)
begin_queue (r ∷ rs) req = elim (join_remote req.remote (head_waiter req) (r ∷ rs)) [
  | some q ↦ (q, false)
  | none ↦ (r ∷ rs ++ (record req { hold_write = true } ∷ []), false)
]
