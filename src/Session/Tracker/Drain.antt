-- ===== src/Session/Tracker/Drain.antt =====
-- internal/session/tracker.go: held requests are written in the order in which they came.
use go_bnc.Session.Tracker.{Pending, Message}
use go_bnc.Base.{
  All, List, [], ap₂, arith, if◌then◌else◌, length, refl, suc, true, zero, ℕ, ◌++◌, ◌∙◌, ◌∷◌, ◌≡◌,
}
use go_bnc.Session.Tracker.InFlight.{OneInFlight}
use go_bnc.Session.Tracker.Queues.{has_outbound, pop_queue, enqueue_held_write}

-- The lines that become ready while the exchanges of a queue end, `n` of them.
pub pops : ℕ → List Pending → List Message
pops zero q = []
pops (suc n) q = (pop_queue q).1 ++ pops n (pop_queue q).0

-- The lines of those requests that have one to write.
pub lines_of : List Pending → List Message
lines_of [] = []
lines_of (r ∷ rs) = if has_outbound r.outbound then r.outbound ∷ lines_of rs else lines_of rs

pops-held :
    (r : Pending) (rs : List Pending)
    → All (λ (w : Pending). w.hold_write ≡ true) rs
    → pops (length rs) (r ∷ rs) ≡ lines_of rs
unfolding pops lines_of pop_queue
pops-held r [] held = refl
pops-held r (next ∷ rs) (h, held) =
    ap₂ (λ a b. a ++ b) written (pops-held (enqueue_held_write next).0 rs held) ∙ joined
  where
    written :
        (pop_queue (r ∷ next ∷ rs)).1
        ≡ (if has_outbound next.outbound then next.outbound ∷ [] else [])
    written = unfold pop_queue in unfold enqueue_held_write in rw h

    joined :
        (if has_outbound next.outbound then next.outbound ∷ [] else []) ++ lines_of rs
        ≡ lines_of (next ∷ rs)
    joined = ground arith

-- While the exchanges under a key end one after the other, in a queue of which the head alone is
-- not marked as held, the line of every other request that has one to write becomes ready, once and
-- in the order in which the requests came; a request without a line adds nothing.
pub pops-lines_of :
    (r : Pending) (rs : List Pending)
    → OneInFlight (r ∷ rs)
    → pops (length rs) (r ∷ rs) ≡ lines_of rs
pops-lines_of r rs (written, held) = pops-held r rs held
