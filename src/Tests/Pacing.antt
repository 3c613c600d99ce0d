-- ===== src/Tests/Pacing.antt =====
-- Concrete runs of the line pacer and of a network that is redialled.
use go_bnc.Flood.LinePacer.Wait.{charged, attempt-wait_once}
use go_bnc.Flood.LinePacer.{attempt, LinePacer, send, new_line_pacer, decide_line, cost, wait}
use go_bnc.Brain.Reconnect.Backoff.{arm_all, backoff_doubles}
use go_bnc.Brain.Reconnect.Stopping.{
  Event, run, fails, fires, redials, closes, promised, stop_network-run,
}
use go_bnc.Flood.LinePacer.Ircu.{IsIrcu, IrcuReads, Released-IrcuReads, Released, sent, done}
use go_bnc.Base.{List, [], arith, false, min, none, refl, some, true, ◌*◌, ◌^◌, ◌∷◌, ◌≡◌}
use go_bnc.Brain.Reconnect.{Network, default_bounds, reset_backoff, stop_network}

abbrev pacer : LinePacer
pacer = record new_line_pacer { on = true }

pacer-IsIrcu : IsIrcu pacer
pacer-IsIrcu = record {
  base_is = refl;
  per_bytes_is = refl;
  allowance_le = omega arith;
  is_on = refl;
}

two_lines : Released pacer ((1_000_000_000, 10) ∷ (1_000_000_000, 240) ∷ [])
unfolding attempt decide_line cost
two_lines = sent 1_000_000_000 10 refl (sent 1_000_000_000 240 refl done)

Released-IrcuReads_example : IrcuReads 0 ((1_000_000_000, 10) ∷ (1_000_000_000, 240) ∷ [])
Released-IrcuReads_example = Released-IrcuReads 0 pacer-IsIrcu (omega arith) two_lines

abbrev busy : LinePacer
busy = record pacer { clock = 9_000_000_000 }

busy-wait : attempt busy 1_000_000_000 10 ≡ wait 2_000_000_000 busy
unfolding attempt decide_line cost
busy-wait = refl

attempt-wait_once_example : attempt busy 3_000_000_000 10 ≡ send (charged busy 3_000_000_000 10)
attempt-wait_once_example =
    attempt-wait_once busy 1_000_000_000 10 3_000_000_000 busy-wait (omega arith)

abbrev network : Network
network = record {
  dialled = true;
  backoff = 0;
  stopped = false;
  timer = none;
  redialling = true ∷ [];
  sent = [];
  resets = 0;
}

backoff_doubles_example :
    (arm_all default_bounds 4 (reset_backoff default_bounds network)).timer
    ≡ some (min default_bounds.max_backoff (default_bounds.min_backoff * 2 ^ 3))
backoff_doubles_example =
    backoff_doubles default_bounds network 3 (omega arith) (omega arith) (omega arith) refl

abbrev stopping : List Event
stopping = fails ∷ fires true ∷ redials 0 ∷ closes ∷ redials 0 ∷ []

stop_network-run_example :
    (promised (run default_bounds (stop_network network) stopping) ≡ promised network)
    × ((run default_bounds (stop_network network) stopping).stopped ≡ true)
stop_network-run_example = stop_network-run default_bounds network stopping
