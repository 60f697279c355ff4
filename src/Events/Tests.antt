-- ===== src/Events/Tests.antt =====
-- Runs of an event source.
use buckey.Common.{ℕ, ◌+◌, ◌≡◌, refl, ◌↔◌, ◌⊎◌, true, false, some, List, [], ◌∷◌, arith, length}
use buckey.Events.Shutdown.{
  State, killer, returned, clearing, asking, triggers, request, leave, killer_locks, joins, Reach,
  begin, start, later, IsDeadlocked, IsFinished, IsStuck, IsStuck-iff,
}
use buckey.Events.{EventSource, new_source, sweep, manage_round}
use buckey.Events.Board.{blank}
use buckey.Events.Refinement.{Refines, spec_run, run-Refines}
use buckey.Events.Ids.{Call, adds, run}
use buckey.Events.Threads.{running, threads-manage_round}

-- Two listeners of one event.
abbrev calls : List (Call ℕ ℕ)
calls = adds "onOutputEvent" 7 ∷ adds "onOutputEvent" 8 ∷ []

abbrev source : EventSource ℕ ℕ
source = run (new_source 0) calls

-- A thread that is done and one that is not.
abbrev busy : EventSource ℕ ℕ
busy = record {
  handlers = [];
  next_id = 0;
  request_join = false;
  threads =
      record { handler = 7; arg = 1; done = true }
      ∷ record { handler = 8; arg = 1; done = false }
      ∷ [];
}

threads-manage_round_example :
    ((manage_round busy).threads ≡ running busy.threads)
    × (sweep (length busy.threads + 1) busy.threads ≡ some (running busy.threads))
threads-manage_round_example = threads-manage_round busy

-- The destructor waits for a listener that is about to lock.
abbrev waiting : State
waiting = record { request_join = true; owner = killer; m = returned; k = clearing; l = asking }

waiting-Reach : Reach waiting
waiting-Reach =
    later
      (later
        (later (later (later start (triggers begin refl refl)) (request _ refl))
          (leave _ refl refl))
        (killer_locks _ refl refl))
      (joins _ refl refl)

IsStuck-iff_example : IsStuck waiting ↔ (IsDeadlocked waiting ⊎ IsFinished waiting)
IsStuck-iff_example = IsStuck-iff waiting-Reach

run-Refines_example : Refines (run (new_source 0) calls) (spec_run (blank 0) calls)
run-Refines_example = run-Refines 0 calls (omega arith)
