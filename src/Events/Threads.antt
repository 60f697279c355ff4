-- ===== src/Events/Threads.antt =====
-- The threads that events start, and the manager's loop that collects the finished ones.
use buckey.Common.{
  ℕ, zero, suc, ◌+◌, ◌<◌, ◌≡◌, refl, ap, ◌∙◌, inl, inr, true, false, none, some, List, [], ◌∷◌,
  ◌++◌, map, append-nil, arith, if◌then◌else◌, Option-cases, length, String,
}
use buckey.Events.{
  Thread, EventSource, start_threads, trigger_events, erase_done, sweep, manage_round, kill_threads,
  handler_count,
}
use buckey.Events.{add_listener, unset_listener, clear_listeners}
use buckey.Events.Listeners.{listeners}
use buckey.Events.Ids.{Call, adds, unsets, clears, triggers, manages, kills, step, run}

module _ {H D : Type 0} where
  -- The threads that still run.
  pub running : List (Thread H D) → List (Thread H D)
  running [] = []
  running (t ∷ ts) = if t.done then running ts else t ∷ running ts

  running-idle : (ts : List (Thread H D)) → erase_done ts ≡ none → running ts ≡ ts
  unfolding erase_done running
  running-idle [] e = refl
  running-idle (t ∷ ts) e = ground (arith, running-idle ts)

  running-erase_done :
      (ts rest : List (Thread H D))
      → erase_done ts ≡ some rest
      → (running rest ≡ running ts) × (length ts ≡ length rest + 1)
  unfolding erase_done running
  running-erase_done [] rest e = cc
  running-erase_done (t ∷ ts) rest e = elim (Option-cases (erase_done ts)) [
    | inl f ↦ ground arith
    | inr (more, f) ↦ ground (arith, running-erase_done ts more f)
  ]

  sweep-running :
      (fuel : ℕ) (ts : List (Thread H D)) → length ts < fuel → sweep fuel ts ≡ some (running ts)
  unfolding sweep
  sweep-running zero ts b = absurd (omega arith)
  sweep-running (suc fuel) ts b = elim (Option-cases (erase_done ts)) [
    | inl e ↦ rw (e, sweep) (rw (running-idle ts e))
    | inr (rest, e) ↦
        let (same, shorter) = running-erase_done ts rest e in
        rw (e, sweep) (sweep-running fuel rest (omega arith) ∙ ap some same)
  ]

  -- The manager's loop ends, and it joins and forgets exactly the threads whose handlers are done,
  -- keeping the others in their order.
  pub threads-manage_round :
      (s : EventSource H D)
      → ((manage_round s).threads ≡ running s.threads)
        × (sweep (length s.threads + 1) s.threads ≡ some (running s.threads))
  unfolding manage_round
  threads-manage_round s =
      let swept = sweep-running (length s.threads + 1) s.threads (omega arith) in
      (ground (arith, swept), swept)

  -- While the source is not being destroyed, an event starts one running thread for each of its
  -- listeners, in the order of their registration, and afterwards it starts none.
  pub threads-trigger_events :
      (event : String) (arg : D) (s : EventSource H D)
      → (trigger_events event arg s).threads ≡ (
          if s.request_join
          then s.threads
          else s.threads
            ++ map (λ m. record { handler = m.1; arg = arg; done = false }) (listeners event s))
  unfolding trigger_events start_threads listeners
  threads-trigger_events event arg s = ground (arith, append-nil s.threads)

  abbrev IsDead : EventSource H D → Type 0
  IsDead s = (s.request_join ≡ true) × (s.threads ≡ [])

  step-IsDead : (s : EventSource H D) (c : Call H D) → IsDead s → IsDead (step s c)
  unfolding step add_listener unset_listener clear_listeners trigger_events kill_threads
  step-IsDead s (adds event h) d = d
  step-IsDead s (unsets event id) d = ground arith
  step-IsDead s (clears event) d = ground arith
  step-IsDead s (triggers event arg) d = ground arith
  step-IsDead s manages d = (
    unfold manage_round in ground arith,
    (threads-manage_round s).0 ∙ (unfold running in ap running d.1),
  )
  step-IsDead s kills d = (refl, refl)

  run-IsDead : (s : EventSource H D) (cs : List (Call H D)) → IsDead s → IsDead (run s cs)
  unfolding run
  run-IsDead s [] d = d
  run-IsDead s (c ∷ cs) d = run-IsDead (step s c) cs (step-IsDead s c d)

  -- After killThreads no thread is left, and whatever is called afterwards starts none.
  pub handler_count-kill_threads :
      (s : EventSource H D) (cs : List (Call H D)) → handler_count (run (kill_threads s) cs) ≡ 0
  unfolding handler_count
  handler_count-kill_threads s cs =
      ap length (run-IsDead (kill_threads s) cs (unfold kill_threads in (refl, refl))).1
