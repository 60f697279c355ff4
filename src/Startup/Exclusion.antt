-- ===== src/Startup/Exclusion.antt =====
-- At most one process of src/main.cpp runs a Buckey, and the order in which a daemon may fail to start.
use buckey.Common.{
  ℕ, ◌≡◌, refl, sym, ap, ◌∙◌, subst, ◌≢◌, inl, inr, Bool, true, false, ◌||◌, none, some, List, [],
  ◌∷◌, arith, ◌==◌, if◌then◌else◌, Bool-cases, Option-cases, if_holds,
}
use buckey.Startup.Processes.{
  absent, forking, leaving, relocking, serving, client, starting, Phase, System, enter, lockf,
  exit_process, fork, run_phase, launches, runs, Move, move, schedule, nobody,
}

-- The phases in which a process has the lock.
abbrev pub owns : Phase → Bool
owns forking = true
owns leaving = true
owns serving = true
owns _ = false

abbrev pub IsOwned : System → Type 0
IsOwned s = (k : ℕ) → owns (s.phase k) ≡ true → s.holder ≡ some k

-- A process that enters a phase without the lock, or with it.
enter-IsOwned :
    (i : ℕ) (p : Phase) (s : System)
    → IsOwned s
    → (owns p ≡ true → s.holder ≡ some i)
    → IsOwned (enter i p s)
unfolding enter
enter-IsOwned i p s owned own k h = elim (Bool-cases (k == i)) [
  | inl e ↦
      let mine : owns p ≡ true = subst (λ t. owns (if t then p else s.phase k) ≡ true) e h in
      own mine ∙ ap some (ground (arith, e))
  | inr e ↦ owned k (subst (λ t. owns (if t then p else s.phase k) ≡ true) e h)
]

lockf-IsOwned : (i : ℕ) (s : System) → IsOwned s → IsOwned (lockf i s).1
unfolding lockf
lockf-IsOwned i s owned k h = elim (Option-cases s.holder) [
  | inl e ↦ ground (arith, e, owned k)
  | inr (j, e) ↦ ground (arith, e, owned k)
]

lockf-holder : (i : ℕ) (s : System) → (lockf i s).0 ≡ true → (lockf i s).1.holder ≡ some i
unfolding lockf
lockf-holder i s h = elim (Option-cases s.holder) [
  | inl e ↦ ground (arith, e)
  | inr (j, e) ↦ ground (arith, e)
]

exit_process-IsOwned : (i : ℕ) (s : System) → IsOwned s → IsOwned (exit_process i s)
unfolding exit_process enter
exit_process-IsOwned i s owned k h = elim (Bool-cases (k == i)) [
  | inl e ↦ absurd (ground (arith, e, h))
  | inr e ↦ ground (arith, e, h, owned k)
]

-- A fork by the process that has the lock.
fork-IsOwned : (i j : ℕ) (s : System) → IsOwned s → s.holder ≡ some i → IsOwned (fork i j s)
unfolding fork enter
fork-IsOwned i j s owned has =
    elim (s.phase j)
      as (λ p.
        IsOwned
          (elim p [ absent ↦ enter j relocking (enter i leaving s) | _ ↦ exit_process i s ])) [
            | absent ↦
                enter-IsOwned j relocking (enter i leaving s)
                  (enter-IsOwned i leaving s owned (λ _. has)) (λ n. absurd (cc))
            | forking ↦ exit_process-IsOwned i s owned
            | leaving ↦ exit_process-IsOwned i s owned
            | relocking ↦ exit_process-IsOwned i s owned
            | serving ↦ exit_process-IsOwned i s owned
            | client ↦ exit_process-IsOwned i s owned
            | starting d ↦ exit_process-IsOwned i s owned
          ]

run_phase-IsOwned :
    (i j : ℕ) (p : Phase) (s : System) → s.phase i ≡ p → IsOwned s → IsOwned (run_phase i j p s)
unfolding run_phase
run_phase-IsOwned i j absent s at owned = owned
run_phase-IsOwned i j (starting d) s at owned =
    let entered = if (lockf i s).0 then (if d then forking else serving) else client in
    enter-IsOwned i entered (lockf i s).1 (lockf-IsOwned i s owned) (
      if_holds (λ p. owns p ≡ true → (lockf i s).1.holder ≡ some i) (lockf i s).0
        (if d then forking else serving) client (λ e _. lockf-holder i s e) (λ _ n. absurd (cc)))
run_phase-IsOwned i j forking s at owned = fork-IsOwned i j s owned (owned i (ap owns at))
run_phase-IsOwned i j leaving s at owned = exit_process-IsOwned i s owned
run_phase-IsOwned i j relocking s at owned =
    if_holds IsOwned (lockf i s).0 (enter i serving (lockf i s).1) (exit_process i (lockf i s).1)
      (λ e.
        enter-IsOwned i serving (lockf i s).1 (lockf-IsOwned i s owned) (λ _. lockf-holder i s e))
      (λ _. exit_process-IsOwned i (lockf i s).1 (lockf-IsOwned i s owned))
run_phase-IsOwned i j serving s at owned = exit_process-IsOwned i s owned
run_phase-IsOwned i j client s at owned = exit_process-IsOwned i s owned

move-IsOwned : (m : Move) (s : System) → IsOwned s → IsOwned (move m s)
unfolding move
move-IsOwned (launches i d) s owned =
    elim (s.phase i) as (λ p. IsOwned (elim p [ absent ↦ enter i (starting d) s | _ ↦ s ])) [
      | absent ↦ enter-IsOwned i (starting d) s owned (λ n. absurd (cc))
      | forking ↦ owned
      | leaving ↦ owned
      | relocking ↦ owned
      | serving ↦ owned
      | client ↦ owned
      | starting d ↦ owned
    ]
move-IsOwned (runs i j) s owned = run_phase-IsOwned i j (s.phase i) s refl owned

schedule-IsOwned : (ms : List Move) (s : System) → IsOwned s → IsOwned (schedule ms s)
unfolding schedule
schedule-IsOwned [] s owned = owned
schedule-IsOwned (m ∷ ms) s owned = schedule-IsOwned ms (move m s) (move-IsOwned m s owned)

-- In whatever order processes are launched and make their steps, from none, two that run a Buckey are
-- the same process, and it has the lock.
pub schedule-exclusive :
    (ms : List Move) (i j : ℕ)
    → (schedule ms nobody).phase i ≡ serving
    → (schedule ms nobody).phase j ≡ serving
    → (i ≡ j) × ((schedule ms nobody).holder ≡ some i)
schedule-exclusive ms i j at_i at_j =
    let owned = schedule-IsOwned ms nobody (λ k h. absurd (cc)) in
    let by_i = owned i (ap owns at_i) in
    let by_j = owned j (ap owns at_j) in (ground (arith, by_i, by_j), by_i)

move-at : (i j : ℕ) (p : Phase) (s : System) → s.phase i ≡ p → move (runs i j) s ≡ run_phase i j p s
unfolding move
move-at i j p s e = ap (λ q. run_phase i j q s) e

-- The states behind a fork.
abbrev forked : (i j : ℕ) → System → System
forked i j s = enter j relocking (enter i leaving s)

move-forked :
    (i j : ℕ) (s : System)
    → s.phase i ≡ forking
    → s.phase j ≡ absent
    → move (runs i j) s ≡ forked i j s
unfolding run_phase fork
move-forked i j s at_i at_j =
    move-at i j forking s at_i
    ∙ ap (λ p. elim p as (λ _. System) [ absent ↦ forked i j s | _ ↦ exit_process i s ]) at_j

module _ (i j : ℕ) (s : System) (ne : i ≢ j) (has : s.holder ≡ some i) where
  parent_phase : (forked i j s).phase i ≡ leaving
  unfolding enter
  parent_phase = ground (arith, ne)

  child_phase : (forked i j s).phase j ≡ relocking
  unfolding enter
  child_phase = ground arith

  -- The parent exits first.
  child_serves :
      ((run_phase j j relocking (exit_process i (forked i j s))).phase j ≡ serving)
      × ((run_phase j j relocking (exit_process i (forked i j s))).holder ≡ some j)
  unfolding run_phase enter exit_process lockf
  child_serves = (ground (arith, ne, has), ground (arith, ne, has))

  waiting_phase : (exit_process i (forked i j s)).phase j ≡ relocking
  unfolding enter exit_process
  waiting_phase = ground (arith, ne)

  -- The child tries first.
  child_exits : (run_phase j j relocking (forked i j s)) ≡ exit_process j (forked i j s)
  unfolding run_phase enter exit_process lockf
  child_exits = ground (arith, ne, has)

  last_phase : (exit_process j (forked i j s)).phase i ≡ leaving
  unfolding enter exit_process
  last_phase = ground (arith, ne)

  both_gone :
      ((exit_process i (exit_process j (forked i j s))).holder ≡ none)
      × ((k : ℕ)
          → (exit_process i (exit_process j (forked i j s))).phase k
            ≡ (if k == i || k == j then absent else s.phase k))
  unfolding enter exit_process
  both_gone = (ground (arith, ne, has), λ k. ground (arith, ne))

-- Where a process with the lock is about to fork a daemon with a free process id: if the parent exits
-- before the child tries the lock, the child runs a Buckey and has the lock; if the child is first,
-- both are gone, nobody has the lock, and every other process is in the phase that it was in.
pub schedule-fork_races :
    (i j : ℕ) (s : System)
    → i ≢ j
    → s.phase i ≡ forking
    → s.phase j ≡ absent
    → s.holder ≡ some i
    → ((schedule (runs i j ∷ runs i j ∷ runs j j ∷ []) s).phase j ≡ serving)
      × ((schedule (runs i j ∷ runs i j ∷ runs j j ∷ []) s).holder ≡ some j)
      × ((schedule (runs i j ∷ runs j j ∷ runs i j ∷ []) s).holder ≡ none)
      × ((k : ℕ)
          → (schedule (runs i j ∷ runs j j ∷ runs i j ∷ []) s).phase k
            ≡ (if k == i || k == j then absent else s.phase k))
unfolding schedule run_phase
schedule-fork_races i j s ne at_i at_j has =
    let first = move-forked i j s at_i at_j in
    let Q = λ (t : System). (t.phase j ≡ serving) × (t.holder ≡ some j) in
    let R = λ (t : System).
      (t.holder ≡ none)
      × ((k : ℕ) → t.phase k ≡ (if k == i || k == j then absent else s.phase k)) in
    let parent_first : move (runs j j) (move (runs i j) (move (runs i j) s))
        ≡ run_phase j j relocking (exit_process i (forked i j s)) =
      ap (λ t. move (runs j j) (move (runs i j) t)) first
      ∙ ap (move (runs j j)) (move-at i j leaving (forked i j s) (parent_phase i j s ne has))
      ∙ move-at j j relocking (exit_process i (forked i j s)) (waiting_phase i j s ne has) in
    let child_first : move (runs i j) (move (runs j j) (move (runs i j) s))
        ≡ exit_process i (exit_process j (forked i j s)) =
      ap (λ t. move (runs i j) (move (runs j j) t)) first
      ∙ ap (move (runs i j)) (
          move-at j j relocking (forked i j s) (child_phase i j s ne has)
          ∙ child_exits i j s ne has)
      ∙ move-at i j leaving (exit_process j (forked i j s)) (last_phase i j s ne has) in
    let served = subst Q (sym parent_first) (child_serves i j s ne has) in
    let gone = subst R (sym child_first) (both_gone i j s ne has) in
    (served.0, served.1, gone.0, gone.1)
