-- ===== src/Startup/Processes.antt =====
-- The processes of src/main.cpp and their one lock: main tries it, the daemon's parent exits with it,
-- and the child tries it again. Any order of their steps is a schedule.
use buckey.Common.{ℕ, Bool, true, Option, none, some, List, [], ◌∷◌, ◌==◌, if◌then◌else◌}

-- Where a process is: before lockf in main, in daemonize with the lock, behind fork as the parent or as
-- the child, running its Buckey, or a client of another one.
pub data Phase : Type 0 where
  absent forking leaving relocking serving client : Phase
  starting : (make_daemon : Bool) → Phase

pub record System : Type 0 where
  pub phase : ℕ → Phase
  pub holder : Option ℕ

abbrev pub put : ℕ → Phase → (ℕ → Phase) → ℕ → Phase
put i p phase j = if j == i then p else phase j

unfoldable pub enter : ℕ → Phase → System → System
enter i p s = record s { phase = put i p s.phase }

-- lockf with F_TLOCK: whether the process has the lock.
unfoldable pub lockf : ℕ → System → Bool × System
lockf i s = elim s.holder [ none ↦ (true, record s { holder = some i }) | some j ↦ (j == i, s) ]

-- A process that exits gives up its lock.
unfoldable pub exit_process : ℕ → System → System
unfolding enter
exit_process i s = record (enter i absent s) {
  holder = elim s.holder [ none ↦ none | some j ↦ if j == i then none else some j ];
}

-- The child is the process j. A j that is taken stands for a fork that fails, and for a process that is
-- a daemon already: both end without a Buckey.
unfoldable pub fork : (i j : ℕ) → System → System
unfolding enter exit_process
fork i j s = elim (s.phase j) [
  | absent ↦ enter j relocking (enter i leaving s)
  | _ ↦ exit_process i s
]

-- The next step of a process by its phase.
unfoldable pub run_phase : (i j : ℕ) → Phase → System → System
unfolding lockf enter exit_process fork
run_phase i j absent s = s
run_phase i j (starting make_daemon) s =
    let (locked, s') = lockf i s in
    enter i (if locked then (if make_daemon then forking else serving) else client) s'
run_phase i j forking s = fork i j s
run_phase i j leaving s = exit_process i s
run_phase i j relocking s =
    let (locked, s') = lockf i s in if locked then enter i serving s' else exit_process i s'
run_phase i j serving s = exit_process i s
run_phase i j client s = exit_process i s

-- A process is launched, or makes its next step, where a fork would give the process id j.
pub data Move : Type 0 where
  launches : (i : ℕ) (make_daemon : Bool) → Move
  runs : (i j : ℕ) → Move

unfoldable pub move : Move → System → System
unfolding enter run_phase
move (launches i make_daemon) s = elim (s.phase i) [
  | absent ↦ enter i (starting make_daemon) s
  | _ ↦ s
]
move (runs i j) s = run_phase i j (s.phase i) s

unfoldable pub schedule : List Move → System → System
schedule [] s = s
schedule (m ∷ ms) s = schedule ms (move m s)

abbrev pub nobody : System
nobody = record { phase = λ _. absent; holder = none }
