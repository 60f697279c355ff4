-- ===== src/Startup/Tests.antt =====
-- Processes, command lines, turns of the loops and a library of files, with small values.
use buckey.Common.{
  ℕ, ◌≡◌, refl, ◌≢◌, inl, inr, Bool, true, false, not, ◌||◌, none, some, List, [], ◌∷◌, ◌++◌, arith,
  ◌==◌, if◌then◌else◌, Option-cases, String, if_holds, str_eq, str_eq_refl,
}
use buckey.Dispatch.{string_starts_with}
use buckey.Startup.{
  Disk, Getopt, Arg, Machine, main_with, main, read_options, bad_option, setup_directories,
  prepare_config, prepare_assets, fresh_tmp, main_in_directory, main_ready, choose,
}
use buckey.Startup.Directories.{is_below, IsLawful, IsReady, setup_directories-IsReady}
use buckey.Startup.Clearing.{main-clears_tmp}
use buckey.Startup.Precedence.{IsGetopt, is_option, wants_value, main-input_refused}
use buckey.Startup.Loops.{signals, sigterm, sighup, Assistant, Turn, command_loop}
use buckey.Startup.Stopping.{
  has_stop, lines_until_stop, all_lines, command_loop-foreground, command_loop-daemon,
}
use buckey.Startup.Processes.{
  absent, forking, serving, System, launches, runs, Move, schedule, nobody, lockf, move, run_phase,
  enter,
}
use buckey.Startup.Exclusion.{schedule-exclusive, schedule-fork_races}

abbrev fresh : Assistant
fresh = record { running = true; killed = false; inputs = []; commands = []; reloads = 0 }

abbrev turns : List Turn
turns =
    record { waiting = []; line = some "list modes"; behind = signals sighup ∷ [] }
    ∷ record { waiting = []; line = none; behind = [] }
    ∷ record { waiting = signals sigterm ∷ []; line = some "lost"; behind = [] }
    ∷ []

command_loop-foreground_example :
    ((command_loop false turns fresh).1 ≡ has_stop turns)
    × ((command_loop false turns fresh).0.inputs ≡ [] ++ lines_until_stop turns)
command_loop-foreground_example = command_loop-foreground turns fresh refl refl

command_loop-daemon_example :
    ((command_loop true turns fresh).1 ≡ false)
    × ((command_loop true turns fresh).0.commands ≡ [] ++ all_lines turns)
command_loop-daemon_example = command_loop-daemon turns fresh refl

abbrev two_started : List Move
two_started = launches 1 false ∷ runs 1 0 ∷ launches 2 false ∷ runs 2 0 ∷ []

schedule-exclusive_example : (◌≡◌ {A = ℕ} 1 1) × ((schedule two_started nobody).holder ≡ some 1)
unfolding schedule move run_phase enter lockf
schedule-exclusive_example = schedule-exclusive two_started 1 1 refl refl

abbrev about_to_fork : System
about_to_fork = record { phase = λ k. if k == 1 then forking else absent; holder = some 1 }

schedule-fork_races_example :
    ((schedule (runs 1 2 ∷ runs 1 2 ∷ runs 2 2 ∷ []) about_to_fork).phase 2 ≡ serving)
    × ((schedule (runs 1 2 ∷ runs 1 2 ∷ runs 2 2 ∷ []) about_to_fork).holder ≡ some 2)
    × ((schedule (runs 1 2 ∷ runs 2 2 ∷ runs 1 2 ∷ []) about_to_fork).holder ≡ none)
    × ((k : ℕ)
        → (schedule (runs 1 2 ∷ runs 2 2 ∷ runs 1 2 ∷ []) about_to_fork).phase k
          ≡ (if k == 1 || k == 2 then absent else (if k == 1 then forking else absent)))
schedule-fork_races_example =
    schedule-fork_races 1 2 about_to_fork (λ e. absurd (omega (arith, e))) refl refl refl

abbrev getopt : Getopt
getopt ls a =
    if is_option a.letter ls
    then (if wants_value a.letter ls
        then (elim a.value [ none ↦ b'?' | some v ↦ a.letter ])
        else a.letter)
    else b'?'

getopt-known :
    (ls : List ℕ) (a : Arg)
    → is_option a.letter ls ≡ true
    → (wants_value a.letter ls ≡ true → a.value ≢ none)
    → getopt ls a ≡ a.letter
getopt-known ls a h w =
    if_holds (λ c. c ≡ a.letter) (is_option a.letter ls) _ b'?'
      (λ _.
        if_holds (λ c. c ≡ a.letter) (wants_value a.letter ls) _ a.letter
          (λ e. elim (Option-cases a.value) [ inl n ↦ absurd (w e n) | inr (v, n) ↦ rw n refl ])
          (λ _. refl))
      (λ e. absurd (cc))

getopt-valueless :
    (ls : List ℕ) (a : Arg) → wants_value a.letter ls ≡ true → a.value ≡ none → getopt ls a ≡ b'?'
getopt-valueless ls a w n =
    if_holds (λ c. c ≡ b'?') (is_option a.letter ls) _ b'?'
      (λ _.
        if_holds (λ c. c ≡ b'?') (wants_value a.letter ls) _ a.letter (λ _. rw n refl)
          (λ e. absurd (cc)))
      (λ _. refl)

getopt-IsGetopt : IsGetopt getopt
getopt-IsGetopt = record {
  known = getopt-known;
  valueless = getopt-valueless;
  unknown = λ ls a h. rw h refl;
}

data Entry : Type 0 where
  nothing file folder : Entry

abbrev is_folder : Entry → Bool
is_folder folder = true
is_folder _ = false

abbrev is_entry : Entry → Bool
is_entry nothing = false
is_entry _ = true

-- A new directory has nothing below it.
abbrev make : String → (String → Entry) → String → Entry
make p fs q =
    if str_eq p q
    then folder
    else if is_below p q
    then (if is_folder (fs p) then fs q else nothing)
    else fs q

abbrev paths : Disk
paths = record {
  Files = String → Entry;
  is_directory = λ p fs. is_folder (fs p);
  is_there = λ p fs. is_entry (fs p);
  create_directory = λ p fs. (true, make p fs);
  write_file = λ p t fs q. if str_eq p q then file else fs q;
  remove_directory_rec =
      λ p fs q. if str_eq p q then nothing else if is_below p q then nothing else fs q;
  load_file = λ p fs. is_entry (fs p);
}

make-keeps :
    (p q : String) (fs : String → Entry)
    → is_below p q ≡ false
    → (is_folder (fs q) ≡ true → is_folder (make p fs q) ≡ true)
      × (is_entry (fs q) ≡ true → is_entry (make p fs q) ≡ true)
make-keeps p q fs out =
    if_holds
      (λ e.
        (is_folder (fs q) ≡ true → is_folder e ≡ true)
        × (is_entry (fs q) ≡ true → is_entry e ≡ true))
      (str_eq p q) folder _ (λ _. (λ h. refl, λ h. refl)) (λ _. rw out (λ h. h, λ h. h))

paths-IsLawful : IsLawful paths
paths-IsLawful = record {
  created = λ p fs h. rw (str_eq_refl p) refl;
  created_empty = λ p q fs gone ne below. rw (ne, below, gone) refl;
  create_keeps = make-keeps;
  write_keeps = λ p t q fs ne h. rw ne h;
  remove_keeps = λ p q fs ne out. rw (ne, out) (λ h. h, λ h. h);
}

-- Another instance runs and has a file below tmp.
abbrev used : String → Entry
used q = if str_eq q "tmp" then folder else if str_eq q "tmp/speech.wav" then file else nothing

abbrev busy : Machine
busy = record {
  has_directory = true;
  makes_directory = false;
  enters_directory = true;
  opens_lock_file = true;
  opens_socket = true;
  connects = true;
  is_locked = true;
}

abbrev command_args : List Arg
command_args =
    record { letter = b'd'; value = none } ∷ record { letter = b'c'; value = some "quit" } ∷ []

setup_directories-IsReady_example :
    (true ≡ not (is_folder (used "config")))
    × IsReady paths-IsLawful (setup_directories paths "" used).1
unfolding setup_directories prepare_config prepare_assets fresh_tmp string_starts_with
setup_directories-IsReady_example =
    setup_directories-IsReady paths-IsLawful "" used {first = true} refl

main-clears_tmp_example :
    is_entry ((main paths getopt "" busy command_args used).1 "tmp/speech.wav") ≡ false
unfolding main read_options choose main_with main_in_directory setup_directories prepare_config
    prepare_assets fresh_tmp main_ready string_starts_with
main-clears_tmp_example =
    main-clears_tmp paths-IsLawful getopt "" busy command_args used "tmp/speech.wav" refl refl

main-input_refused_example :
    main paths getopt "" busy (record { letter = b'i'; value = some "hello" } ∷ command_args) used
    ≡ (bad_option, used)
main-input_refused_example =
    main-input_refused getopt-IsGetopt paths "" busy
      (record { letter = b'i'; value = some "hello" } ∷ command_args) used refl
