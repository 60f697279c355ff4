-- ===== src/Startup/Clearing.antt =====
-- What main of src/main.cpp does to the directory tmp, also where another instance is running.
use buckey.Common.{
  ◌≡◌, sym, subst, inl, inr, Bool, true, false, not, ◌||◌, Option, none, some, List, if◌then◌else◌,
  Option-cases, String, if_holds,
}
use buckey.Startup.{
  Disk, setup_directories, Getopt, Arg, Options, Machine, Outcome, sends, no_connection, client,
  daemon, alone, main_ready, main_in_directory, main_with, main, read_options, no_options, chosen,
  refused, left, no_setup, no_lock_file, help, version, status, no_directory, no_entry, bad_option,
  bad_letter,
}
use buckey.Startup.Directories.{is_below, IsLawful, setup_directories-IsReady}

-- The process gets as far as the lock, or as the socket of another instance.
abbrev pub is_started : Outcome → Bool
is_started (sends text) = true
is_started no_connection = true
is_started client = true
is_started daemon = true
is_started alone = true
is_started _ = false

module _ {K : Disk} (lawful : IsLawful K) where
  -- Nothing is below tmp if the process has started.
  abbrev IsCleared : Outcome × K.Files → Type 0
  IsCleared r =
      is_started r.0 ≡ true → (q : String) → is_below "tmp" q ≡ true → K.is_there q r.1 ≡ false

  main_in_directory-IsCleared :
      (default : String) (m : Machine) (o : Options) (fs : K.Files)
      → IsCleared (main_in_directory K default m o fs)
  unfolding main_in_directory
  main_in_directory-IsCleared default m o fs =
      let ready = setup_directories K default fs in
      let run = λ (first : Option Bool). elim first as (λ _. Outcome × K.Files) [
        | none ↦ (no_setup, ready.1)
        | some first ↦ (main_ready m o, ready.1)
      ] in
      let stop : Outcome × K.Files = (no_lock_file, fs) in
      let locked = if not m.opens_lock_file then stop else run ready.0 in
      if_holds IsCleared o.show_status (status, fs) locked (λ _ n. absurd (cc))
        (λ _.
          if_holds IsCleared (not m.opens_lock_file) stop (run ready.0) (λ _ n. absurd (cc))
            (λ _. elim (Option-cases ready.0) [
              | inl e ↦ subst (λ r. IsCleared (run r)) (sym e) (λ n. absurd (cc))
              | inr (first, e) ↦
                  subst (λ r. IsCleared (run r)) (sym e)
                    (λ _. (setup_directories-IsReady lawful default fs e).1.tmp_is_empty)
            ]))

  main_with-IsCleared :
      (default : String) (m : Machine) (o : Options) (fs : K.Files)
      → IsCleared (main_with K default m o fs)
  unfolding main_with
  main_with-IsCleared default m o fs =
      let inside = main_in_directory K default m o fs in
      let at_entry = if not m.enters_directory then (no_entry, fs) else inside in
      let at_home =
        if not (m.has_directory || m.makes_directory) then (no_directory, fs) else at_entry in
      let at_version = if o.show_version then (version, fs) else at_home in
      if_holds IsCleared o.show_help (help, fs) at_version (λ _ n. absurd (cc))
        (λ _.
          if_holds IsCleared o.show_version (version, fs) at_home (λ _ n. absurd (cc))
            (λ _.
              if_holds IsCleared (not (m.has_directory || m.makes_directory)) (no_directory, fs)
                at_entry (λ _ n. absurd (cc))
                (λ _.
                  if_holds IsCleared (not m.enters_directory) (no_entry, fs) inside
                    (λ _ n. absurd (cc)) (λ _. main_in_directory-IsCleared default m o fs))))

  -- Whatever the options are and whoever has the lock: when main has got as far as sending a command,
  -- becoming a client, or failing to connect, and also when it goes on to run a Buckey, nothing is left
  -- below the directory tmp, which is the one that a running instance uses, if the library of files
  -- keeps its promises.
  pub main-clears_tmp :
      (getopt : Getopt) (default : String) (m : Machine) (args : List Arg) (fs : K.Files)
      (q : String)
      → is_started (main K getopt default m args fs).0 ≡ true
      → is_below "tmp" q ≡ true
      → K.is_there q (main K getopt default m args fs).1 ≡ false
  unfolding main
  main-clears_tmp getopt default m args fs q started below =
      elim (read_options getopt args no_options)
          as (λ c. IsCleared (elim c [
            | chosen o ↦ main_with K default m o fs
            | refused ↦ (bad_option, fs)
            | left ↦ (bad_letter, fs)
          ])) [
            | chosen o ↦ main_with-IsCleared default m o fs
            | refused ↦ λ n. absurd (cc)
            | left ↦ λ n. absurd (cc)
          ]
        started q below
