-- ===== src/Startup.antt =====
-- The start of the program in src/main.cpp: the directories that setupDirectories makes, over the library
-- of files, which is a parameter, the options that getopt reads, and what main does by them. What the
-- calls of the system answer is a record. The parsing of the configuration file is left out.
pub mod Directories
pub mod Clearing
pub mod Precedence
pub mod Loops
pub mod Turns
pub mod Stopping
pub mod Processes
pub mod Exclusion
mod Tests
use buckey.Common.{
  ℕ, zero, suc, ◌+◌, ◌-◌, ◌*◌, ◌/◌, ◌%◌, ◌^◌, ◌≤◌, ◌<◌, ◌≡◌, refl, sym, ap, ◌∙◌, subst, ◌≢◌, ◌↔◌,
  ◌⊎◌, inl, inr, Bool, true, false, not, ◌&&◌, ◌||◌, Option, none, some, List, [], ◌∷◌, ◌++◌, map,
  append-nil, append_assoc, arith, ltb, leb, ◌==◌, if◌then◌else◌, Bool-cases, Option-cases, length,
  get_elem?, set, take, drop, concat, length-append, drop-length-append, All, All-append,
  length-set, get_elem?_of_lt, lt_of_get_elem?, get_elem?-set_self, get_elem?-set_ne, All-set,
  All-get_elem?, String, if_holds, str_eq, str_eq_iff, str_eq_refl,
}
use buckey.Registry.{◌&◌}

-- The library of files: paths and what is there.
pub record Disk : Type 1 where
  pub Files : Type 0
  pub is_directory : String → Files → Bool
  pub is_there : String → Files → Bool
  pub create_directory : String → Files → Bool × Files
  pub write_file : String → String → Files → Files
  pub remove_directory_rec : String → Files → Files
  pub load_file : String → Files → Bool

abbrev pub config_file : String
config_file = "config/core/buckey.yaml"

module _ (K : Disk) where
  open K use {
    Files, is_directory, is_there, create_directory, write_file, remove_directory_rec, load_file,
  }

  -- A directory with its parts for services and modes; the answers are not looked at.
  unfoldable pub make_parts : String → Files → Files
  make_parts path fs =
      let made = (create_directory path fs).1 in
      let service = (create_directory (path & "/service") made).1 in
      (create_directory (path & "/mode") service).1

  unfoldable pub core_directory : String → Files → Bool × Files
  core_directory path fs = if is_directory path fs then (true, fs) else create_directory path fs

  -- The default configuration is written if there is none.
  unfoldable pub prepare_config : (default : String) → Files → Bool × Files
  unfolding make_parts core_directory
  prepare_config default fs =
      let parts = if is_directory "config" fs then fs else make_parts "config" fs in
      let (made, core) = core_directory "config/core" parts in
      if made
      then (true, (if is_there config_file core then core else write_file config_file default core))
      else (false, core)

  unfoldable pub prepare_assets : Files → Bool × Files
  unfolding make_parts core_directory
  prepare_assets fs =
      core_directory "assets/core" (if is_directory "assets" fs then fs else make_parts "assets" fs)

  -- The old directory is deleted, with a look whether it is gone.
  unfoldable pub fresh_tmp : Files → Bool × Files
  fresh_tmp fs =
      let cleared = remove_directory_rec "tmp" fs in
      if is_directory "tmp" fs
      then (if is_directory "tmp" cleared then (false, cleared) else create_directory "tmp" cleared)
      else create_directory "tmp" fs

  -- Whether this is the first run, or none where the process exits with -1, or is terminated since the
  -- configuration file does not load.
  unfoldable pub setup_directories : (default : String) → Files → Option Bool × Files
  setup_directories default fs =
      let (config_made, configured) = prepare_config default fs in
      let (assets_made, equipped) = prepare_assets configured in
      let (tmp_made, ready) = fresh_tmp equipped in
      if config_made
      then (if assets_made
          then (if tmp_made && load_file config_file ready
              then (some (not (is_directory "config" fs)), ready)
              else (none, ready))
          else (none, equipped))
      else (none, configured)

-- An option on the command line, with the text that is given for it.
pub record Arg : Type 0 where
  pub letter : ℕ
  pub value : Option String

-- getopt: the letter that it returns for an option, by the list of letters.
abbrev pub Getopt : Type 0
Getopt = List ℕ → Arg → ℕ

-- "dhvsc:"
abbrev pub option_letters : List ℕ
option_letters = b'd' ∷ b'h' ∷ b'v' ∷ b's' ∷ b'c' ∷ b':' ∷ []

pub record Options : Type 0 where
  pub make_daemon : Bool
  pub show_help : Bool
  pub show_version : Bool
  pub show_status : Bool
  pub execute_command : Bool
  pub execute_input : Bool
  pub command : Option String

abbrev pub no_options : Options
no_options = record {
  make_daemon = false;
  show_help = false;
  show_version = false;
  show_status = false;
  execute_command = false;
  execute_input = false;
  command = none;
}

-- What the loop over the options goes on with: return 1 is `refused`, exit(-1) is `left`.
pub data Choice : Type 0 where
  chosen : Options → Choice
  refused left : Choice

unfoldable pub choose : ℕ → Option String → Options → Choice
choose c optarg o =
    if c == b'd'
    then chosen (record o { make_daemon = true })
    else if c == b'h'
    then chosen (record o { show_help = true })
    else if c == b'v'
    then chosen (record o { show_version = true })
    else if c == b's'
    then chosen (record o { show_status = true })
    else if c == b'c'
    then chosen (record o { execute_command = true; command = optarg })
    else if c == b'i'
    then chosen (record o { execute_input = true; command = optarg })
    else if c == b'?'
    then refused
    else left

unfoldable pub read_options : Getopt → List Arg → Options → Choice
read_options getopt [] o = chosen o
read_options getopt (a ∷ args) o = elim (choose (getopt option_letters a) a.value o) [
  | chosen o' ↦ read_options getopt args o'
  | refused ↦ refused
  | left ↦ left
]

-- What the system answers: the running directory is there, can be made and can be entered, the lock
-- file opens, a socket opens and connects, and the lock is held by another process.
pub record Machine : Type 0 where
  pub has_directory : Bool
  pub makes_directory : Bool
  pub enters_directory : Bool
  pub opens_lock_file : Bool
  pub opens_socket : Bool
  pub connects : Bool
  pub is_locked : Bool

-- How main ends, or the part of it that follows.
pub data Outcome : Type 0 where
  bad_option bad_letter help version status : Outcome
  no_directory no_entry no_lock_file no_setup no_connection : Outcome
  sends : Option String → Outcome
  client daemon alone : Outcome

-- A command is marked with a colon.
unfoldable pub text_to_send : Options → Option String
text_to_send o = elim o.command [
  | none ↦ none
  | some text ↦ some (if o.execute_command then ":" & text else text)
]

-- From the lock file on, with the directories set up.
unfoldable pub main_ready : Machine → Options → Outcome
main_ready m o =
    if o.execute_command || o.execute_input
    then (if m.opens_socket && m.connects then sends (text_to_send o) else no_connection)
    else if m.is_locked
    then (if m.opens_socket && m.connects then client else no_connection)
    else if o.make_daemon
    then daemon
    else alone

module _ (K : Disk) where
  unfoldable pub main_in_directory :
      (default : String) → Machine → Options → K.Files → Outcome × K.Files
  main_in_directory default m o fs =
      let (first_run, ready) = setup_directories K default fs in
      if o.show_status
      then (status, fs)
      else if not m.opens_lock_file
      then (no_lock_file, fs)
      else (elim first_run [ none ↦ (no_setup, ready) | some first ↦ (main_ready m o, ready) ])

  unfoldable pub main_with : (default : String) → Machine → Options → K.Files → Outcome × K.Files
  main_with default m o fs =
      if o.show_help
      then (help, fs)
      else if o.show_version
      then (version, fs)
      else if not (m.has_directory || m.makes_directory)
      then (no_directory, fs)
      else if not m.enters_directory
      then (no_entry, fs)
      else main_in_directory default m o fs

  unfoldable pub main :
      Getopt → (default : String) → Machine → List Arg → K.Files → Outcome × K.Files
  main getopt default m args fs = elim (read_options getopt args no_options) [
    | chosen o ↦ main_with default m o fs
    | refused ↦ (bad_option, fs)
    | left ↦ (bad_letter, fs)
  ]
