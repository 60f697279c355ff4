-- ===== src/Registry/Saved.antt =====
-- The files services.enabled and modes.enabled: ~Buckey writes them (src/core/Buckey.cpp, lines 48
-- to 66), and readCoreConfig reads them at the next start (lines 284 to 306). A file is a list of
-- characters.
use Prim.Native.Char.{Char, code}
use mathlib.Core.Path.{ap₂}
use buckey.Common.{
  ℕ, ◌+◌, ◌≤◌, ◌≡◌, refl, ap, ◌∙◌, ◌≢◌, false, Option, none, some, List, [], ◌∷◌, ◌++◌, append-nil,
  append_assoc, arith, ◌==◌, if◌then◌else◌, length, length-append, All, String,
}
use buckey.Registry.Entries.{names}
use buckey.Registry.Services.{enabling, enable_service, enabling-keeps}
use buckey.Registry.Modes.{enabling_mode, enable_mode, enabling_mode-keeps, enabling_mode-flag}
use buckey.Registry.Listing.{list_enabled_services, list_enabled_modes}
use buckey.Registry.Flags.{Distinct, act_on_each, names_where-act_on_each}
use buckey.Registry.{ServiceState, ModeState, Hub, Part, KeepsName, Core}

unfoldable pub to_chars : String → List Char
to_chars String.[] = []
to_chars (String.◌∷◌ c s) = c ∷ to_chars s

unfoldable pub of_chars : List Char → String
of_chars [] = String.[]
of_chars (c ∷ cs) = String.◌∷◌ c (of_chars cs)

abbrev line_end : ℕ
line_end = 10

-- `o->write((s+"\n").c_str(), s.length() + 1)` for each name, where nl is the newline.
unfoldable pub write_names : Char → List String → List Char
unfolding to_chars
write_names nl [] = []
write_names nl (s ∷ rest) = to_chars s ++ nl ∷ write_names nl rest

-- `while(i->getline(buff, 60) && !i->eof())`, with the characters of the line read so far: getline
-- fails once 59 characters are stored and no newline follows, and a last line without one is not used.
read_names_from : List Char → List Char → List String
unfolding of_chars
read_names_from line [] = []
read_names_from line (c ∷ cs) =
    let next = read_names_from [] cs in
    let longer = read_names_from (line ++ c ∷ []) cs in
    if code c == line_end then of_chars line ∷ next else if length line == 59 then [] else longer

unfoldable pub read_names : List Char → List String
unfolding read_names_from
read_names file = read_names_from [] file

-- A name of at most 59 characters, none of them a newline.
abbrev pub IsName : String → Type 0
IsName s = All (λ c. code c ≢ line_end) (to_chars s) × (length (to_chars s) ≤ 59)

of_chars-to_chars : (s : String) → of_chars (to_chars s) ≡ s
unfolding of_chars to_chars
of_chars-to_chars String.[] = refl
of_chars-to_chars (String.◌∷◌ c s) = ap (String.◌∷◌ c) (of_chars-to_chars s)

module _ (nl : Char) (is_newline : code nl ≡ line_end) where
  read_names-line :
      (line cs rest : List Char)
      → All (λ c. code c ≢ line_end) cs
      → length line + length cs ≤ 59
      → read_names_from line (cs ++ nl ∷ rest) ≡ of_chars (line ++ cs) ∷ read_names_from [] rest
  unfolding read_names_from
  read_names-line line [] rest h b = ground (arith, append-nil line)
  read_names-line line (c ∷ cs) rest (h, hs) b = ground (
    arith,
    append_assoc line (c ∷ []) cs,
    length-append line (c ∷ []),
    read_names-line (line ++ c ∷ []) cs rest hs,
  )

  -- What is read from a file of names is what was written, if the names are of at most 59 characters
  -- with no newline among them.
  pub read_names-write_names :
      (ns : List String) → All IsName ns → read_names (write_names nl ns) ≡ ns
  unfolding read_names write_names read_names_from
  read_names-write_names [] h = refl
  read_names-write_names (s ∷ rest) ((h, b), hs) =
      read_names-line [] (to_chars s) (write_names nl rest) h (omega arith)
      ∙ ap₂ ◌∷◌ (of_chars-to_chars s) (read_names-write_names rest hs)

-- What ~Buckey writes to the two files.
module _ {H X : Type 0} {S : Part ServiceState (Hub H X)} {M : Part ModeState (Hub H X)} where
  unfoldable pub save_services : Char → Core H X S M → List Char
  save_services nl b = write_names nl (list_enabled_services [] b)

  unfoldable pub save_modes : Char → Core H X S M → List Char
  save_modes nl b = write_names nl (list_enabled_modes [] b)

  unfoldable pub enable_services : List String → Core H X S M → Core H X S M
  enable_services [] b = b
  enable_services (k ∷ ks) b = enable_services ks (enable_service k b)

  unfoldable pub enable_modes : List String → Core H X S M → Core H X S M
  enable_modes [] b = b
  enable_modes (k ∷ ks) b = enable_modes ks (enable_mode k b)

  -- readCoreConfig: a missing file of services is first written with two names, and the file of modes
  -- is there. The YAML file that it loads at the end is not part of this state.
  unfoldable pub read_core_config :
      Char → Option (List Char) → List Char → Core H X S M → Core H X S M
  read_core_config nl services_enabled modes_enabled b =
      let services_file = elim services_enabled as (λ _. List Char) [
        | none ↦ write_names nl ("mimic" ∷ "sphinx" ∷ [])
        | some file ↦ file
      ] in
      enable_modes (read_names modes_enabled) (enable_services (read_names services_file) b)

  services-enable_services :
      (ks : List String) (b : Core H X S M)
      → (enable_services ks b).services ≡ (act_on_each S (enabling S) ks b.services b.hub).0
  unfolding enable_services enable_service act_on_each
  services-enable_services [] b = refl
  services-enable_services (k ∷ ks) b = services-enable_services ks (enable_service k b)

  modes-enable_services :
      (ks : List String) (b : Core H X S M) → (enable_services ks b).modes ≡ b.modes
  unfolding enable_services enable_service
  modes-enable_services [] b = refl
  modes-enable_services (k ∷ ks) b = modes-enable_services ks (enable_service k b)

  modes-enable_modes :
      (ks : List String) (b : Core H X S M)
      → (enable_modes ks b).modes ≡ (act_on_each M (enabling_mode M) ks b.modes b.hub).0
  unfolding enable_modes enable_mode act_on_each
  modes-enable_modes [] b = refl
  modes-enable_modes (k ∷ ks) b = modes-enable_modes ks (enable_mode k b)

  services-enable_modes :
      (ks : List String) (b : Core H X S M) → (enable_modes ks b).services ≡ b.services
  unfolding enable_modes enable_mode
  services-enable_modes [] b = refl
  services-enable_modes (k ∷ ks) b = services-enable_modes ks (enable_mode k b)

  -- The services and modes that are enabled when the program ends are enabled, in the same order, after
  -- the next start, for which the same services and modes have been registered, all disabled. No two
  -- services and no two modes have one name, no method renames its object, and the enabled names are of
  -- at most 59 characters with no newline among them.
  pub read_core_config-save :
      (KS : KeepsName S) (KM : KeepsName M) (nl : Char) (is_newline : code nl ≡ line_end)
      (old new : Core H X S M)
      → names S new.services ≡ names S old.services
      → names M new.modes ≡ names M old.modes
      → All (λ e. e.0 ≡ false) new.services
      → All (λ e. e.0 ≡ false) new.modes
      → Distinct (names S old.services)
      → Distinct (names M old.modes)
      → All IsName (list_enabled_services [] old)
      → All IsName (list_enabled_modes [] old)
      → let again = read_core_config nl (some (save_services nl old)) (save_modes nl old) new in
        (list_enabled_services [] again ≡ list_enabled_services [] old)
        × (list_enabled_modes [] again ≡ list_enabled_modes [] old)
  unfolding read_core_config save_services save_modes list_enabled_services list_enabled_modes
  read_core_config-save KS KM nl is_newline old new es em os om ds dm ns nm = (
    rw
        (
          read_names-write_names nl is_newline (list_enabled_services [] old) ns,
          services-enable_modes,
          services-enable_services,
        )
        (names_where-act_on_each S (enabling S) (enabling-keeps KS) (λ e w. refl) new.services
          old.services new.hub es os ds),
    rw
        (
          read_names-write_names nl is_newline (list_enabled_modes [] old) nm,
          modes-enable_modes,
          modes-enable_services,
        )
        (names_where-act_on_each M (enabling_mode M) (enabling_mode-keeps KM) (enabling_mode-flag M)
          new.modes old.modes _ em om dm),
  )
