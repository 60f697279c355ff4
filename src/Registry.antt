-- ===== src/Registry.antt =====
-- The lists of services and modes that src/core/Buckey.cpp keeps (its methods between lines 699 and
-- 1024). A service or a mode is an object behind an interface, the virtual methods of
-- include/core/Service.h and include/core/Mode.h; what these methods can touch besides their object
-- is the hub: the listeners and threads of Buckey's own EventSource, the log file, and the rest.
pub mod Entries
pub mod Services
pub mod Control
pub mod Modes
pub mod Listing
pub mod Flags
pub mod Saved
pub mod Shutdown
pub mod Reload
pub mod Samples
mod Tests
use Prim.Native.String
use buckey.Common.{
  ℕ, zero, suc, ◌+◌, ◌-◌, ◌*◌, ◌/◌, ◌%◌, ◌^◌, ◌≤◌, ◌<◌, ◌≡◌, refl, sym, ap, ◌∙◌, subst, ◌≢◌, ◌↔◌,
  ◌⊎◌, inl, inr, Bool, true, false, not, ◌&&◌, ◌||◌, Option, none, some, List, [], ◌∷◌, ◌++◌, map,
  append-nil, append_assoc, arith, ltb, leb, ◌==◌, if◌then◌else◌, Bool-cases, Option-cases, length,
  get_elem?, set, take, drop, concat, length-append, drop-length-append, All, All-append, String,
  str_eq, str_eq_iff, str_eq_refl,
}
use buckey.Events.{EventSource, trigger_events}

-- ServiceState of include/core/Service.h and ModeState of include/core/Mode.h.
pub data ServiceState : Type 0 where
  running starting stopped error service_not_registered : ServiceState

pub data ModeState : Type 0 where
  started stopped error not_loaded : ModeState

infixr 66 ◌&◌
abbrev pub ◌&◌ : String → String → String
s & t = String.◌++◌ s t

-- ReplyType of include/core/ReplyType.h.
pub data ReplyType : Type 0 where
  conversation alert status critical console prompt : ReplyType

-- The event data of ServiceControlEventData and ModeControlEventData, by the object's name, of
-- OutputEventData, by its message and type, and the blank EventData.
pub data Note : Type 0 where
  service_note mode_note : String → Note
  output_note : String → ReplyType → Note
  blank : Note

pub record Hub (H X : Type 0) : Type 0 where
  pub source : EventSource H Note
  pub log : List String
  pub other : X

module _ {H X : Type 0} where
  unfoldable pub trigger : String → Note → Hub H X → Hub H X
  trigger event note hub = record hub { source = trigger_events event note hub.source }

  unfoldable pub log_info : String → Hub H X → Hub H X
  log_info message hub = record hub { log = hub.log ++ ("INFO: " & message & "\n") ∷ [] }

  unfoldable pub log_warn : String → Hub H X → Hub H X
  log_warn message hub = record hub { log = hub.log ++ ("WARN: " & message & "\n") ∷ [] }

  unfoldable pub log_error : String → Hub H X → Hub H X
  log_error message hub = record hub { log = hub.log ++ ("ERROR: " & message & "\n") ∷ [] }

-- The methods of a class of services or of modes, with the state of its objects.
pub record Part (State : Type 0) (W : Type 0) : Type 1 where
  pub Self : Type 0
  pub name : Self → String
  pub state : Self → State
  pub start : Self → W → Self × W
  pub stop : Self → W → Self × W
  pub setup_config : Self → W → Self × W
  pub setup_assets : Self → W → Self × W
  pub set_config_dir : Self → Self
  pub set_assets_dir : Self → Self
  pub set_state : State → Self → Self

-- No method renames its object.
pub record KeepsName {State W : Type 0} (P : Part State W) : Type 0 where
  pub name-start : (s : P.Self) (w : W) → P.name (P.start s w).0 ≡ P.name s
  pub name-stop : (s : P.Self) (w : W) → P.name (P.stop s w).0 ≡ P.name s
  pub name-setup_config : (s : P.Self) (w : W) → P.name (P.setup_config s w).0 ≡ P.name s
  pub name-setup_assets : (s : P.Self) (w : W) → P.name (P.setup_assets s w).0 ≡ P.name s
  pub name-set_config_dir : (s : P.Self) → P.name (P.set_config_dir s) ≡ P.name s
  pub name-set_assets_dir : (s : P.Self) → P.name (P.set_assets_dir s) ≡ P.name s
  pub name-set_state : (v : State) (s : P.Self) → P.name (P.set_state v s) ≡ P.name s

-- What the file system says when an object is registered: whether each of its directories is there,
-- and whether it can be created.
pub record Dirs : Type 0 where
  pub config_is_directory : Bool
  pub config_created : Bool
  pub assets_is_directory : Bool
  pub assets_created : Bool

-- The loops over a list of entries, the flag first (enabled on startup).
module _ {State W : Type 0} (P : Part State W) where
  open P use {Self, name, state}

  abbrev pub Entry : Type 0
  Entry = Bool × Self

  -- The first entry with the name.
  unfoldable pub find : String → List Entry → Option Entry
  find k [] = none
  find k ((on, s) ∷ es) = if str_eq (name s) k then some (on, s) else find k es

  -- A loop that acts on the first entry with the name and returns.
  unfoldable pub act_on : String → (Entry → W → Entry × W) → List Entry → W → List Entry × W
  act_on k f [] w = ([], w)
  act_on k f ((on, s) ∷ es) w =
      let here = f (on, s) w in
      let there = act_on k f es w in
      if str_eq (name s) k then (here.0 ∷ es, here.1) else ((on, s) ∷ there.0, there.1)

  -- A loop that collects the names of the entries that pass a test.
  unfoldable pub names_where : (Entry → Bool) → List Entry → List String
  names_where p [] = []
  names_where p (e ∷ es) = let rest = names_where p es in if p e then name e.1 ∷ rest else rest

-- The fields services and modes of Buckey, and the hub.
pub record Core (H X : Type 0) (S : Part ServiceState (Hub H X)) (M : Part ModeState (Hub H X))
    : Type 0 where
  pub services : List (Entry S)
  pub modes : List (Entry M)
  pub hub : Hub H X
