-- ===== src/Registry/Services.antt =====
-- The service methods of src/core/Buckey.cpp, and what each does to the list on every branch.
use buckey.Common.{◌∙◌, Bool, true, false, Option, none, some, [], ◌∷◌, ◌++◌, if◌then◌else◌, String}
use buckey.Registry.{
  ModeState, ServiceState, stopped, service_not_registered, ◌&◌, service_note, Hub, trigger,
  log_info, log_warn, log_error, Part, KeepsName, Dirs, Entry, find, act_on, Core,
}
use buckey.Registry.Entries.{KeepsEntryName}

abbrev pub is_service_not_registered : ServiceState → Bool
is_service_not_registered service_not_registered = true
is_service_not_registered s = false

-- The state of the service that a loop found.
abbrev pub found_state : {W : Type 0} (S : Part ServiceState W) → Option (Entry S) → ServiceState
found_state S none = service_not_registered
found_state S (some (_, s)) = S.state s

module _ {H X : Type 0} (S : Part ServiceState (Hub H X)) where
  open S use {Self, name, start, stop}

  -- The branches that the loops take at the service that they look for.
  abbrev pub enabling : Entry S → Hub H X → Entry S × Hub H X
  enabling (on, s) h =
      let begun = start s (log_info ("Enabling service " & name s) h) in
      ((true, begun.0), trigger "onServiceEnableEvent" (service_note (name begun.0)) begun.1)

  abbrev pub starting_up : Entry S → Hub H X → Entry S × Hub H X
  starting_up (on, s) h =
      let begun = start s (log_info ("Starting service " & name s) h) in
      ((on, begun.0), trigger "onServiceStartEvent" (service_note (name begun.0)) begun.1)

  abbrev pub reloading : Entry S → Hub H X → Entry S × Hub H X
  reloading (on, s) h =
      let ended = stop s h in let begun = start ended.0 ended.1 in ((on, begun.0), begun.1)

  abbrev pub disabling : Entry S → Hub H X → Entry S × Hub H X
  disabling (on, s) h =
      let ended = stop s h in
      ((false, ended.0), trigger "onServiceDisableEvent" (service_note (name ended.0)) ended.1)

  abbrev pub stopping : Entry S → Hub H X → Entry S × Hub H X
  stopping (on, s) h =
      let ended = stop s h in
      ((on, ended.0), trigger "onServiceStopEvent" (service_note (name ended.0)) ended.1)

  -- The directory of a service is created if it is missing, and then set up.
  ready_dir :
      Bool
      → Bool
      → String
      → String
      → (Self → Hub H X → Self × Hub H X)
      → Self
      → Hub H X
      → Self × Hub H X
  ready_dir present created missing failed setup s h =
      if present
      then (s, h)
      else if created
      then setup s (log_warn missing h)
      else (s, log_error failed (log_warn missing h))

module _ {H X : Type 0} {S : Part ServiceState (Hub H X)} {M : Part ModeState (Hub H X)} where
  open S use {Self, name, setup_config, setup_assets, set_config_dir, set_assets_dir}
  open S use {set_state}

  -- A loop over the services that acts on the first one with the name.
  unfoldable pub on_service :
      String → (Entry S → Hub H X → Entry S × Hub H X) → Core H X S M → Core H X S M
  on_service k f b =
      let after = act_on S k f b.services b.hub in record b { services = after.0; hub = after.1 }

  unfoldable pub enable_service : String → Core H X S M → Core H X S M
  unfolding on_service
  enable_service k b = on_service k (enabling S) b

  unfoldable pub start_service : String → Core H X S M → Core H X S M
  unfolding on_service
  start_service k b = on_service k (starting_up S) b

  unfoldable pub reload_service : String → Core H X S M → Core H X S M
  unfolding on_service
  reload_service k b = on_service k (reloading S) b

  unfoldable pub disable_service : String → Core H X S M → Core H X S M
  unfolding on_service
  disable_service k b = on_service k (disabling S) b

  unfoldable pub stop_service : String → Core H X S M → Core H X S M
  unfolding on_service
  stop_service k b = on_service k (stopping S) b

  unfoldable pub get_service_state : String → Core H X S M → ServiceState
  unfolding find
  get_service_state k b = found_state S (find S k b.services)

  unfoldable pub get_service : String → Core H X S M → Option Self
  unfolding find
  get_service k b = elim (find S k b.services) [ none ↦ none | some (_, s) ↦ some s ]

  unfoldable pub register_service : Dirs → Self → Core H X S M → Core H X S M
  unfolding get_service_state ready_dir
  register_service d s0 b =
      let s1 = set_state stopped s0 in
      let (s2, h2) =
        ready_dir S d.config_is_directory d.config_created
          ("Could not find config directory for service " & name s1 & "! Setting one up...")
          ("Failed to create configuration directory for service "
            & name s1
            & "! Check file permissions!")
          setup_config s1 b.hub in
      let (s3, h3) =
        ready_dir S d.assets_is_directory d.assets_created
          ("Could not find assets directory for service " & name s2 & "! Setting one up...")
          ("Failed to create assets directory for service " & name s2 & "! Check file permissions!")
          setup_assets s2 h2 in
      let s4 = set_assets_dir (set_config_dir s3) in
      if is_service_not_registered (get_service_state (name s0) b)
      then (record b {
        services = b.services ++ (false, s4) ∷ [];
        hub = trigger "onServiceRegisterEvent" (service_note (name s4)) h3;
      })
      else b

module _ {H X : Type 0} {S : Part ServiceState (Hub H X)} (K : KeepsName S) where
  -- The branch of an operation leaves the name of its service.
  pub enabling-keeps : KeepsEntryName S (enabling S)
  enabling-keeps (on, s) h = K.name-start s _

  pub starting_up-keeps : KeepsEntryName S (starting_up S)
  starting_up-keeps (on, s) h = K.name-start s _

  pub reloading-keeps : KeepsEntryName S (reloading S)
  reloading-keeps (on, s) h = K.name-start _ _ ∙ K.name-stop s h

  pub disabling-keeps : KeepsEntryName S (disabling S)
  disabling-keeps (on, s) h = K.name-stop s h

  pub stopping-keeps : KeepsEntryName S (stopping S)
  stopping-keeps (on, s) h = K.name-stop s h
