-- ===== src/Registry/Modes.antt =====
-- The mode methods of src/core/Buckey.cpp. Unlike those on services, they look at the state of the
-- mode before they start or stop it.
use buckey.Common.{
  ◌≡◌, Bool, true, false, Option, none, some, [], ◌∷◌, ◌++◌, arith, if◌then◌else◌, String,
}
use buckey.Registry.{
  ServiceState, ModeState, started, stopped, error, not_loaded, ◌&◌, mode_note, Hub, trigger,
  log_info, log_warn, log_error, Part, KeepsName, Dirs, Entry, find, act_on, Core,
}
use buckey.Registry.Entries.{KeepsEntryName}

-- The test of startMode and enableMode, and that of stopMode and disableMode.
abbrev pub can_start : ModeState → Bool
can_start started = false
can_start stopped = true
can_start error = false
can_start not_loaded = true

abbrev pub can_stop : ModeState → Bool
can_stop started = true
can_stop stopped = false
can_stop error = true
can_stop not_loaded = false

abbrev pub is_not_loaded : ModeState → Bool
is_not_loaded not_loaded = true
is_not_loaded s = false

-- The state of the mode that a loop found.
abbrev pub found_mode_state : {W : Type 0} (M : Part ModeState W) → Option (Entry M) → ModeState
found_mode_state M none = not_loaded
found_mode_state M (some (_, m)) = M.state m

module _ {H X : Type 0} (M : Part ModeState (Hub H X)) where
  open M use {Self, name, state, start, stop}

  -- A mode is started, with a line in the log and an event, if its state allows it.
  start_if : String → String → Entry M → Hub H X → Entry M × Hub H X
  start_if verb event (on, m) h =
      let begun = start m (log_info (verb & name m) h) in
      if can_start (state m)
      then ((on, begun.0), trigger event (mode_note (name begun.0)) begun.1)
      else ((on, m), h)

  stop_if : String → String → Entry M → Hub H X → Entry M × Hub H X
  stop_if verb event (on, m) h =
      let ended = stop m (log_info (verb & name m) h) in
      if can_stop (state m)
      then ((on, ended.0), trigger event (mode_note (name ended.0)) ended.1)
      else ((on, m), h)

  unfoldable pub starting_mode : Entry M → Hub H X → Entry M × Hub H X
  unfolding start_if
  starting_mode e h = start_if "Starting mode " "onModeStartEvent" e h

  unfoldable pub stopping_mode : Entry M → Hub H X → Entry M × Hub H X
  unfolding stop_if
  stopping_mode e h = stop_if "Stopping mode " "onModeStopEvent" e h

  unfoldable pub enabling_mode : Entry M → Hub H X → Entry M × Hub H X
  unfolding start_if
  enabling_mode (on, m) h = start_if "Enabling mode " "onModeEnableEvent" (true, m) h

  unfoldable pub disabling_mode : Entry M → Hub H X → Entry M × Hub H X
  unfolding stop_if
  disabling_mode (on, m) h = stop_if "Disabling mode " "onModeDisableEvent" (false, m) h

  -- The directory of a mode is created if it is missing, and then set up.
  ready_mode_dir :
      Bool
      → Bool
      → String
      → String
      → (Self → Hub H X → Self × Hub H X)
      → Self
      → Hub H X
      → Self × Hub H X
  ready_mode_dir present created missing failed setup s h =
      if present
      then (s, h)
      else if created
      then setup s (log_warn missing h)
      else (s, log_error failed (log_warn missing h))

module _ {H X : Type 0} {S : Part ServiceState (Hub H X)} {M : Part ModeState (Hub H X)} where
  open M use {Self, name, setup_config, setup_assets, set_config_dir, set_assets_dir}

  -- A loop over the modes that acts on the first one with the name.
  unfoldable pub on_mode :
      String → (Entry M → Hub H X → Entry M × Hub H X) → Core H X S M → Core H X S M
  on_mode k f b =
      let after = act_on M k f b.modes b.hub in record b { modes = after.0; hub = after.1 }

  unfoldable pub start_mode : String → Core H X S M → Core H X S M
  unfolding on_mode starting_mode
  start_mode k b = on_mode k (starting_mode M) b

  unfoldable pub stop_mode : String → Core H X S M → Core H X S M
  unfolding on_mode stopping_mode
  stop_mode k b = on_mode k (stopping_mode M) b

  unfoldable pub enable_mode : String → Core H X S M → Core H X S M
  unfolding on_mode enabling_mode
  enable_mode k b = on_mode k (enabling_mode M) b

  unfoldable pub disable_mode : String → Core H X S M → Core H X S M
  unfolding on_mode disabling_mode
  disable_mode k b = on_mode k (disabling_mode M) b

  unfoldable pub reload_mode : String → Core H X S M → Core H X S M
  unfolding start_mode stop_mode
  reload_mode k b = start_mode k (stop_mode k b)

  unfoldable pub get_mode_state : String → Core H X S M → ModeState
  unfolding find
  get_mode_state k b = found_mode_state M (find M k b.modes)

  unfoldable pub register_mode : Dirs → Self → Core H X S M → Core H X S M
  unfolding get_mode_state ready_mode_dir
  register_mode d m0 b =
      let (m1, h1) =
        ready_mode_dir M d.assets_is_directory d.assets_created
          ("Could not find assets directory for mode " & name m0 & ", setting one up...")
          ("Unable to create assets directory for mode " & name m0 & "!") setup_assets m0 b.hub in
      let (m2, h2) =
        ready_mode_dir M d.config_is_directory d.config_created
          ("Could not find config directory for mode " & name m1 & ", setting one up...")
          ("Unable to create config directory for mode " & name m1 & "!") setup_config m1 h1 in
      let m3 = set_config_dir (set_assets_dir m2) in
      if is_not_loaded (get_mode_state (name m0) b)
      then (record b {
        modes = b.modes ++ (false, m3) ∷ [];
        hub = trigger "onModeRegisterEvent" (mode_note (name m3)) h2;
      })
      else b

module _ {H X : Type 0} {M : Part ModeState (Hub H X)} (K : KeepsName M) where
  pub starting_mode-keeps : KeepsEntryName M (starting_mode M)
  unfolding starting_mode
  starting_mode-keeps (on, m) h =
      ground (arith, K.name-start m (log_info ("Starting mode " & M.name m) h))

  pub stopping_mode-keeps : KeepsEntryName M (stopping_mode M)
  unfolding stopping_mode
  stopping_mode-keeps (on, m) h =
      ground (arith, K.name-stop m (log_info ("Stopping mode " & M.name m) h))

  pub enabling_mode-keeps : KeepsEntryName M (enabling_mode M)
  unfolding enabling_mode
  enabling_mode-keeps (on, m) h =
      ground (arith, K.name-start m (log_info ("Enabling mode " & M.name m) h))

  pub disabling_mode-keeps : KeepsEntryName M (disabling_mode M)
  unfolding disabling_mode
  disabling_mode-keeps (on, m) h =
      ground (arith, K.name-stop m (log_info ("Disabling mode " & M.name m) h))

module _ {H X : Type 0} (M : Part ModeState (Hub H X)) where
  pub enabling_mode-flag : (e : Entry M) (h : Hub H X) → (enabling_mode M e h).0.0 ≡ true
  unfolding enabling_mode
  enabling_mode-flag (on, m) h = ground arith
