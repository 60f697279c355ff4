-- ===== src/Registry/Samples.antt =====
-- Services and modes for the tests: objects that are a name and a state, and whose methods set the
-- state.
use buckey.Common.{ℕ, refl, true, false, [], ◌∷◌, String}
use buckey.Events.{new_source}
use buckey.Registry.{ServiceState, running, ModeState, started, Hub, Part, KeepsName, Core}
use buckey.Registry.Reload.{Restarts}

abbrev pub World : Type 0
World = Hub ℕ Unit

abbrev pub services : Part ServiceState World
services = record {
  Self = String × ServiceState;
  name = λ s. s.0;
  state = λ s. s.1;
  start = λ s w. ((s.0, running), w);
  stop = λ s w. ((s.0, ServiceState.stopped), w);
  setup_config = λ s w. (s, w);
  setup_assets = λ s w. (s, w);
  set_config_dir = λ s. s;
  set_assets_dir = λ s. s;
  set_state = λ v s. (s.0, v);
}

abbrev pub modes : Part ModeState World
modes = record {
  Self = String × ModeState;
  name = λ s. s.0;
  state = λ s. s.1;
  start = λ s w. ((s.0, started), w);
  stop = λ s w. ((s.0, ModeState.stopped), w);
  setup_config = λ s w. (s, w);
  setup_assets = λ s w. (s, w);
  set_config_dir = λ s. s;
  set_assets_dir = λ s. s;
  set_state = λ v s. (s.0, v);
}

pub services-KeepsName : KeepsName services
services-KeepsName = record {
  name-start = λ s w. refl;
  name-stop = λ s w. refl;
  name-setup_config = λ s w. refl;
  name-setup_assets = λ s w. refl;
  name-set_config_dir = λ s. refl;
  name-set_assets_dir = λ s. refl;
  name-set_state = λ v s. refl;
}

pub modes-KeepsName : KeepsName modes
modes-KeepsName = record {
  name-start = λ s w. refl;
  name-stop = λ s w. refl;
  name-setup_config = λ s w. refl;
  name-setup_assets = λ s w. refl;
  name-set_config_dir = λ s. refl;
  name-set_assets_dir = λ s. refl;
  name-set_state = λ v s. refl;
}

pub parts-Restarts : Restarts services modes
parts-Restarts = record {
  service_runs = λ s h. refl;
  mode_starts = λ m h. refl;
  mode_stops = λ m h. refl;
}

abbrev pub world : World
world = record { source = new_source 0; log = []; other = tt }

-- Two services and two modes; mimic runs and is enabled, core is started and enabled.
abbrev pub sample : Core ℕ Unit services modes
sample = record {
  services = (true, ("mimic", running)) ∷ (false, ("sphinx", ServiceState.stopped)) ∷ [];
  modes = (true, ("core", started)) ∷ (false, ("echo", ModeState.stopped)) ∷ [];
  hub = world;
}

-- The same objects at a start.
abbrev pub at_start : Core ℕ Unit services modes
at_start = record {
  services =
      (false, ("mimic", ServiceState.stopped)) ∷ (false, ("sphinx", ServiceState.stopped)) ∷ [];
  modes = (false, ("core", ModeState.stopped)) ∷ (false, ("echo", ModeState.stopped)) ∷ [];
  hub = world;
}
