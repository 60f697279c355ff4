-- ===== src/Registry/Tests.antt =====
-- Runs of the operations on services and modes.
use Prim.Native.Char.{Char}
use buckey.Common.{◌≡◌, refl, some, [], arith}
use buckey.Registry.{running, started, names_where, find}
use buckey.Registry.Shutdown.{shutdown, shutdown-quiet}
use buckey.Registry.Samples.{services-KeepsName, modes-KeepsName, parts-Restarts, sample, at_start}
use buckey.Registry.Services.{get_service_state}
use buckey.Registry.Control.{disables, perform, Performed, perform-Performed}
use buckey.Registry.Listing.{
  list_enabled_services, list_enabled_modes, list_services_in_state, list_modes_in_state,
}
use buckey.Registry.Saved.{
  read_core_config, save_services, save_modes, to_chars, write_names, read_core_config-save,
}
use buckey.Registry.Reload.{reload}
use buckey.Registry.Reload.Services.{reload-Runs}

abbrev new_line : Char
new_line = "\n"

-- Disabling mimic.
perform-Performed_example : Performed disables "mimic" sample (perform disables "mimic" sample)
perform-Performed_example = perform-Performed services-KeepsName disables "mimic" sample

reload-Runs_example : get_service_state "mimic" (reload sample) ≡ running
unfolding get_service_state find
reload-Runs_example = reload-Runs services-KeepsName parts-Restarts "mimic" sample refl

read_core_config-save_example :
    (list_enabled_services [] (
        read_core_config new_line
          (some (save_services new_line sample))
          (save_modes new_line sample)
          at_start)
      ≡ list_enabled_services [] sample)
    × (list_enabled_modes [] (
          read_core_config new_line
            (some (save_services new_line sample))
            (save_modes new_line sample)
            at_start)
        ≡ list_enabled_modes [] sample)
unfolding to_chars list_enabled_services list_enabled_modes names_where
read_core_config-save_example =
    read_core_config-save services-KeepsName modes-KeepsName new_line refl sample at_start refl refl
      (refl, (refl, tt)) (refl, (refl, tt)) ((refl, tt), (tt, tt)) ((refl, tt), (tt, tt))
      (ground arith) (ground arith)

shutdown-quiet_example :
    let (files, left) = shutdown new_line sample in
    (list_services_in_state [] running left ≡ [])
    × (list_modes_in_state [] started left ≡ [])
    × (list_enabled_services [] left ≡ list_enabled_services [] sample)
    × (list_enabled_modes [] left ≡ list_enabled_modes [] sample)
    × (files.0 ≡ write_names new_line (list_enabled_services [] left))
    × (files.1 ≡ write_names new_line (list_enabled_modes [] left))
shutdown-quiet_example = shutdown-quiet new_line sample (λ s w. (refl, refl)) (λ s w. (refl, refl))
