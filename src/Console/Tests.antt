-- ===== src/Console/Tests.antt =====
-- Runs of reply and of commands.
use buckey.Common.{ℕ, ◌≡◌, refl, true, false, some, [], ◌∷◌}
use buckey.Registry.{started, find}
use buckey.Registry.Modes.{get_mode_state}
use buckey.Registry.Samples.{services, modes, modes-KeepsName, parts-Restarts, sample}
use buckey.Console.{Desk, input}
use buckey.Console.Commands.Protected.{input-core_stays}

abbrev desk : Desk ℕ Unit services modes
desk = record {
  core = sample;
  killed = false;
  socket_connected = true;
  shown = [];
  send_calls = [];
}

input-core_stays_example :
    (c : Desk ℕ Unit services modes) × (input ("reload" ∷ "mode" ∷ "core" ∷ []) desk ≡ some c)
    × (get_mode_state "core" c.core ≡ started)
unfolding get_mode_state find
input-core_stays_example =
    input-core_stays modes-KeepsName parts-Restarts "reload" "mode" "core" [] desk refl
