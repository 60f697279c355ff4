-- ===== src/Speech/Tests.antt =====
-- Runs of the speech service.
use buckey.Common.{ℕ, ◌≡◌, refl, true, false, some, List, [], ◌∷◌, map, arith}
use buckey.Registry.{running, status}
use buckey.Speech.{Speaker, lower, load_lines}
use buckey.Speech.Prepared.{IsEntry, numbered, prepare_all, line_of, load-prepare_all}
use buckey.Speech.Calls.{Call, outputs, does_async_request, prepares, speaks, stops, run_calls}
use buckey.Speech.Silence.{IsSilent, StillSpeaks, run_calls-stop}

-- "Hi", twice, after a list with the line "#".
abbrev twice : List (List ℕ)
twice = (72 ∷ 105 ∷ []) ∷ (72 ∷ 105 ∷ []) ∷ []

abbrev speaker : Speaker
speaker = record {
  prepared_audio = [];
  last_audio_index = 0;
  prepared_audio_list = 35 ∷ 10 ∷ [];
  history = [];
  currently_speaking = false;
  stop_request = false;
  state = running;
  listening = true;
  events = [];
}

load-prepare_all_example :
    ((prepare_all twice speaker).prepared_audio ≡ numbered 0 (map line_of (map lower twice)))
    × (load_lines 0 [] (prepare_all twice speaker).prepared_audio_list
        ≡ numbered 0 (map lower twice))
load-prepare_all_example =
    let entry : IsEntry (lower (72 ∷ 105 ∷ [])) = record {
      no_newline = ground arith;
      no_nul = ground arith;
      fits = omega arith;
      no_comment = refl;
    } in
    load-prepare_all twice (35 ∷ []) speaker (ground arith) (omega arith) refl refl refl refl
      (entry, (entry, tt)) (omega arith)

-- Output that comes behind the stop, and a request that was made before it.
abbrev afterwards : List Call
afterwards =
    outputs (72 ∷ []) status
    ∷ does_async_request true true (72 ∷ [])
    ∷ prepares (73 ∷ [])
    ∷ speaks true false (74 ∷ [])
    ∷ stops
    ∷ []

run_calls-stop_example :
    (t : Speaker) × (run_calls (stops ∷ afterwards) speaker ≡ some t)
    × IsSilent speaker t
    × StillSpeaks t
run_calls-stop_example = run_calls-stop afterwards speaker refl refl
