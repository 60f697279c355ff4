-- ===== src/SphinxMode/Tests.antt =====
-- Toggles at times of a clock.
use buckey.Common.{
  ℕ, ◌+◌, ◌-◌, ◌≤◌, ◌<◌, ◌≡◌, refl, true, false, not, none, some, [], ◌∷◌, arith, ltb,
  if◌then◌else◌,
}
use buckey.Decoder.{PocketSphinx}
use buckey.Recognizer.Control.{returns, new_recognizer}
use buckey.SphinxMode.{SphinxMode, input}
use buckey.SphinxMode.Toggle.{
  Leads, is_listening, debounce, wrap, input-toggle_twice, input-toggle_wraps,
}

abbrev library : PocketSphinx
library = record {
  Ps = ℕ;
  ps_init = λ c. some 0;
  ps_start_utt = λ p. (true, p);
  ps_end_utt = λ p. p;
  ps_get_hyp = λ p. none;
  ps_process_raw = λ p frames. p;
  ps_get_in_speech = λ p. false;
  ps_add_word = λ p word phonemes. p;
  ps_lookup_word = λ p word. false;
}

abbrev pyramid : SphinxMode library
pyramid = record {
  recognizer = new_recognizer {L = library} false;
  sphinx_running = true;
  last_toggle = 0;
  replies = [];
}

input-toggle_twice_example :
    (m' : SphinxMode library) × (m'' : SphinxMode library) × Leads 300000000 false [] pyramid m'
    × Leads 400000000 false [] m' m''
    × (is_listening m' ≡ not (is_listening pyramid))
    × (is_listening m'' ≡ (
        if ltb (400000000 - 300000000) debounce
        then not (is_listening pyramid)
        else is_listening pyramid))
    × (400000000 - 300000000 < debounce → m'' ≡ m')
    × (debounce ≤ 400000000 - 300000000 → m''.last_toggle ≡ 400000000)
input-toggle_twice_example =
    input-toggle_twice pyramid false [] 300000000 400000000 refl (omega arith) (omega arith)
      (omega arith)

input-toggle_wraps_example : input (wrap + 5) false ("toggle" ∷ []) pyramid ≡ some (returns pyramid)
input-toggle_wraps_example =
    input-toggle_wraps pyramid false [] (wrap + 5) refl (omega arith) (omega arith)
