-- ===== src/Recognizer/Tests.antt =====
-- Runs of the recognition service over a small library that hears one word.
use buckey.Common.{
  ℕ, refl, Bool, true, false, not, none, some, List, [], ◌∷◌, arith, ◌==◌, length, String, str_eq,
}
use buckey.Registry.{ServiceState}
use buckey.Decoder.{lm, PocketSphinx, Decoder, utterance_started, error, lm_config}
use buckey.Decoder.Machine.{Returns}
use buckey.Recognizer.{Recognizer, frames, read_failed, top, refreshing, continuous}
use buckey.Recognizer.Control.{DecoderConf, new_recognizer}
use buckey.Recognizer.Apply.{apply_updates}
use buckey.Recognizer.Runs.{
  Step, loops, finishes, button_down, button_up, stops_recognition, pauses, run,
}
use buckey.Recognizer.Applied.{Applied, apply_updates-renews}
use buckey.Recognizer.Closing.{IsClosed}
use buckey.Recognizer.Ending.{stop_recognition-ends}
use buckey.Recognizer.Hanging.{Hangs, apply_updates-one}

-- Its decoder keeps the last frames, and speech is any frame but 0.
abbrev loud : List ℕ → Bool
loud [] = false
loud (x ∷ xs) = not (x == 0)

abbrev library : PocketSphinx
library = record {
  Ps = List ℕ;
  ps_init = λ c. elim c [ none ↦ none | some _ ↦ some [] ];
  ps_start_utt = λ p. (true, p);
  ps_end_utt = λ p. p;
  ps_get_hyp = λ p. some "hello";
  ps_process_raw = λ p frames. frames;
  ps_get_in_speech = loud;
  ps_add_word = λ p word phonemes. p;
  ps_lookup_word = λ p word. str_eq word "hello";
}

abbrev started : String → Decoder library
started name = record {
  name = name;
  dictionary_path = "words.dict";
  hmm_path = "hmm";
  jsgf_path = "";
  lm_path = "words.lm";
  log_path = "log";
  recognition_mode = lm;
  ready = true;
  in_utterance = true;
  state = utterance_started;
  ps = some [];
  config = some (lm_config "hmm" "words.dict" "words.lm" "log");
}

abbrev broken : Decoder library
broken = record (started "broken") { ready = false; state = error }

abbrev listening : List (Decoder library) → Recognizer library
listening ds = record (new_recognizer {L = library} false) {
  decoders = ds;
  max_decoders = length ds;
  recognizing = true;
  manage_thread_running = true;
  joinable = true;
  loop = continuous;
  phase = top;
  state = ServiceState.running;
}

abbrev conf : DecoderConf
conf = record {
  conf_max_decoders = 2;
  speech_device = none;
  default_lm = "words.lm";
  hmm_dir = "hmm";
  dict_dir = "words.dict";
  logfile = "log";
}

abbrev steps : List Step
steps =
    loops true true false read_failed
    ∷ button_down
    ∷ loops true true false (frames [])
    ∷ loops true true false (frames (3 ∷ []))
    ∷ button_up
    ∷ loops true true false (frames [])
    ∷ finishes 0
    ∷ pauses
    ∷ []

apply_updates-renews_example :
    Returns
      (Applied (listening (started "a" ∷ started "b" ∷ [])))
      (apply_updates 3 (7 ∷ 9 ∷ []) (listening (started "a" ∷ started "b" ∷ [])))
unfolding new_recognizer
apply_updates-renews_example =
    apply_updates-renews (listening (started "a" ∷ started "b" ∷ [])) (7 ∷ 9 ∷ []) refl refl refl
      (omega arith) (omega arith) (refl, (refl, tt)) (omega arith, (omega arith, tt))

apply_updates-one_example :
    Returns
      (Hangs (listening (started "a" ∷ [])))
      (apply_updates 5 (7 ∷ []) (listening (started "a" ∷ [])))
unfolding new_recognizer
apply_updates-one_example =
    apply_updates-one 5 (7 ∷ []) (listening (started "a" ∷ [])) (started "a") refl refl refl refl

stop_recognition-ends_example : Returns IsClosed (
    run
      (stops_recognition
        ∷ loops true true false (frames [])
        ∷ loops true true false (frames [])
        ∷ [])
      (record (listening (started "a" ∷ [])) { phase = refreshing }))
unfolding new_recognizer
stop_recognition-ends_example =
    stop_recognition-ends true true false true true false (frames []) (frames [])
      (record (listening (started "a" ∷ [])) { phase = refreshing }) refl refl refl (omega arith)
