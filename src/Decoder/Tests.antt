-- ===== src/Decoder/Tests.antt =====
-- Runs of a decoder over a small library that recognises one word.
use buckey.Common.{ℕ, ◌+◌, true, none, some, [], ◌∷◌, str_eq}
use buckey.Decoder.{lm, PocketSphinx, Decoder, utterance_started, lm_config, new_decoder}
use buckey.Decoder.Machine.{
  Returns, IsValid, starts, ends, hypotheses, sets_dictionary, run, run-new_decoder,
}

-- Its decoder counts the utterances that were started.
abbrev library : PocketSphinx
library = record {
  Ps = ℕ;
  ps_init = λ c. elim c [ none ↦ none | some _ ↦ some 0 ];
  ps_start_utt = λ n. (true, n + 1);
  ps_end_utt = λ n. n;
  ps_get_hyp = λ n. some "hello";
  ps_process_raw = λ n frames. n;
  ps_get_in_speech = λ n. true;
  ps_add_word = λ n word phonemes. n;
  ps_lookup_word = λ n word. str_eq word "hello";
}

abbrev in_utterance : Decoder library
in_utterance = record {
  name = "a";
  dictionary_path = "words.dict";
  hmm_path = "hmm";
  jsgf_path = "";
  lm_path = "words.lm";
  log_path = "log";
  recognition_mode = lm;
  ready = true;
  in_utterance = true;
  state = utterance_started;
  ps = some 1;
  config = some (lm_config "hmm" "words.dict" "words.lm" "log");
}

run-new_decoder_example : Returns IsValid (
    run
      (starts ∷ sets_dictionary "other.dict" true ∷ hypotheses ∷ ends ∷ [])
      (new_decoder {L = library} "a" "words.lm" lm "hmm" "words.dict" "log" true))
run-new_decoder_example =
    run-new_decoder library "a" "words.lm" lm "hmm" "words.dict" "log" true
      (starts ∷ sets_dictionary "other.dict" true ∷ hypotheses ∷ ends ∷ [])
