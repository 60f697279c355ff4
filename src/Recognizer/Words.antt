-- ===== src/Recognizer/Words.antt =====
-- The words and the paths of the decoders in src/sphinx/SphinxService.cpp.
use buckey.Common.{
  ℕ, zero, suc, ◌-◌, Bool, false, ◌||◌, Option, none, some, map, if◌then◌else◌, get_elem?, String,
}
use buckey.Decoder.{
  SearchMode, PocketSphinx, Decoder, ◌>>=◌, update_dictionary, update_acoustic_model, update_jsgf,
  update_lm, update_logging_file, update_search_mode,
}
use buckey.Recognizer.{Recognizer, on_decoder, is_error, is_not_initialized}

module _ {L : PocketSphinx} where
  -- The answer of the current decoder, if it is ready at one of the turns.
  unfoldable pub ask : Decoder L → String → (turns : ℕ) → Option (Option Bool)
  ask d word zero = some none
  ask d word (suc turns) =
      let rest = ask d word turns in
      if d.ready then (do b ← buckey.Decoder.word_exists word d; some (some b)) else rest

  -- One pass of the wait; no decoder is asked if there are no turns.
  unfoldable pub ask_current : String → (turns : ℕ) → Recognizer L → Option (Option Bool)
  ask_current word zero r = some none
  ask_current word (suc turns) r = do d ← get_elem? r.decoders r.current; ask d word (suc turns)

  -- The loop waits until an answer is found; `some none` is a loop that has not found one within its
  -- fuel of passes.
  unfoldable pub word_exists : ℕ → String → Recognizer L → Option (Option Bool)
  word_exists zero word r = some none
  word_exists (suc fuel) word r =
      let rest = word_exists fuel word r in
      do
        answer ← ask_current word (r.max_decoders - 1) r
        elim answer [ none ↦ rest | some b ↦ some (some b) ]

  -- One turn adds the word to the current decoder, unless that is in error or not initialised.
  unfoldable pub add_to_current : (word phones : String) → Decoder L → Option (Decoder L)
  add_to_current word phones d =
      if is_error d.state || is_not_initialized d.state
      then some d
      else buckey.Decoder.add_word word phones d

  unfoldable pub add_turns :
      (word phones : String) → (turns : ℕ) → Recognizer L → Option (Recognizer L)
  unfolding add_to_current
  add_turns word phones zero r = some r
  add_turns word phones (suc turns) r = do
    r' ← on_decoder r.current (add_to_current word phones) r
    add_turns word phones turns r'

  unfoldable pub add_word : (word phones : String) → Recognizer L → Option (Recognizer L)
  unfolding add_turns
  add_word word phones r = add_turns word phones (r.max_decoders - 1) r

  -- The six updates of all decoders, without a reload.
  unfoldable pub update_all : (Decoder L → Decoder L) → Recognizer L → Recognizer L
  update_all f r = record r { decoders = map f r.decoders }

  abbrev pub update_dictionaries : String → Recognizer L → Recognizer L
  update_dictionaries path = update_all (update_dictionary path false)

  abbrev pub update_acoustic_models : String → Recognizer L → Recognizer L
  update_acoustic_models path = update_all (update_acoustic_model path false)

  abbrev pub update_jsgf_path : String → Recognizer L → Recognizer L
  update_jsgf_path path = update_all (update_jsgf path false)

  abbrev pub update_lm_path : String → Recognizer L → Recognizer L
  update_lm_path path = update_all (update_lm path false)

  abbrev pub update_log_path : String → Recognizer L → Recognizer L
  update_log_path path = update_all (update_logging_file path false)

  abbrev pub update_search_modes : SearchMode → Recognizer L → Recognizer L
  update_search_modes mode = update_all (update_search_mode mode false)
