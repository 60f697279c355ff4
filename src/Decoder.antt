-- ===== src/Decoder.antt =====
-- src/sphinx/SphinxDecoder.cpp with include/sphinx/SphinxDecoder.h and SphinxHelper.h: one decoder as
-- a state machine over the pocketsphinx library, which is a parameter. A call that would hand the
-- library a null decoder is a fault, `none`; so is one that would hand it the pointer that the
-- constructor leaves unset without doInit. Lines of the log are left out.
pub mod Machine
pub mod Updates
mod Tests
use buckey.Common.{
  ℕ, zero, suc, ◌+◌, ◌-◌, ◌*◌, ◌/◌, ◌%◌, ◌^◌, ◌≤◌, ◌<◌, ◌≡◌, refl, sym, ap, ◌∙◌, subst, ◌≢◌, ◌↔◌,
  ◌⊎◌, inl, inr, Bool, true, false, not, ◌&&◌, ◌||◌, Option, none, some, List, [], ◌∷◌, ◌++◌, map,
  append-nil, append_assoc, arith, ltb, leb, ◌==◌, if◌then◌else◌, Bool-cases, Option-cases, length,
  get_elem?, set, take, drop, concat, length-append, drop-length-append, All, All-append, String,
  str_eq, str_eq_iff, str_eq_refl,
}

pub data SearchMode : Type 0 where
  jsgf lm allphone : SearchMode

pub data DecoderState : Type 0 where
  utterance_started utterance_ending idle not_initialized error : DecoderState

-- The arguments of cmd_ln_init: acoustic model, dictionary, search file and log.
pub data Config : Type 0 where
  lm_config : (hmm dict lm log : String) → Config
  jsgf_config : (hmm dict jsgf log : String) → Config

-- The library: a decoder or null from a configuration (which is indeterminate before the first
-- cmd_ln_init), an utterance's start with its status, its end, its hypothesis or null, and the speech
-- detector.
pub record PocketSphinx : Type 1 where
  pub Ps : Type 0
  pub ps_init : Option Config → Option Ps
  pub ps_start_utt : Ps → Bool × Ps
  pub ps_end_utt : Ps → Ps
  pub ps_get_hyp : Ps → Option String
  pub ps_process_raw : Ps → List ℕ → Ps
  pub ps_get_in_speech : Ps → Bool
  pub ps_add_word : Ps → String → String → Ps
  pub ps_lookup_word : Ps → String → Bool

pub record Decoder (L : PocketSphinx) : Type 0 where
  pub name : String
  pub dictionary_path : String
  pub hmm_path : String
  pub jsgf_path : String
  pub lm_path : String
  pub log_path : String
  pub recognition_mode : SearchMode
  pub ready : Bool
  pub in_utterance : Bool
  pub state : DecoderState
  pub ps : Option L.Ps
  pub config : Option Config

-- The states in which an utterance can be started.
abbrev pub can_start : DecoderState → Bool
can_start utterance_started = false
can_start utterance_ending = true
can_start idle = true
can_start not_initialized = false
can_start error = false

abbrev pub is_started : DecoderState → Bool
is_started utterance_started = true
is_started s = false

-- The states in which getHypothesis asks the library.
abbrev pub has_utterance : DecoderState → Bool
has_utterance utterance_started = true
has_utterance utterance_ending = true
has_utterance idle = false
has_utterance not_initialized = false
has_utterance error = false

infixl 5 ◌>>=◌
abbrev pub ◌>>=◌ {ℓ κ} : {A : Type ℓ} {B : Type κ} → Option A → (A → Option B) → Option B
none >>= f = none
some a >>= f = f a

module _ {L : PocketSphinx} where
  open L use {ps_init, ps_start_utt, ps_end_utt, ps_get_hyp, ps_process_raw, ps_get_in_speech}
  open L use {ps_add_word, ps_lookup_word}

  -- The configuration for the decoder's mode and paths; ALLPHONE makes none and leaves the old one.
  make_config : SearchMode → Decoder L → Option Config
  make_config lm d = some (lm_config d.hmm_path d.dictionary_path d.lm_path d.log_path)
  make_config jsgf d = some (jsgf_config d.hmm_path d.dictionary_path d.jsgf_path d.log_path)
  make_config allphone d = d.config

  -- `ps = ps_init(config)` and the state that follows.
  init_ps : Option Config → Decoder L → Decoder L
  init_ps config d = elim (ps_init config) [
    | none ↦ record d { ps = none; config = config; state = error }
    | some ps ↦ record d { ps = some ps; config = config; state = idle }
  ]

  unfoldable pub reload_decoder : Decoder L → Decoder L
  unfolding make_config init_ps
  reload_decoder d =
      init_ps (make_config d.recognition_mode d)
        (record d { ready = false; state = not_initialized })

  -- The constructor. Only the path of the mode that is asked for is set.
  set_search_path : SearchMode → String → Decoder L → Decoder L
  set_search_path lm file d = record d { lm_path = file }
  set_search_path jsgf file d = record d { jsgf_path = file }
  set_search_path allphone file d = d

  unfoldable pub new_decoder :
      String → String → SearchMode → String → String → String → Bool → Decoder L
  unfolding set_search_path make_config init_ps
  new_decoder name search_file mode hmm dictionary log do_init =
      let d : Decoder L = record {
        name = name;
        dictionary_path = dictionary;
        hmm_path = hmm;
        jsgf_path = "";
        lm_path = "";
        log_path = log;
        recognition_mode = mode;
        ready = false;
        in_utterance = false;
        state = not_initialized;
        ps = none;
        config = none;
      } in
      let with_path = set_search_path mode search_file d in
      if do_init then init_ps (make_config mode with_path) with_path else d

  start_ps : Option L.Ps → Decoder L → Option (Decoder L)
  start_ps none d = none
  start_ps (some ps) d =
      let (ok, ps') = ps_start_utt ps in
      if ok
      then some
          (record d { ps = some ps'; state = utterance_started; ready = true; in_utterance = true })
      else some (record d { ps = some ps'; state = error })

  unfoldable pub start_utterance : Decoder L → Option (Decoder L)
  unfolding start_ps
  start_utterance d = if can_start d.state then start_ps d.ps d else some d

  end_ps : Option L.Ps → Decoder L → Option (Decoder L)
  end_ps none d = none
  end_ps (some ps) d = some (record d {
    ps = some (ps_end_utt ps);
    state = utterance_ending;
    ready = false;
    in_utterance = false;
  })

  unfoldable pub end_utterance : Decoder L → Option (Decoder L)
  unfolding end_ps
  end_utterance d = if is_started d.state then end_ps d.ps d else some d

  hypothesis_ps : Option L.Ps → Decoder L → Option (Decoder L × String)
  hypothesis_ps none d = none
  hypothesis_ps (some ps) d =
      let d' = record d { state = utterance_ending } in
      elim (ps_get_hyp ps) [ none ↦ some (d', "") | some hyp ↦ some (d', hyp) ]

  unfoldable pub get_hypothesis : Decoder L → Option (Decoder L × String)
  unfolding hypothesis_ps
  get_hypothesis d = if has_utterance d.state then hypothesis_ps d.ps d else some (d, "")

  unfoldable pub process_raw_audio : List ℕ → Decoder L → Option (Decoder L × Bool)
  process_raw_audio frames d = elim d.ps [
    | none ↦ none
    | some ps ↦
        let ps' = ps_process_raw ps frames in
        some (record d { ps = some ps' }, ps_get_in_speech ps')
  ]

  unfoldable pub add_word : String → String → Decoder L → Option (Decoder L)
  add_word word phonemes d = elim d.ps [
    | none ↦ none
    | some ps ↦ some (record d { ps = some (ps_add_word ps word phonemes) })
  ]

  unfoldable pub word_exists : String → Decoder L → Option Bool
  word_exists word d = elim d.ps [ none ↦ none | some ps ↦ some (ps_lookup_word ps word) ]

  -- The six updates, each followed by a reload if it is forced.
  forced : Bool → Decoder L → Decoder L
  forced force d = if force then reload_decoder d else d

  unfoldable pub update_acoustic_model : String → Bool → Decoder L → Decoder L
  unfolding forced
  update_acoustic_model path force d = forced force (record d { hmm_path = path })

  unfoldable pub update_dictionary : String → Bool → Decoder L → Decoder L
  unfolding forced
  update_dictionary path force d = forced force (record d { dictionary_path = path })

  unfoldable pub update_jsgf : String → Bool → Decoder L → Decoder L
  unfolding forced
  update_jsgf path force d = forced force (record d { jsgf_path = path })

  unfoldable pub update_lm : String → Bool → Decoder L → Decoder L
  unfolding forced
  update_lm path force d = forced force (record d { lm_path = path })

  unfoldable pub update_logging_file : String → Bool → Decoder L → Decoder L
  unfolding forced
  update_logging_file path force d = forced force (record d { log_path = path })

  unfoldable pub update_search_mode : SearchMode → Bool → Decoder L → Decoder L
  unfolding forced
  update_search_mode mode force d = forced force (record d { recognition_mode = mode })

  -- endAndGetHypothesis of src/sphinx/SphinxService.cpp on the decoder: what was heard is passed on as
  -- an input, unless it is empty, and the decoder starts its next utterance. The line of the log, the
  -- sound and the event of a hypothesis are left out.
  unfoldable pub end_and_get_hypothesis : Decoder L → Option (Decoder L × Option String)
  unfolding end_utterance get_hypothesis start_utterance
  end_and_get_hypothesis d = do
    ended ← end_utterance d
    heard ← get_hypothesis ended
    again ← start_utterance heard.0
    some (again, if str_eq heard.1 "" then none else some heard.1)
