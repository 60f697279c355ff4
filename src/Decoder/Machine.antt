-- ===== src/Decoder/Machine.antt =====
-- The state machine of a decoder: no guarded call faults, and which moves there are.
use buckey.Common.{
  ◌≡◌, inl, inr, Bool, true, false, ◌&&◌, Option, none, some, List, [], ◌∷◌, arith, Option-cases,
  String,
}
use buckey.Decoder.{
  SearchMode, DecoderState, utterance_started, utterance_ending, idle, not_initialized, error,
  PocketSphinx, Decoder, reload_decoder, new_decoder, start_utterance, end_utterance,
  get_hypothesis, update_acoustic_model, update_dictionary, update_jsgf, update_lm,
  update_logging_file, update_search_mode, ◌>>=◌,
}

abbrev is_none {ℓ} : {A : Type ℓ} → Option A → Bool
is_none none = true
is_none (some a) = false

-- The states that promise a decoder of the library.
abbrev pub needs_ps : DecoderState → Bool
needs_ps utterance_started = true
needs_ps utterance_ending = true
needs_ps idle = true
needs_ps not_initialized = false
needs_ps error = false

abbrev is_idle : DecoderState → Bool
is_idle idle = true
is_idle s = false

-- A call returned, and what it returned has the property.
abbrev pub Returns {ℓ} : {A : Type ℓ} → (A → Type 0) → Option A → Type 0
Returns P none = ⊥
Returns P (some a) = P a

-- The calls on a decoder but for those on its dictionary and its audio, which it does not guard.
pub data Call : Type 0 where
  starts ends hypotheses reloads : Call
  sets_acoustic_model sets_dictionary sets_jsgf sets_lm sets_log : String → Bool → Call
  sets_mode : SearchMode → Bool → Call

module _ {L : PocketSphinx} where
  -- A decoder that is idle or in an utterance has a decoder of the library, and an idle one is not
  -- ready.
  pub record IsValid (d : Decoder L) : Type 0 where
    pub alive : (needs_ps d.state && is_none d.ps) ≡ false
    pub at_rest : (is_idle d.state && d.ready) ≡ false

  reload_decoder-IsValid : (d : Decoder L) → IsValid (reload_decoder d)
  unfolding reload_decoder
  reload_decoder-IsValid d = ground arith

  new_decoder-IsValid :
      (name file : String) (mode : SearchMode) (hmm dict log : String) (do_init : Bool)
      → IsValid (new_decoder {L = L} name file mode hmm dict log do_init)
  unfolding new_decoder
  new_decoder-IsValid name file mode hmm dict log do_init = ground arith

  start_utterance-IsValid : (d : Decoder L) → IsValid d → Returns IsValid (start_utterance d)
  unfolding start_utterance
  start_utterance-IsValid d v = ground arith

  end_utterance-IsValid : (d : Decoder L) → IsValid d → Returns IsValid (end_utterance d)
  unfolding end_utterance
  end_utterance-IsValid d v = ground arith

  get_hypothesis-IsValid :
      (d : Decoder L) → IsValid d → Returns (λ r. IsValid r.0) (get_hypothesis d)
  unfolding get_hypothesis
  get_hypothesis-IsValid d v = ground arith

  update_acoustic_model-IsValid :
      (path : String) (force : Bool) (d : Decoder L)
      → IsValid d
      → IsValid (update_acoustic_model path force d)
  unfolding update_acoustic_model reload_decoder
  update_acoustic_model-IsValid path force d v = ground arith

  update_dictionary-IsValid :
      (path : String) (force : Bool) (d : Decoder L)
      → IsValid d
      → IsValid (update_dictionary path force d)
  unfolding update_dictionary reload_decoder
  update_dictionary-IsValid path force d v = ground arith

  update_jsgf-IsValid :
      (path : String) (force : Bool) (d : Decoder L)
      → IsValid d
      → IsValid (update_jsgf path force d)
  unfolding update_jsgf reload_decoder
  update_jsgf-IsValid path force d v = ground arith

  update_lm-IsValid :
      (path : String) (force : Bool) (d : Decoder L) → IsValid d → IsValid (update_lm path force d)
  unfolding update_lm reload_decoder
  update_lm-IsValid path force d v = ground arith

  update_logging_file-IsValid :
      (path : String) (force : Bool) (d : Decoder L)
      → IsValid d
      → IsValid (update_logging_file path force d)
  unfolding update_logging_file reload_decoder
  update_logging_file-IsValid path force d v = ground arith

  update_search_mode-IsValid :
      (mode : SearchMode) (force : Bool) (d : Decoder L)
      → IsValid d
      → IsValid (update_search_mode mode force d)
  unfolding update_search_mode reload_decoder
  update_search_mode-IsValid mode force d v = ground arith

  unfoldable pub step : Call → Decoder L → Option (Decoder L)
  step starts d = start_utterance d
  step ends d = end_utterance d
  step hypotheses d = do r ← get_hypothesis d; some r.0
  step reloads d = some (reload_decoder d)
  step (sets_acoustic_model path force) d = some (update_acoustic_model path force d)
  step (sets_dictionary path force) d = some (update_dictionary path force d)
  step (sets_jsgf path force) d = some (update_jsgf path force d)
  step (sets_lm path force) d = some (update_lm path force d)
  step (sets_log path force) d = some (update_logging_file path force d)
  step (sets_mode mode force) d = some (update_search_mode mode force d)

  unfoldable pub run : List Call → Decoder L → Option (Decoder L)
  run [] d = some d
  run (c ∷ cs) d = do d' ← step c d; run cs d'

  step-IsValid : (c : Call) (d : Decoder L) → IsValid d → Returns IsValid (step c d)
  unfolding step
  step-IsValid starts d v = start_utterance-IsValid d v
  step-IsValid ends d v = end_utterance-IsValid d v
  step-IsValid hypotheses d v = elim (Option-cases (get_hypothesis d)) [
    | inl e ↦ absurd (rw e at (get_hypothesis-IsValid d v))
    | inr (r, e) ↦ rw e (rw e at (get_hypothesis-IsValid d v))
  ]
  step-IsValid reloads d v = reload_decoder-IsValid d
  step-IsValid (sets_acoustic_model path force) d v = update_acoustic_model-IsValid path force d v
  step-IsValid (sets_dictionary path force) d v = update_dictionary-IsValid path force d v
  step-IsValid (sets_jsgf path force) d v = update_jsgf-IsValid path force d v
  step-IsValid (sets_lm path force) d v = update_lm-IsValid path force d v
  step-IsValid (sets_log path force) d v = update_logging_file-IsValid path force d v
  step-IsValid (sets_mode mode force) d v = update_search_mode-IsValid mode force d v

  run-IsValid : (cs : List Call) (d : Decoder L) → IsValid d → Returns IsValid (run cs d)
  unfolding run
  run-IsValid [] d v = v
  run-IsValid (c ∷ cs) d v = elim (Option-cases (step c d)) [
    | inl e ↦ absurd (rw e at (step-IsValid c d v))
    | inr (d', e) ↦ rw e (run-IsValid cs d' (rw e at (step-IsValid c d v)))
  ]

-- However a decoder is made and in whatever order its guarded methods are called, none of them hands
-- the library a null decoder: every call returns, and in the end a decoder that is idle or in an
-- utterance has a decoder of the library, and one that is idle is not ready.
pub run-new_decoder :
    (L : PocketSphinx) (name file : String) (mode : SearchMode) (hmm dict log : String)
    (do_init : Bool) (cs : List Call)
    → Returns IsValid (run cs (new_decoder {L = L} name file mode hmm dict log do_init))
run-new_decoder L name file mode hmm dict log do_init cs =
    run-IsValid cs _ (new_decoder-IsValid name file mode hmm dict log do_init)
