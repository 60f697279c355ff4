-- ===== src/Decoder/Updates.antt =====
-- What a decoder is after a forced update, and what it hears between two utterances.
use buckey.Common.{◌≡◌, Bool, true, false, Option, none, some, arith, if◌then◌else◌, String, str_eq}
use buckey.Decoder.{
  SearchMode, jsgf, lm, allphone, utterance_started, idle, error, lm_config, jsgf_config,
  PocketSphinx, Decoder, end_and_get_hypothesis,
}
use buckey.Decoder.Machine.{
  Call, reloads, sets_acoustic_model, sets_dictionary, sets_jsgf, sets_lm, sets_log, sets_mode,
  Returns,
}

-- The calls that make the decoder anew.
abbrev is_forced : Call → Bool
is_forced reloads = true
is_forced (sets_acoustic_model path force) = force
is_forced (sets_dictionary path force) = force
is_forced (sets_jsgf path force) = force
is_forced (sets_lm path force) = force
is_forced (sets_log path force) = force
is_forced (sets_mode mode force) = force
is_forced c = false

-- What a hypothesis becomes: nothing is passed on if there is none or it is empty.
abbrev heard : Option String → Option String
heard none = none
heard (some hyp) = if str_eq hyp "" then none else some hyp

module _ {L : PocketSphinx} where
  -- The configuration is the one that the paths and the mode ask for.
  abbrev Configured : SearchMode → Decoder L → Type 0
  Configured lm d = d.config ≡ some (lm_config d.hmm_path d.dictionary_path d.lm_path d.log_path)
  Configured jsgf d =
      d.config ≡ some (jsgf_config d.hmm_path d.dictionary_path d.jsgf_path d.log_path)
  Configured allphone d = Unit

  abbrev Made : Option L.Ps → Decoder L → Type 0
  Made none d = d.state ≡ error
  Made (some p) d = d.state ≡ idle

  -- The library's decoder is the one that the configuration gives, and the state says whether there is
  -- one.
  pub record IsCurrent (d : Decoder L) : Type 0 where
    pub configured : Configured d.recognition_mode d
    pub initialised : d.ps ≡ L.ps_init d.config
    pub made : Made d.ps d
    pub not_ready : d.ready ≡ false

  -- In the state between two utterances the library has been asked for what was heard in the one, and
  -- for the start of the next.
  pub record Heard (p : L.Ps) (r : Decoder L × Option String) : Type 0 where
    pub passes_on : r.1 ≡ heard (L.ps_get_hyp (L.ps_end_utt p))
    pub next_state :
        r.0.state ≡ (if (L.ps_start_utt (L.ps_end_utt p)).0 then utterance_started else error)
    pub next_ps : r.0.ps ≡ some (L.ps_start_utt (L.ps_end_utt p)).1

  -- At the end of an utterance, a decoder that has started one with the library passes on the
  -- hypothesis of the ended utterance, unless there is none or it is empty, and has asked the
  -- library to start the next one: it is in that utterance, or in the state error if the library
  -- refused.
  pub end_and_get_hypothesis-Heard :
      (d : Decoder L) (p : L.Ps)
      → d.state ≡ utterance_started
      → d.ps ≡ some p
      → Returns (Heard p) (end_and_get_hypothesis d)
  unfolding end_and_get_hypothesis
  end_and_get_hypothesis-Heard d p e f = ground arith
