-- ===== src/Recognizer/Runs.antt =====
-- Steps of all threads in any order, for src/sphinx/SphinxService.cpp. A call that has to wait is made
-- again, and one that ends the program leaves no loop.
use buckey.Common.{
  ℕ, Bool, true, false, not, Option, some, List, [], ◌∷◌, arith, if◌then◌else◌, String, if_holds,
}
use buckey.Decoder.{
  PocketSphinx, SearchMode, ◌>>=◌, update_dictionary, update_acoustic_model, update_jsgf, update_lm,
  update_logging_file, update_search_mode,
}
use buckey.Decoder.Machine.{Returns}
use buckey.Recognizer.{
  Recognizer, Audio, Phase, unstarted, exited, Loop, continuous, press_to_speak,
}
use buckey.Recognizer.Hypotheses.{finish_thread}
use buckey.Recognizer.Continuous.{open_continuous, step_continuous}
use buckey.Recognizer.PressToSpeak.{open_press_to_speak, step_press_to_speak}
use buckey.Recognizer.Apply.{apply_updates}
use buckey.Recognizer.Control.{
  Called, returns, waits, terminates, DecoderConf, start, stop, start_continuous_device_recognition,
  start_press_to_speak_recognition, start_file_recognition, stop_recognition, pause_recognition,
  resume_recognition, press_to_speak_button_down, press_to_speak_button_up, record_audio_to_file,
  start_recording_to_file,
}
use buckey.Recognizer.Words.{add_word, update_all}
use buckey.Recognizer.Sound.{IsSound}
use buckey.Recognizer.Steps.{open_continuous-IsSound, step_continuous-IsSound}
use buckey.Recognizer.Pressing.{open_press_to_speak-IsSound, step_press_to_speak-IsSound}
use buckey.Recognizer.Loops.{if_Returns}
use buckey.Recognizer.Calls.{
  finish_thread-IsSound, pause_recognition-IsSound, resume_recognition-IsSound, add_word-IsSound,
  update_all-IsSound,
}
use buckey.Recognizer.Prompts.{
  on_enter_prompt, on_conversation_end, on_enter_prompt-IsSound, on_conversation_end-IsSound,
}
use buckey.Recognizer.Rounds.{apply_updates-IsSound}
use buckey.Recognizer.Valid.{Returns-bind}
use buckey.Recognizer.Started.{
  Leaves, start_continuous-IsSound, start_press_to_speak-IsSound, start_file-IsSound,
  stop_recognition-IsSound, stop-IsSound, start_lem,
}

-- What a step is told: for the loop whether the device opens and starts, whether the program ends, and
-- what is read.
pub data Step : Type 0 where
  loops : (opens ready killed : Bool) → Audio → Step
  finishes : ℕ → Step
  button_down button_up pauses resumes stops_recognition stops starts_recording : Step
  starts : DecoderConf → Step
  starts_continuous starts_press_to_speak : String → Step
  starts_file records : (opens : Bool) → Step
  adds_word : (word phones : String) → Step
  updates_dictionary updates_acoustic_model updates_jsgf updates_lm updates_log : String → Step
  updates_mode : SearchMode → Step
  applies : (fuel : ℕ) (junk : List ℕ) → Step
  enters_prompt : (type path : String) (fuel : ℕ) (junk : List ℕ) → Step
  ends_conversation : (path : String) (fuel : ℕ) (junk : List ℕ) → Step

abbrev pub is_unstarted : Phase → Bool
is_unstarted unstarted = true
is_unstarted p = false

module _ {L : PocketSphinx} where
  unfoldable pub after_call : Recognizer L → Called (Recognizer L) → Recognizer L
  after_call r (returns r') = r'
  after_call r (waits r') = r'
  after_call r terminates = record r { phase = exited }

  unfoldable pub prologue : (opens ready : Bool) → Loop → Recognizer L → Option (Recognizer L)
  prologue opens ready continuous r = open_continuous opens ready r
  prologue opens ready press_to_speak r = open_press_to_speak opens r

  unfoldable pub pass : (ready killed : Bool) → Audio → Loop → Recognizer L → Option (Recognizer L)
  pass ready killed audio continuous r = step_continuous audio r
  pass ready killed audio press_to_speak r = step_press_to_speak killed ready audio r

  -- The thread of the loop: its prologue, and then its passes.
  unfoldable pub run_thread :
      (opens ready killed : Bool) → Audio → Recognizer L → Option (Recognizer L)
  run_thread opens ready killed audio r =
      if not r.joinable
      then some r
      else if is_unstarted r.phase
      then prologue opens ready r.loop r
      else pass ready killed audio r.loop r

  unfoldable pub step : Step → Recognizer L → Option (Recognizer L)
  step (loops opens ready killed audio) r = run_thread opens ready killed audio r
  step (finishes k) r = finish_thread k r
  step button_down r = some (press_to_speak_button_down r)
  step button_up r = some (press_to_speak_button_up r)
  step pauses r = some (pause_recognition r)
  step resumes r = some (resume_recognition r)
  step stops_recognition r = some (after_call r (stop_recognition r))
  step stops r = some (after_call r (stop r))
  step starts_recording r = some (start_recording_to_file r).0
  step (starts c) r = some (after_call r (start c r))
  step (starts_continuous name) r = some (after_call r (start_continuous_device_recognition name r))
  step (starts_press_to_speak name) r =
      some (after_call r (start_press_to_speak_recognition name r))
  step (starts_file opens) r = some (after_call r (start_file_recognition opens r))
  step (records opens) r = some (record_audio_to_file opens r).0
  step (adds_word word phones) r = add_word word phones r
  step (updates_dictionary path) r = some (update_all (update_dictionary path false) r)
  step (updates_acoustic_model path) r = some (update_all (update_acoustic_model path false) r)
  step (updates_jsgf path) r = some (update_all (update_jsgf path false) r)
  step (updates_lm path) r = some (update_all (update_lm path false) r)
  step (updates_log path) r = some (update_all (update_logging_file path false) r)
  step (updates_mode mode) r = some (update_all (update_search_mode mode false) r)
  step (applies fuel junk) r = do s ← apply_updates fuel junk r; some s.0
  step (enters_prompt type path fuel junk) r = do
    s ← on_enter_prompt type path fuel junk r
    some s.0
  step (ends_conversation path fuel junk) r = do s ← on_conversation_end path fuel junk r; some s.0

  unfoldable pub run : List Step → Recognizer L → Option (Recognizer L)
  run [] r = some r
  run (s ∷ ss) r = do r' ← step s r; run ss r'

  after_call-IsSound :
      (r : Recognizer L) (c : Called (Recognizer L))
      → IsSound r
      → Leaves IsSound c
      → IsSound (after_call r c)
  unfolding after_call
  after_call-IsSound r (returns r') v w = w
  after_call-IsSound r (waits r') v w = w
  after_call-IsSound r terminates v w = v

  prologue-IsSound :
      (o s : Bool) (l : Loop) (r : Recognizer L) → IsSound r → Returns IsSound (prologue o s l r)
  unfolding prologue
  prologue-IsSound o s continuous r v = open_continuous-IsSound o s r v
  prologue-IsSound o s press_to_speak r v = open_press_to_speak-IsSound o r v

  pass-IsSound :
      (s k : Bool) (a : Audio) (l : Loop) (r : Recognizer L)
      → IsSound r
      → Returns IsSound (pass s k a l r)
  unfolding pass
  pass-IsSound s k a continuous r v = step_continuous-IsSound a r v
  pass-IsSound s k a press_to_speak r v = step_press_to_speak-IsSound k s a r v

  run_thread-IsSound :
      (o s k : Bool) (a : Audio) (r : Recognizer L)
      → IsSound r
      → Returns IsSound (run_thread o s k a r)
  unfolding run_thread
  run_thread-IsSound o s k a r v =
      if_Returns IsSound (not r.joinable) (some r) _ (λ _. v)
        (λ _.
          if_Returns IsSound (is_unstarted r.phase) (prologue o s r.loop r) (pass s k a r.loop r)
            (λ _. prologue-IsSound o s r.loop r v) (λ _. pass-IsSound s k a r.loop r v))

  step-IsSound : (s : Step) (r : Recognizer L) → IsSound r → Returns IsSound (step s r)
  unfolding step press_to_speak_button_down press_to_speak_button_up start_recording_to_file
      record_audio_to_file update_dictionary update_acoustic_model update_jsgf update_lm
      update_logging_file update_search_mode
  step-IsSound (loops o s k a) r v = run_thread-IsSound o s k a r v
  step-IsSound (finishes k) r v = finish_thread-IsSound k r v
  step-IsSound button_down r v = v
  step-IsSound button_up r v = v
  step-IsSound pauses r v = pause_recognition-IsSound r v
  step-IsSound resumes r v = resume_recognition-IsSound r v
  step-IsSound stops_recognition r v = after_call-IsSound r _ v (stop_recognition-IsSound r v)
  step-IsSound stops r v = after_call-IsSound r _ v (stop-IsSound r v)
  step-IsSound starts_recording r v =
      if_holds {A = Recognizer L × Bool} (λ s. IsSound s.0) r.recording_file_handle
        (record r { is_recording = false }, true) (r, false) (λ _. v) (λ _. v)
  step-IsSound (starts c) r v =
      after_call-IsSound r _ v
        (start_lem c r (omega (arith, v.in_range)) v.live v.threads_in_range v.spoken)
  step-IsSound (starts_continuous name) r v =
      after_call-IsSound r _ v (start_continuous-IsSound name r v)
  step-IsSound (starts_press_to_speak name) r v =
      after_call-IsSound r _ v (start_press_to_speak-IsSound name r v)
  step-IsSound (starts_file opens) r v = after_call-IsSound r _ v (start_file-IsSound opens r v)
  step-IsSound (records opens) r v =
      if_holds {A = Recognizer L × Bool} (λ s. IsSound s.0) opens
        (record r { recording_file_handle = true; recorded = []; is_recording = true }, true)
        (record r { recording_file_handle = false }, false) (λ _. v) (λ _. v)
  step-IsSound (adds_word w p) r v = add_word-IsSound w p r v
  step-IsSound (updates_dictionary path) r v =
      update_all-IsSound (update_dictionary path false) r (λ d l. ground arith) v
  step-IsSound (updates_acoustic_model path) r v =
      update_all-IsSound (update_acoustic_model path false) r (λ d l. ground arith) v
  step-IsSound (updates_jsgf path) r v =
      update_all-IsSound (update_jsgf path false) r (λ d l. ground arith) v
  step-IsSound (updates_lm path) r v =
      update_all-IsSound (update_lm path false) r (λ d l. ground arith) v
  step-IsSound (updates_log path) r v =
      update_all-IsSound (update_logging_file path false) r (λ d l. ground arith) v
  step-IsSound (updates_mode mode) r v =
      update_all-IsSound (update_search_mode mode false) r (λ d l. ground arith) v
  step-IsSound (applies fuel junk) r v =
      Returns-bind (λ s. IsSound s.0) IsSound (apply_updates fuel junk r) _
        (apply_updates-IsSound fuel junk r v) (λ s w. w)
  step-IsSound (enters_prompt type path fuel junk) r v =
      Returns-bind (λ s. IsSound s.0) IsSound (on_enter_prompt type path fuel junk r) _
        (on_enter_prompt-IsSound type path fuel junk r v) (λ s w. w)
  step-IsSound (ends_conversation path fuel junk) r v =
      Returns-bind (λ s. IsSound s.0) IsSound (on_conversation_end path fuel junk r) _
        (on_conversation_end-IsSound path fuel junk r v) (λ s w. w)

  pub run-IsSound : (ss : List Step) (r : Recognizer L) → IsSound r → Returns IsSound (run ss r)
  unfolding run
  run-IsSound [] r v = v
  run-IsSound (s ∷ ss) r v =
      Returns-bind IsSound IsSound (step s r) _ (step-IsSound s r v) (run-IsSound ss)
