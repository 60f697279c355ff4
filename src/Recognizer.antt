-- ===== src/Recognizer.antt =====
-- src/sphinx/SphinxService.cpp and include/sphinx/SphinxService.h: the recognition service over its
-- decoders. One thread runs a loop over audio; hypothesis threads end utterances beside it; other
-- threads press the button, pause, stop and update. A step of a thread is one pass of its loop or one
-- call, and the steps come in any order. A call through a null pointer or out of the vector of
-- decoders is a fault, `none`.
pub mod Hypotheses
pub mod Continuous
pub mod PressToSpeak
pub mod Control
pub mod Words
pub mod Apply
pub mod Valid
pub mod Speech
pub mod Sound
pub mod Recovery
pub mod Loops
pub mod Steps
pub mod Calls
pub mod Runs
pub mod Rounds
pub mod Started
pub mod Done
pub mod Passes
pub mod Applied
pub mod Ending
pub mod Hanging
mod Tests
pub mod Closing
pub mod Turns
pub mod Pressing
pub mod Prompts
use buckey.Common.{
  ℕ, zero, suc, ◌+◌, ◌-◌, ◌*◌, ◌/◌, ◌%◌, ◌^◌, ◌≤◌, ◌<◌, ◌≡◌, refl, sym, ap, ◌∙◌, subst, ◌≢◌, ◌↔◌,
  ◌⊎◌, inl, inr, Bool, true, false, not, ◌&&◌, ◌||◌, Option, none, some, List, [], ◌∷◌, ◌++◌, map,
  append-nil, append_assoc, arith, ltb, leb, ◌==◌, if◌then◌else◌, Bool-cases, Option-cases, length,
  get_elem?, set, take, drop, concat, length-append, drop-length-append, All, All-append,
  length-set, get_elem?_of_lt, lt_of_get_elem?, get_elem?-set_self, get_elem?-set_ne, All-set,
  All-get_elem?, String, if_holds, str_eq, str_eq_iff, str_eq_refl,
}
use buckey.Decoder.{
  DecoderState, not_initialized, error, PocketSphinx, Decoder, ◌>>=◌, start_utterance,
  end_utterance,
}
use buckey.Registry.{ServiceState}

pub data RecognitionSource : Type 0 where
  device file : RecognitionSource

pub data SpeechEvent : Type 0 where
  on_start_speech on_end_speech on_pause on_resume on_ready on_service_ready : SpeechEvent
  on_hypothesis : String → SpeechEvent

-- Where the thread of the loop stands: not yet started, at the top of its loop, in the wait of a pause,
-- in the reading while the button is down, before the choice of the next decoder, behind the close of
-- the device, returned early, ended with the process, or in a wait for the update lock or for a
-- decoder that is not initialised.
pub data Phase : Type 0 where
  unstarted top waiting pressed refreshing closed returned exited blocked spinning : Phase

pub data Loop : Type 0 where
  continuous press_to_speak : Loop

-- What a read of audio gives.
pub data Audio : Type 0 where
  read_failed : Audio
  frames : List ℕ → Audio

abbrev pub is_error : DecoderState → Bool
is_error error = true
is_error s = false

abbrev pub is_not_initialized : DecoderState → Bool
is_not_initialized not_initialized = true
is_not_initialized s = false

pub record Recognizer (L : PocketSphinx) : Type 0 where
  pub decoders : List (Decoder L)
  pub current : ℕ
  pub max_decoders : ℕ
  pub in_utterance : Bool
  pub end_loop : Bool
  pub paused : Bool
  pub recognizing : Bool
  pub voice_detected : Bool
  pub is_recording : Bool
  pub press_to_speak_mode : Bool
  pub press_to_speak_pressed : Bool
  pub manage_thread_running : Bool
  pub update_locked : Bool
  pub device_name : String
  pub source : RecognitionSource
  pub recording_file_handle : Bool
  pub recorded : List ℕ
  pub events_killed : Bool
  pub events : List SpeechEvent
  pub hypothesis_threads : List ℕ
  pub inputs : List String
  pub joinable : Bool
  pub loop : Loop
  pub phase : Phase
  pub state : ServiceState

module _ {L : PocketSphinx} where
  -- triggerEvents, which does nothing once killThreads has been called.
  unfoldable pub trigger : SpeechEvent → Recognizer L → Recognizer L
  trigger e r = if r.events_killed then r else record r { events = r.events ++ e ∷ [] }

  unfoldable pub kill_threads : Recognizer L → Recognizer L
  kill_threads r = record r { events_killed = true }

  -- killThreads within a loop: a second call joins the manager thread again, which ends the process.
  unfoldable pub killing :
      (Recognizer L → Option (Recognizer L)) → Recognizer L → Option (Recognizer L)
  unfolding kill_threads
  killing next r =
      let rest = next (kill_threads r) in
      if r.events_killed then some (record r { phase = exited }) else rest

  -- The decoder at an index is replaced by what a call leaves.
  unfoldable pub on_decoder :
      ℕ → (Decoder L → Option (Decoder L)) → Recognizer L → Option (Recognizer L)
  on_decoder i f r = do
    d ← get_elem? r.decoders i
    d' ← f d
    some (record r { decoders = set r.decoders i d' })

  -- The frames are written to the file of the recording.
  unfoldable pub write_recording : List ℕ → Recognizer L → Recognizer L
  write_recording fs r = if r.is_recording then record r { recorded = r.recorded ++ fs } else r

  -- A loop over the decoders that calls each.
  unfoldable pub each_decoder :
      (Decoder L → Option (Decoder L)) → List (Decoder L) → Option (List (Decoder L))
  each_decoder f [] = some []
  each_decoder f (d ∷ ds) = do d' ← f d; ds' ← each_decoder f ds; some (d' ∷ ds')

  -- The search for another decoder when the current one is in error, for i from the current index:
  -- what it tests is the current decoder at each turn.
  unfoldable pub try_decoders : Decoder L → (turns i : ℕ) → Recognizer L → Recognizer L × Bool
  try_decoders d zero i r = (r, false)
  try_decoders d (suc turns) i r =
      let rest = try_decoders d turns (i + 1) r in
      if d.ready then (record r { current = (r.current + i) % 2 ^ 16 }, true) else rest

  unfoldable pub try_next_decoder : Recognizer L → Option (Recognizer L × Bool)
  unfolding try_decoders
  try_next_decoder r = do
    d ← get_elem? r.decoders r.current
    some (try_decoders d (r.max_decoders - 1 - r.current) r.current r)

  -- The frames go to the current decoder; speech that begins is announced.
  unfoldable pub announce_speech : Recognizer L → Recognizer L
  unfolding trigger
  announce_speech r =
      if r.voice_detected && not r.in_utterance
      then record (trigger on_start_speech r) { in_utterance = true }
      else r

  unfoldable pub process_frames : List ℕ → Recognizer L → Option (Recognizer L)
  process_frames fs r = do
    d ← get_elem? r.decoders r.current
    heard ← buckey.Decoder.process_raw_audio fs d
    some (
        announce_speech
          (record r { decoders = set r.decoders r.current heard.0; voice_detected = heard.1 }))

  -- The end of speech is announced.
  unfoldable pub announce_end : Recognizer L → Recognizer L
  unfolding trigger
  announce_end r = record (trigger on_end_speech r) { in_utterance = false }

  -- The current decoder is not ready any more, and a thread is started that ends its utterance.
  unfoldable pub hand_over : Recognizer L → Option (Recognizer L)
  unfolding on_decoder
  hand_over r = do
    r' ← on_decoder r.current (λ d. some (record d { ready = false })) r
    some (record r' { hypothesis_threads = r'.hypothesis_threads ++ r'.current ∷ [] })

  -- The last ready decoder of the first n becomes the current one.
  unfoldable pub refresh : (n i : ℕ) → Recognizer L → Option (Recognizer L)
  refresh zero i r = some r
  refresh (suc n) i r = do
    d ← get_elem? r.decoders i
    refresh n (i + 1) (if d.ready then record r { current = i } else r)

  -- The start of both loops once the device is open: all utterances are started, and the thread waits
  -- for a current decoder that is not initialised. The lock is given back between the two events.
  unfoldable pub begun : Bool → DecoderState → Recognizer L → Recognizer L
  unfolding trigger
  begun recognizing state r =
      let ready = trigger on_ready (record r { recognizing = recognizing }) in
      if is_not_initialized state
      then record r { phase = spinning }
      else record (trigger on_service_ready (record ready { update_locked = false })) {
        phase = top;
      }

  unfoldable pub begin : Bool → Recognizer L → Option (Recognizer L)
  unfolding each_decoder begun
  begin recognizing r = do
    ds ← each_decoder start_utterance r.decoders
    d ← get_elem? ds 0
    some (begun recognizing d.state (record r { decoders = ds; current = 0 }))
