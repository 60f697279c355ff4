-- ===== src/Recognizer/Control.antt =====
-- The calls of src/sphinx/SphinxService.cpp that start, stop, pause and record. A call that joins the
-- loop's thread waits while that runs; a join of no thread and an assignment to a joinable one end the
-- program. The listeners that start and stop set are left out.
use buckey.Common.{
  ℕ, zero, suc, ◌%◌, ◌^◌, Bool, true, false, not, Option, none, some, List, [], ◌∷◌, ◌++◌,
  if◌then◌else◌, String, str_eq,
}
use buckey.Decoder.{PocketSphinx, Decoder, lm, new_decoder}
use buckey.Registry.{ServiceState}
use buckey.Recognizer.{
  Recognizer, device, file, Phase, unstarted, closed, returned, Loop, continuous, press_to_speak,
  on_pause, on_resume, trigger,
}

-- How a call ends.
pub data Called (A : Type 0) : Type 0 where
  returns : A → Called A
  waits : A → Called A
  terminates : Called A

-- The keys of decoder.conf that start reads; the device may be missing.
pub record DecoderConf : Type 0 where
  pub conf_max_decoders : ℕ
  pub speech_device : Option String
  pub default_lm : String
  pub hmm_dir : String
  pub dict_dir : String
  pub logfile : String

abbrev pub has_ended : Phase → Bool
has_ended closed = true
has_ended returned = true
has_ended p = false

abbrev pub is_running : ServiceState → Bool
is_running ServiceState.running = true
is_running s = false

abbrev pub device_of : Option String → String
device_of none = ""
device_of (some name) = name

module _ {L : PocketSphinx} where
  unfoldable pub launch : Loop → Recognizer L → Recognizer L
  launch l r = record r { loop = l; phase = unstarted; joinable = true }

  -- The join before a new thread is made.
  unfoldable pub join_loop : Recognizer L → Called (Recognizer L)
  join_loop r =
      if r.joinable
      then (if has_ended r.phase then returns (record r { joinable = false }) else waits r)
      else returns r

  unfoldable pub relaunch : Loop → Bool → Called (Recognizer L) → Called (Recognizer L)
  unfolding launch
  relaunch l mode (returns r) = returns (launch l (record r { press_to_speak_mode = mode }))
  relaunch l mode (waits r) = waits r
  relaunch l mode terminates = terminates

  -- The name of the device is kept if none is given.
  unfoldable pub start_continuous_device_recognition : String → Recognizer L → Called (Recognizer L)
  unfolding join_loop relaunch
  start_continuous_device_recognition name r =
      if r.recognizing
      then returns r
      else relaunch continuous false (
          join_loop (record r {
            source = device;
            device_name = if str_eq name "" then r.device_name else name;
          }))

  -- The name of the device becomes the given one, empty or not.
  unfoldable pub start_press_to_speak_recognition : String → Recognizer L → Called (Recognizer L)
  unfolding join_loop relaunch
  start_press_to_speak_recognition name r =
      if r.recognizing
      then returns r
      else relaunch press_to_speak true
          (join_loop (record r { source = device; device_name = name }))

  -- The flag tells whether the file opens; if not, the process exits.
  unfoldable pub start_file_recognition : Bool → Recognizer L → Called (Recognizer L)
  unfolding launch
  start_file_recognition opens r =
      if not opens
      then terminates
      else if r.joinable
      then terminates
      else returns (launch continuous (record r { source = file }))

  unfoldable pub stop_recognition : Recognizer L → Called (Recognizer L)
  stop_recognition r =
      let stopping = record r { end_loop = true } in
      if not r.manage_thread_running
      then returns stopping
      else if not r.joinable
      then terminates
      else if has_ended r.phase
      then returns (record stopping { joinable = false })
      else waits stopping

  -- The decoders that start makes are added to those there are.
  unfoldable pub base_decoders : ℕ → DecoderConf → List (Decoder L)
  base_decoders zero c = []
  base_decoders (suc n) c =
      new_decoder "base-grammar" c.default_lm lm c.hmm_dir c.dict_dir c.logfile true
      ∷ base_decoders n c

  unfoldable pub now_running : Called (Recognizer L) → Called (Recognizer L)
  now_running (returns r) = returns (record r { state = ServiceState.running })
  now_running (waits r) = waits r
  now_running terminates = terminates

  unfoldable pub start : DecoderConf → Recognizer L → Called (Recognizer L)
  unfolding now_running start_press_to_speak_recognition base_decoders
  start c r =
      let n = c.conf_max_decoders % 2 ^ 16 in
      now_running (
        start_press_to_speak_recognition (device_of c.speech_device) (record r {
          state = ServiceState.starting;
          end_loop = false;
          voice_detected = false;
          recognizing = false;
          is_recording = false;
          paused = false;
          press_to_speak_mode = false;
          press_to_speak_pressed = false;
          max_decoders = n;
          device_name = device_of c.speech_device;
          decoders = r.decoders ++ base_decoders n c;
        }))

  unfoldable pub now_stopped : Called (Recognizer L) → Called (Recognizer L)
  now_stopped (returns r) = returns (record r { state = ServiceState.stopped })
  now_stopped (waits r) = waits r
  now_stopped terminates = terminates

  unfoldable pub stop : Recognizer L → Called (Recognizer L)
  unfolding now_stopped stop_recognition
  stop r = now_stopped (if is_running r.state then stop_recognition r else returns r)

  unfoldable pub pause_recognition : Recognizer L → Recognizer L
  unfolding trigger
  pause_recognition r = trigger on_pause (record r { paused = true })

  unfoldable pub resume_recognition : Recognizer L → Recognizer L
  unfolding trigger
  resume_recognition r = record (trigger on_resume r) { paused = false }

  unfoldable pub press_to_speak_button_down : Recognizer L → Recognizer L
  press_to_speak_button_down r = record r { press_to_speak_pressed = true }

  unfoldable pub press_to_speak_button_up : Recognizer L → Recognizer L
  press_to_speak_button_up r = record r { press_to_speak_pressed = false }

  -- The flag tells whether the file opens for writing.
  unfoldable pub record_audio_to_file : Bool → Recognizer L → Recognizer L × Bool
  record_audio_to_file opens r =
      if opens
      then (record r { recording_file_handle = true; recorded = []; is_recording = true }, true)
      else (record r { recording_file_handle = false }, false)

  unfoldable pub start_recording_to_file : Recognizer L → Recognizer L × Bool
  start_recording_to_file r =
      if r.recording_file_handle then (record r { is_recording = false }, true) else (r, false)

  -- The handle is closed and kept.
  unfoldable pub stop_recording_to_file : Recognizer L → Option (Recognizer L)
  stop_recording_to_file r =
      if r.recording_file_handle then some (record r { is_recording = false }) else none

  -- The constructor; the flag stands for the handle of the recording's file, which it leaves unset.
  unfoldable pub new_recognizer : Bool → Recognizer L
  new_recognizer handle = record {
    decoders = [];
    current = 0;
    max_decoders = 0;
    in_utterance = false;
    end_loop = false;
    paused = false;
    recognizing = false;
    voice_detected = false;
    is_recording = false;
    press_to_speak_mode = false;
    press_to_speak_pressed = false;
    manage_thread_running = false;
    update_locked = false;
    device_name = "";
    source = device;
    recording_file_handle = handle;
    recorded = [];
    events_killed = false;
    events = [];
    hypothesis_threads = [];
    inputs = [];
    joinable = false;
    loop = press_to_speak;
    phase = unstarted;
    state = ServiceState.stopped;
  }
