-- ===== src/Recognizer/PressToSpeak.antt =====
-- manageNonContinuousDecoders of src/sphinx/SphinxService.cpp: the loop of press to speak.
use buckey.Common.{
  ℕ, Bool, true, false, not, ◌&&◌, ◌||◌, Option, some, List, if◌then◌else◌, get_elem?,
}
use buckey.Decoder.{PocketSphinx, ◌>>=◌}
use buckey.Recognizer.{
  Phase, Recognizer, device, file, Audio, read_failed, frames, top, pressed, refreshing, closed,
  returned, blocked, killing, write_recording, try_next_decoder, process_frames, hand_over, refresh,
  begin, is_error,
}

module _ {L : PocketSphinx} where
  unfoldable pub open_device : Bool → Recognizer L → Option (Recognizer L)
  open_device opens r =
      let begun = begin false r in
      elim r.source [
        | file ↦ some (record r { recognizing = false; phase = returned })
        | device ↦
            if opens then begun else some (record r { recognizing = false; phase = returned })
      ]

  unfoldable pub open_press_to_speak : Bool → Recognizer L → Option (Recognizer L)
  unfolding open_device
  open_press_to_speak opens r =
      let opened = open_device opens (record r {
        manage_thread_running = true;
        update_locked = true;
        end_loop = false;
        in_utterance = false;
        voice_detected = false;
      }) in
      if r.update_locked
      then some (record r { manage_thread_running = true; phase = blocked })
      else opened

  unfoldable pub close_press_to_speak : Recognizer L → Recognizer L
  close_press_to_speak r = record r {
    recognizing = false;
    press_to_speak_mode = false;
    press_to_speak_pressed = false;
    manage_thread_running = false;
    phase = closed;
  }

  -- Behind the loop of the reads: unless all ends, the decoder is handed over.
  unfoldable pub released : Bool → Recognizer L → Option (Recognizer L)
  unfolding hand_over close_press_to_speak
  released killed r =
      let handed = hand_over (record r { in_utterance = false; recognizing = false }) in
      if killed || r.end_loop
      then some (close_press_to_speak r)
      else (do r' ← handed; some (record r' { phase = refreshing }))

  -- The current decoder in error and none in its place: the loop of the reads is left.
  unfoldable pub check_pressed : Bool → List ℕ → Recognizer L → Option (Recognizer L)
  unfolding process_frames try_next_decoder killing released
  check_pressed killed fs r = do
    d ← get_elem? r.decoders r.current
    tried ← try_next_decoder r
    if is_error d.state
        then (if tried.1 then process_frames fs tried.0 else killing (released killed) r)
        else process_frames fs r

  -- The source is the device, as the prologue has made sure.
  unfoldable pub read_pressed : Bool → Audio → Recognizer L → Option (Recognizer L)
  unfolding check_pressed write_recording released killing
  read_pressed killed (frames fs) r = check_pressed killed fs (write_recording fs r)
  read_pressed killed read_failed r = killing (released killed) r

  -- The flags tell whether the program ends and whether the recording starts.
  unfoldable pub pass_press_to_speak :
      Phase → (killed starts : Bool) → Audio → Recognizer L → Option (Recognizer L)
  pass_press_to_speak top killed starts audio r =
      if killed || r.end_loop
      then some (close_press_to_speak r)
      else if not r.press_to_speak_pressed
      then some r
      else if starts
      then some (record r { recognizing = true; phase = pressed })
      else some (close_press_to_speak r)
  pass_press_to_speak pressed killed starts audio r =
      let done = released killed r in
      let heard = read_pressed killed audio r in
      if r.press_to_speak_pressed && not r.end_loop && not killed then heard else done
  pass_press_to_speak refreshing killed starts audio r = do
    r' ← refresh r.max_decoders 0 r
    some (record r' { phase = top })
  pass_press_to_speak p killed starts audio r = some r

  -- One pass of the wait for the button, of the reads while it is down, or of the choice behind them.
  unfoldable pub step_press_to_speak :
      (killed starts : Bool) → Audio → Recognizer L → Option (Recognizer L)
  step_press_to_speak killed starts audio r = pass_press_to_speak r.phase killed starts audio r
