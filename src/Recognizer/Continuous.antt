-- ===== src/Recognizer/Continuous.antt =====
-- manageContinuousDecoders of src/sphinx/SphinxService.cpp: the loop over a device or a file.
use buckey.Common.{
  ℕ, Bool, true, false, not, ◌&&◌, Option, some, List, [], ◌∷◌, if◌then◌else◌, get_elem?,
}
use buckey.Decoder.{PocketSphinx, end_utterance, start_utterance, ◌>>=◌}
use buckey.Recognizer.{
  Phase, Recognizer, RecognitionSource, device, file, Audio, read_failed, frames, top, waiting,
  refreshing, closed, returned, exited, blocked, announce_end, kill_threads, killing, on_decoder,
  write_recording, try_next_decoder, process_frames, hand_over, refresh, begin, is_error,
}

abbrev pub is_nil : List ℕ → Bool
is_nil [] = true
is_nil (x ∷ xs) = false

abbrev pub is_file : RecognitionSource → Bool
is_file file = true
is_file device = false

module _ {L : PocketSphinx} where
  -- The prologue. The flags tell whether the device opens and starts; the early returns keep the update
  -- lock and the flag of the running thread.
  unfoldable pub open_source : (opens starts : Bool) → Recognizer L → Option (Recognizer L)
  open_source opens starts r =
      let begun = begin true r in
      elim r.source [
        | file ↦ begun
        | device ↦
            if opens && starts
            then begun
            else some (record r { recognizing = false; phase = returned })
      ]

  unfoldable pub open_continuous : (opens starts : Bool) → Recognizer L → Option (Recognizer L)
  unfolding open_source
  open_continuous opens starts r =
      let opened = open_source opens starts (record r {
        manage_thread_running = true;
        update_locked = true;
        end_loop = false;
        in_utterance = false;
        voice_detected = false;
      }) in
      if r.update_locked
      then some (record r { manage_thread_running = true; phase = blocked })
      else opened

  unfoldable pub close_continuous : Recognizer L → Recognizer L
  close_continuous r = record r {
    recognizing = false;
    manage_thread_running = false;
    phase = closed;
  }

  -- The end of a file: in an utterance its end is announced and the loop left, else the empty frames
  -- are processed like any.
  unfoldable pub at_end_of_file : Recognizer L → Option (Recognizer L)
  unfolding announce_end hand_over close_continuous
  at_end_of_file r = do
    r' ← hand_over (announce_end r)
    some (close_continuous (record r' { is_recording = false }))

  -- Speech that ends is announced, and the decoder handed over; the next one is chosen after a wait.
  unfoldable pub end_of_speech : Recognizer L → Option (Recognizer L)
  unfolding announce_end hand_over
  end_of_speech r =
      let ended = hand_over (announce_end r) in
      if not r.voice_detected && r.in_utterance
      then (do r' ← ended; some (record r' { phase = refreshing }))
      else some (record r { phase = top })

  unfoldable pub process : List ℕ → Recognizer L → Option (Recognizer L)
  unfolding process_frames end_of_speech
  process fs r = do r' ← process_frames fs r; end_of_speech r'

  -- The pass from the frames on, for a current decoder that is not in error.
  unfoldable pub recognize : List ℕ → Recognizer L → Option (Recognizer L)
  unfolding at_end_of_file process
  recognize fs r =
      if is_nil fs && is_file r.source && r.in_utterance then at_end_of_file r else process fs r

  -- The check for an error of the current decoder; without another one the thread returns.
  unfoldable pub check_decoder : List ℕ → Recognizer L → Option (Recognizer L)
  unfolding recognize try_next_decoder killing
  check_decoder fs r = do
    d ← get_elem? r.decoders r.current
    tried ← try_next_decoder r
    if is_error d.state
        then (if tried.1
            then recognize fs tried.0
            else killing (λ s. some (record s { phase = returned })) r)
        else recognize fs r

  -- What is read. fread never returns a negative count; a failed read of a device ends the process.
  unfoldable pub hear : Audio → Recognizer L → Option (Recognizer L)
  unfolding check_decoder write_recording kill_threads
  hear (frames fs) r = check_decoder fs (write_recording fs r)
  hear read_failed r = elim r.source [
    | file ↦ check_decoder [] r
    | device ↦ some (record (kill_threads r) { phase = exited })
  ]

  -- A pause restarts the utterance of the current decoder, once.
  unfoldable pub enter_pause : Recognizer L → Option (Recognizer L)
  unfolding on_decoder
  enter_pause r = do
    r' ← on_decoder r.current (λ d. do e ← end_utterance d; start_utterance e) r
    some (record r' { in_utterance = false; phase = waiting })

  unfoldable pub pass_continuous : Phase → Audio → Recognizer L → Option (Recognizer L)
  pass_continuous top audio r =
      let heard = hear audio r in
      if r.end_loop
      then some (close_continuous r)
      else if not (is_file r.source) && r.paused
      then enter_pause r
      else heard
  pass_continuous waiting audio r =
      let heard = hear audio r in
      if r.end_loop then some (close_continuous r) else if r.paused then some r else heard
  pass_continuous refreshing audio r = do
    r' ← refresh r.max_decoders 0 r
    some (record r' { phase = top })
  pass_continuous p audio r = some r

  -- One pass of the loop, or of the wait in it.
  unfoldable pub step_continuous : Audio → Recognizer L → Option (Recognizer L)
  step_continuous audio r = pass_continuous r.phase audio r
