-- ===== src/Recognizer/Pressing.antt =====
-- The passes of the loop of press to speak in src/sphinx/SphinxService.cpp keep a recognizer sound.
use buckey.Common.{Bool, true, false, not, ◌&&◌, ◌||◌, some, if◌then◌else◌}
use buckey.Decoder.{PocketSphinx}
use buckey.Decoder.Machine.{Returns}
use buckey.Recognizer.{
  Phase, Recognizer, device, file, Audio, read_failed, frames, top, pressed, refreshing, returned,
  kill_threads, killing, write_recording, process_frames, hand_over, begin,
}
use buckey.Recognizer.PressToSpeak.{
  open_device, open_press_to_speak, close_press_to_speak, released, check_pressed, read_pressed,
  step_press_to_speak, pass_press_to_speak,
}
use buckey.Recognizer.Sound.{IsSound, process_frames-IsSound, hand_over-IsSound, silent-IsSound}
use buckey.Recognizer.Valid.{Returns-bind}
use buckey.Recognizer.Loops.{
  if_Returns, killing-IsSound, write_recording-IsSound, begin-IsSound, refreshed-IsSound,
  checked-IsSound,
}

module _ {L : PocketSphinx} where
  open_device-IsSound :
      (o : Bool) (r : Recognizer L) → IsSound r → Returns IsSound (open_device o r)
  unfolding open_device
  open_device-IsSound o r v =
      elim r.source
        as (λ w. Returns IsSound (elim w [
          | file ↦ some (record r { recognizing = false; phase = returned })
          | device ↦
              if o then begin false r else some (record r { recognizing = false; phase = returned })
        ])) [
          | file ↦ v
          | device ↦ if_Returns IsSound o (begin false r) _ (λ _. begin-IsSound false r v) (λ _. v)
        ]

  pub open_press_to_speak-IsSound :
      (o : Bool) (r : Recognizer L) → IsSound r → Returns IsSound (open_press_to_speak o r)
  unfolding open_press_to_speak
  open_press_to_speak-IsSound o r v =
      if_Returns IsSound r.update_locked _ _ (λ _. v)
        (λ _.
          open_device-IsSound o
            (record r {
              manage_thread_running = true;
              update_locked = true;
              end_loop = false;
              in_utterance = false;
              voice_detected = false;
            })
            (silent-IsSound r v))

  released-IsSound : (k : Bool) (r : Recognizer L) → IsSound r → Returns IsSound (released k r)
  unfolding released close_press_to_speak
  released-IsSound k r v =
      if_Returns IsSound (k || r.end_loop) _ _ (λ _. v)
        (λ _.
          Returns-bind IsSound IsSound
            (hand_over (record r { in_utterance = false; recognizing = false })) _
            (hand_over-IsSound (record r { in_utterance = false; recognizing = false })
              (silent-IsSound r v))
            (λ r' v'. v'))

  read_pressed-IsSound :
      (k : Bool) (a : Audio) (r : Recognizer L) → IsSound r → Returns IsSound (read_pressed k a r)
  unfolding read_pressed check_pressed
  read_pressed-IsSound k (frames fs) r v =
      let w = write_recording-IsSound fs r v in
      checked-IsSound (write_recording fs r) (process_frames fs)
        (killing (released k) (write_recording fs r)) w
        (process_frames-IsSound fs (write_recording fs r) w)
        (killing-IsSound (released k) (write_recording fs r) w
          (released-IsSound k (kill_threads (write_recording fs r))))
  read_pressed-IsSound k read_failed r v =
      killing-IsSound (released k) r v (released-IsSound k (kill_threads r))

  pass_press_to_speak-IsSound :
      (p : Phase) (k s : Bool) (a : Audio) (r : Recognizer L)
      → IsSound r
      → Returns IsSound (pass_press_to_speak p k s a r)
  unfolding pass_press_to_speak close_press_to_speak
  pass_press_to_speak-IsSound top k s a r v =
      if_Returns IsSound (k || r.end_loop) (some (close_press_to_speak r)) _ (λ _. v)
        (λ _.
          if_Returns IsSound (not r.press_to_speak_pressed) (some r) _ (λ _. v)
            (λ _.
              if_Returns IsSound s (some (record r { recognizing = true; phase = pressed }))
                (some (close_press_to_speak r)) (λ _. v) (λ _. v)))
  pass_press_to_speak-IsSound pressed k s a r v =
      if_Returns IsSound (r.press_to_speak_pressed && not r.end_loop && not k) (read_pressed k a r)
        (released k r) (λ _. read_pressed-IsSound k a r v) (λ _. released-IsSound k r v)
  pass_press_to_speak-IsSound refreshing k s a r v = refreshed-IsSound r v
  pass_press_to_speak-IsSound p k s a r v = v

  pub step_press_to_speak-IsSound :
      (k s : Bool) (a : Audio) (r : Recognizer L)
      → IsSound r
      → Returns IsSound (step_press_to_speak k s a r)
  unfolding step_press_to_speak
  step_press_to_speak-IsSound k s a r v = pass_press_to_speak-IsSound r.phase k s a r v
