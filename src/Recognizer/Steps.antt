-- ===== src/Recognizer/Steps.antt =====
-- The passes of the continuous loop in src/sphinx/SphinxService.cpp keep a recognizer sound.
use buckey.Common.{
  ℕ, ◌≡◌, Bool, true, false, not, ◌&&◌, some, List, [], arith, if◌then◌else◌, get_elem?,
}
use buckey.Decoder.{PocketSphinx, ◌>>=◌, start_utterance, end_utterance}
use buckey.Decoder.Machine.{Returns}
use buckey.Recognizer.{
  Phase, Recognizer, device, file, Audio, read_failed, frames, top, waiting, refreshing, returned,
  exited, is_error, kill_threads, killing, on_decoder, write_recording, process_frames, hand_over,
  announce_end, begin,
}
use buckey.Recognizer.Continuous.{
  open_source, open_continuous, close_continuous, at_end_of_file, end_of_speech, process, recognize,
  check_decoder, hear, enter_pause, step_continuous, pass_continuous, is_nil, is_file,
}
use buckey.Recognizer.Sound.{
  IsSound, on_decoder-IsSound, process_frames-IsSound, hand_over-IsSound, announce_end-IsSound,
  silent-IsSound,
}
use buckey.Recognizer.Valid.{IsLive, Returns-bind, start_utterance-IsLive, end_utterance-IsLive}
use buckey.Recognizer.Loops.{
  if_Returns, kill_threads-IsSound, killing-IsSound, write_recording-IsSound, begin-IsSound,
  refreshed-IsSound, checked-IsSound,
}

module _ {L : PocketSphinx} where
  at_end_of_file-IsSound :
      (r : Recognizer L) → r.in_utterance ≡ true → IsSound r → Returns IsSound (at_end_of_file r)
  unfolding at_end_of_file close_continuous
  at_end_of_file-IsSound r u v =
      Returns-bind IsSound IsSound (hand_over (announce_end r)) _
        (hand_over-IsSound (announce_end r) (announce_end-IsSound r u v)) (λ r' v'. v')

  end_of_speech-IsSound : (r : Recognizer L) → IsSound r → Returns IsSound (end_of_speech r)
  unfolding end_of_speech
  end_of_speech-IsSound r v =
      if_Returns IsSound (not r.voice_detected && r.in_utterance) _
        (some (record r { phase = top }))
        (λ e.
          Returns-bind IsSound IsSound (hand_over (announce_end r)) _
            (hand_over-IsSound (announce_end r) (announce_end-IsSound r (ground (arith, e)) v))
            (λ r' v'. v'))
        (λ e. v)

  process-IsSound :
      (fs : List ℕ) (r : Recognizer L)
      → IsSound r
      → Returns (λ d. is_error d.state ≡ false) (get_elem? r.decoders r.current)
      → Returns IsSound (process fs r)
  unfolding process
  process-IsSound fs r v e =
      Returns-bind IsSound IsSound (process_frames fs r) _ (process_frames-IsSound fs r v e)
        end_of_speech-IsSound

  recognize-IsSound :
      (fs : List ℕ) (r : Recognizer L)
      → IsSound r
      → Returns (λ d. is_error d.state ≡ false) (get_elem? r.decoders r.current)
      → Returns IsSound (recognize fs r)
  unfolding recognize
  recognize-IsSound fs r v e =
      if_Returns IsSound (is_nil fs && is_file r.source && r.in_utterance) (at_end_of_file r)
        (process fs r) (λ h. at_end_of_file-IsSound r (ground (arith, h)) v)
        (λ h. process-IsSound fs r v e)

  check_decoder-IsSound :
      (fs : List ℕ) (r : Recognizer L) → IsSound r → Returns IsSound (check_decoder fs r)
  unfolding check_decoder
  check_decoder-IsSound fs r v =
      checked-IsSound r (recognize fs) (killing (λ s. some (record s { phase = returned })) r) v
        (recognize-IsSound fs r v)
        (killing-IsSound (λ s. some (record s { phase = returned })) r v (λ w. w))

  hear-IsSound : (a : Audio) (r : Recognizer L) → IsSound r → Returns IsSound (hear a r)
  unfolding hear
  hear-IsSound (frames fs) r v =
      check_decoder-IsSound fs (write_recording fs r) (write_recording-IsSound fs r v)
  hear-IsSound read_failed r v =
      elim r.source
        as (λ s. Returns IsSound (elim s [
          | file ↦ check_decoder [] r
          | device ↦ some (record (kill_threads r) { phase = exited })
        ])) [ file ↦ check_decoder-IsSound [] r v | device ↦ kill_threads-IsSound r v ]

  enter_pause-IsSound : (r : Recognizer L) → IsSound r → Returns IsSound (enter_pause r)
  unfolding enter_pause
  enter_pause-IsSound r v =
      Returns-bind IsSound IsSound
        (on_decoder r.current (λ d. do e ← end_utterance d; start_utterance e) r) _
        (on_decoder-IsSound r.current (λ d. do e ← end_utterance d; start_utterance e) r v.in_range
          (λ d l.
            Returns-bind IsLive IsLive (end_utterance d) _ (end_utterance-IsLive d l)
              start_utterance-IsLive)
          v)
        silent-IsSound

  pass_continuous-IsSound :
      (p : Phase) (a : Audio) (r : Recognizer L)
      → IsSound r
      → Returns IsSound (pass_continuous p a r)
  unfolding pass_continuous close_continuous
  pass_continuous-IsSound top a r v =
      if_Returns IsSound r.end_loop (some (close_continuous r)) _ (λ _. v)
        (λ _.
          if_Returns IsSound (not (is_file r.source) && r.paused) (enter_pause r) (hear a r)
            (λ _. enter_pause-IsSound r v) (λ _. hear-IsSound a r v))
  pass_continuous-IsSound waiting a r v =
      if_Returns IsSound r.end_loop (some (close_continuous r)) _ (λ _. v)
        (λ _. if_Returns IsSound r.paused (some r) (hear a r) (λ _. v) (λ _. hear-IsSound a r v))
  pass_continuous-IsSound refreshing a r v = refreshed-IsSound r v
  pass_continuous-IsSound p a r v = v

  pub step_continuous-IsSound :
      (a : Audio) (r : Recognizer L) → IsSound r → Returns IsSound (step_continuous a r)
  unfolding step_continuous
  step_continuous-IsSound a r v = pass_continuous-IsSound r.phase a r v

  open_source-IsSound :
      (o s : Bool) (r : Recognizer L) → IsSound r → Returns IsSound (open_source o s r)
  unfolding open_source
  open_source-IsSound o s r v =
      elim r.source
        as (λ w. Returns IsSound (elim w [
          | file ↦ begin true r
          | device ↦
              if o && s
              then begin true r
              else some (record r { recognizing = false; phase = returned })
        ])) [
          | file ↦ begin-IsSound true r v
          | device ↦
              if_Returns IsSound (o && s) (begin true r) _ (λ _. begin-IsSound true r v) (λ _. v)
        ]

  pub open_continuous-IsSound :
      (o s : Bool) (r : Recognizer L) → IsSound r → Returns IsSound (open_continuous o s r)
  unfolding open_continuous
  open_continuous-IsSound o s r v =
      if_Returns IsSound r.update_locked _ _ (λ _. v)
        (λ _.
          open_source-IsSound o s
            (record r {
              manage_thread_running = true;
              update_locked = true;
              end_loop = false;
              in_utterance = false;
              voice_detected = false;
            })
            (silent-IsSound r v))
