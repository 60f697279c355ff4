-- ===== src/SphinxMode.antt =====
-- src/sphinx/SphinxMode.cpp and include/sphinx/SphinxMode.h: the mode that pauses, resumes and switches
-- the recognition service. Times are counts of nanoseconds of one clock; the log is left out, and the
-- sleep before the button is released.
pub mod Toggle
mod Tests
use buckey.Common.{
  ℕ, zero, suc, ◌+◌, ◌-◌, ◌*◌, ◌/◌, ◌%◌, ◌^◌, ◌≤◌, ◌<◌, ◌≡◌, refl, sym, ap, ◌∙◌, subst, ◌≢◌, ◌↔◌,
  ◌⊎◌, inl, inr, Bool, true, false, not, ◌&&◌, ◌||◌, Option, none, some, List, [], ◌∷◌, ◌++◌, map,
  append-nil, append_assoc, arith, ltb, leb, ◌==◌, if◌then◌else◌, Bool-cases, Option-cases, length,
  get_elem?, set, take, drop, concat, length-append, drop-length-append, All, All-append,
  length-set, get_elem?_of_lt, lt_of_get_elem?, get_elem?-set_self, get_elem?-set_ne, All-set,
  All-get_elem?, String, if_holds, str_eq, str_eq_iff, str_eq_refl,
}
use buckey.Decoder.{PocketSphinx}
use buckey.Recognizer.{Recognizer}
use buckey.Recognizer.Control.{
  Called, returns, waits, terminates, pause_recognition, resume_recognition,
  press_to_speak_button_down, press_to_speak_button_up, stop_recognition,
  start_press_to_speak_recognition, start_continuous_device_recognition,
}

abbrev pub toggle_debounce_time : ℕ
toggle_debounce_time = 250

pub record SphinxMode (L : PocketSphinx) : Type 0 where
  pub recognizer : Recognizer L
  pub sphinx_running : Bool
  pub last_toggle : ℕ
  pub replies : List String

-- The count of milliseconds between two times as an int: it wraps to a negative one from 2 ^ 31 on.
abbrev pub millis_diff : (now last : ℕ) → ℕ
millis_diff now last = (now - last) / 1000000 % 2 ^ 32

-- The wrapped count is less than the debounce time, as one of the negative ones is.
abbrev pub is_repeat : ℕ → Bool
is_repeat millis = ltb millis toggle_debounce_time || not (ltb millis (2 ^ 31))

module _ {L : PocketSphinx} where
  unfoldable pub pause : SphinxMode L → SphinxMode L
  pause m = record m {
    recognizer = pause_recognition m.recognizer;
    replies = m.replies ++ "Pausing sphinx speech recognition" ∷ [];
  }

  unfoldable pub resume : SphinxMode L → SphinxMode L
  resume m = record m {
    recognizer = resume_recognition m.recognizer;
    replies = m.replies ++ "Resuming sphinx speech recognition" ∷ [];
  }

  unfoldable pub press : SphinxMode L → SphinxMode L
  press m = record m { recognizer = press_to_speak_button_down m.recognizer }

  unfoldable pub release : SphinxMode L → SphinxMode L
  release m = record m { recognizer = press_to_speak_button_up m.recognizer }

  unfoldable pub on_pause_command : SphinxMode L → SphinxMode L
  on_pause_command m = if m.recognizer.press_to_speak_mode then release m else pause m

  unfoldable pub on_resume_command : SphinxMode L → SphinxMode L
  on_resume_command m = if m.recognizer.press_to_speak_mode then press m else resume m

  -- The toggle, unless it repeats one that came just before.
  unfoldable pub switch : SphinxMode L → SphinxMode L
  switch m =
      if m.recognizer.press_to_speak_mode
      then (if m.recognizer.press_to_speak_pressed then release m else press m)
      else if m.recognizer.paused
      then resume m
      else pause m

  unfoldable pub on_toggle : ℕ → SphinxMode L → SphinxMode L
  on_toggle now m =
      if is_repeat (millis_diff now m.last_toggle)
      then m
      else switch (record m { last_toggle = now })

  -- A start that follows a stop, unless that still waits for the thread.
  with_recognizer : SphinxMode L → Called (Recognizer L) → Called (SphinxMode L)
  with_recognizer m (returns r) = returns (record m { recognizer = r })
  with_recognizer m (waits r) = waits (record m { recognizer = r })
  with_recognizer m terminates = terminates

  after_stop :
      (Recognizer L → Called (Recognizer L)) → Called (Recognizer L) → Called (Recognizer L)
  after_stop start (returns r) = start r
  after_stop start (waits r) = waits r
  after_stop start terminates = terminates

  unfoldable pub on_push_to_talk : String → SphinxMode L → Called (SphinxMode L)
  unfolding with_recognizer after_stop
  on_push_to_talk on_off m =
      let stopped = stop_recognition m.recognizer in
      if str_eq on_off "enable"
      then with_recognizer m (after_stop (start_press_to_speak_recognition "") stopped)
      else if str_eq on_off "disable"
      then with_recognizer m (after_stop (start_continuous_device_recognition "") stopped)
      else returns m

  -- A command without the tag that it reads is a fault, `none`.
  push_to_talk : List String → SphinxMode L → Option (Called (SphinxMode L))
  unfolding on_push_to_talk
  push_to_talk [] m = none
  push_to_talk (on_off ∷ tags) m = some (on_push_to_talk on_off m)

  unfoldable pub act : ℕ → String → List String → SphinxMode L → Option (Called (SphinxMode L))
  unfolding push_to_talk
  act now action tags m =
      if str_eq action "pause"
      then some (returns (on_pause_command m))
      else if str_eq action "resume"
      then some (returns (on_resume_command m))
      else if str_eq action "push-to-talk"
      then push_to_talk tags m
      else if str_eq action "toggle"
      then some (returns (on_toggle now m))
      else some (returns m)

  -- The input, at a time and with what getServiceState says of the service.
  unfoldable pub input :
      (now : ℕ) (service_runs : Bool) → List String → SphinxMode L → Option (Called (SphinxMode L))
  input now service_runs [] m = none
  input now service_runs (action ∷ tags) m =
      if m.sphinx_running || service_runs
      then act now action tags m
      else some (
          returns (record m {
            replies =
                m.replies ++ "You must have the sphinx service enabled to use that command." ∷ [];
          }))

  -- The handlers of the events of services.
  unfoldable pub service_enabled : String → SphinxMode L → SphinxMode L
  service_enabled name m = if str_eq name "sphinx" then record m { sphinx_running = true } else m

  unfoldable pub service_disabled : String → SphinxMode L → SphinxMode L
  service_disabled name m = if str_eq name "sphinx" then record m { sphinx_running = false } else m
