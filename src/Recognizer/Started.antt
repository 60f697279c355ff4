-- ===== src/Recognizer/Started.antt =====
-- The calls of src/sphinx/SphinxService.cpp that start and stop keep a recognizer sound.
use buckey.Common.{
  ℕ, zero, suc, ◌+◌, ◌%◌, ◌^◌, ◌<◌, ◌≡◌, refl, ap, Bool, true, false, not, List, [], ◌∷◌, ◌++◌,
  arith, if◌then◌else◌, length, length-append, All, All-append, String, if_holds, str_eq,
}
use buckey.Decoder.{PocketSphinx, new_decoder, lm}
use buckey.Recognizer.{Recognizer, device, Loop, continuous, press_to_speak}
use buckey.Registry.{ServiceState}
use buckey.Recognizer.Control.{
  Called, returns, waits, terminates, DecoderConf, base_decoders, start, launch, relaunch,
  join_loop, start_continuous_device_recognition, start_press_to_speak_recognition,
  start_file_recognition, stop_recognition, now_stopped, now_running, stop, has_ended, device_of,
  is_running, new_recognizer,
}
use buckey.Recognizer.Speech.{IsSpoken}
use buckey.Recognizer.Sound.{IsSound}
use buckey.Recognizer.Valid.{IsLive}

-- What holds of the recognizer that a call leaves, returned or waiting.
abbrev pub Leaves : {A : Type 0} → (A → Type 0) → Called A → Type 0
Leaves P (returns a) = P a
Leaves P (waits a) = P a
Leaves P terminates = Unit

-- A call that returns at once.
abbrev pub Finishes : {A : Type 0} → (A → Type 0) → Called A → Type 0
Finishes P (returns a) = P a
Finishes P (waits a) = ⊥
Finishes P terminates = ⊥

abbrev pub is_returned : {A : Type 0} → Called A → Bool
is_returned (returns a) = true
is_returned c = false

pub Leaves-Finishes :
    {A : Type 0} (P : A → Type 0) (c : Called A) → is_returned c ≡ true → Leaves P c → Finishes P c
Leaves-Finishes P (returns a) e h = h
Leaves-Finishes P (waits a) e h = cc
Leaves-Finishes P terminates e h = cc

pub Leaves-weaken :
    {A : Type 0} (P Q : A → Type 0) (c : Called A) → ((a : A) → P a → Q a) → Leaves P c → Leaves Q c
Leaves-weaken P Q (returns a) f h = f a h
Leaves-weaken P Q (waits a) f h = f a h
Leaves-weaken P Q terminates f h = tt

All-weaken :
    {A : Type 0} (P Q : A → Type 0) (xs : List A) → ((a : A) → P a → Q a) → All P xs → All Q xs
All-weaken P Q [] f h = tt
All-weaken P Q (x ∷ xs) f h = (f x h.0, All-weaken P Q xs f h.1)

base_decoder-IsLive :
    (L : PocketSphinx) (c : DecoderConf)
    → IsLive
        (new_decoder {L = L} "base-grammar" c.default_lm lm c.hmm_dir c.dict_dir c.logfile true)
unfolding new_decoder
base_decoder-IsLive L c = ground arith

base_decoders-IsLive :
    (L : PocketSphinx) (n : ℕ) (c : DecoderConf)
    → All (IsLive {L = L}) (base_decoders n c) × (length (base_decoders {L = L} n c) ≡ n)
unfolding base_decoders
base_decoders-IsLive L zero c = (tt, refl)
base_decoders-IsLive L (suc n) c =
    let (live, e) = base_decoders-IsLive L n c in ((base_decoder-IsLive L c, live), ap suc e)

module _ {L : PocketSphinx} where
  join_loop-IsSound : (r : Recognizer L) → IsSound r → Leaves IsSound (join_loop r)
  unfolding join_loop
  join_loop-IsSound r v =
      if_holds (Leaves IsSound) r.joinable _ (returns r)
        (λ _.
          if_holds (Leaves IsSound) (has_ended r.phase) (returns (record r { joinable = false }))
            (waits r) (λ _. v) (λ _. v))
        (λ _. v)

  relaunch-IsSound :
      (l : Loop) (b : Bool) (c : Called (Recognizer L))
      → Leaves IsSound c
      → Leaves IsSound (relaunch l b c)
  unfolding relaunch launch
  relaunch-IsSound l b (returns r) v = v
  relaunch-IsSound l b (waits r) v = v
  relaunch-IsSound l b terminates v = v

  pub start_continuous-IsSound :
      (name : String) (r : Recognizer L)
      → IsSound r
      → Leaves IsSound (start_continuous_device_recognition name r)
  unfolding start_continuous_device_recognition
  start_continuous-IsSound name r v =
      let named = record r {
        source = device;
        device_name = if str_eq name "" then r.device_name else name;
      } in
      if_holds (Leaves IsSound) r.recognizing (returns r)
        (relaunch continuous false (join_loop named)) (λ _. v)
        (λ _. relaunch-IsSound continuous false (join_loop named) (join_loop-IsSound named v))

  pub start_press_to_speak-IsSound :
      (name : String) (r : Recognizer L)
      → IsSound r
      → Leaves IsSound (start_press_to_speak_recognition name r)
  unfolding start_press_to_speak_recognition
  start_press_to_speak-IsSound name r v =
      let named = record r { source = device; device_name = name } in
      if_holds (Leaves IsSound) r.recognizing (returns r)
        (relaunch press_to_speak true (join_loop named)) (λ _. v)
        (λ _. relaunch-IsSound press_to_speak true (join_loop named) (join_loop-IsSound named v))

  pub start_file-IsSound :
      (opens : Bool) (r : Recognizer L)
      → IsSound r
      → Leaves IsSound (start_file_recognition opens r)
  unfolding start_file_recognition launch
  start_file-IsSound opens r v =
      if_holds (Leaves IsSound) (not opens) terminates _ (λ _. tt)
        (λ _. if_holds (Leaves IsSound) r.joinable terminates _ (λ _. tt) (λ _. v))

  pub stop_recognition-IsSound :
      (r : Recognizer L) → IsSound r → Leaves IsSound (stop_recognition r)
  unfolding stop_recognition
  stop_recognition-IsSound r v =
      if_holds (Leaves IsSound) (not r.manage_thread_running) _ _ (λ _. v)
        (λ _.
          if_holds (Leaves IsSound) (not r.joinable) terminates _ (λ _. tt)
            (λ _. if_holds (Leaves IsSound) (has_ended r.phase) _ _ (λ _. v) (λ _. v)))

  now_stopped-IsSound :
      (c : Called (Recognizer L)) → Leaves IsSound c → Leaves IsSound (now_stopped c)
  unfolding now_stopped
  now_stopped-IsSound (returns r) v = v
  now_stopped-IsSound (waits r) v = v
  now_stopped-IsSound terminates v = v

  now_running-IsSound :
      (c : Called (Recognizer L)) → Leaves IsSound c → Leaves IsSound (now_running c)
  unfolding now_running
  now_running-IsSound (returns r) v = v
  now_running-IsSound (waits r) v = v
  now_running-IsSound terminates v = v

  pub stop-IsSound : (r : Recognizer L) → IsSound r → Leaves IsSound (stop r)
  unfolding stop
  stop-IsSound r v =
      now_stopped-IsSound (if is_running r.state then stop_recognition r else returns r) (
        if_holds (Leaves IsSound) (is_running r.state) (stop_recognition r) (returns r)
          (λ _. stop_recognition-IsSound r v) (λ _. v))

  -- A start adds decoders, so that it needs none before it if it makes one.
  pub start_lem :
      (c : DecoderConf) (r : Recognizer L)
      → r.current < length r.decoders + c.conf_max_decoders % 2 ^ 16
      → All IsLive r.decoders
      → All (λ i. i < length r.decoders) r.hypothesis_threads
      → IsSpoken r.events r.in_utterance r.events_killed
      → Leaves IsSound (start c r)
  unfolding start
  start_lem c r h live ts s =
      let n = c.conf_max_decoders % 2 ^ 16 in
      let (base, e) = base_decoders-IsLive L n c in
      let longer = length-append r.decoders (base_decoders n c) in
      now_running-IsSound _ (
        start_press_to_speak-IsSound (device_of c.speech_device)
          (record r {
            state = ServiceState.starting;
            end_loop = false;
            voice_detected = false;
            recognizing = false;
            is_recording = false;
            paused = false;
            press_to_speak_mode = false;
            press_to_speak_pressed = false;
            max_decoders = n;
            device_name = device_of c.speech_device;
            decoders = r.decoders ++ base_decoders n c;
          })
          (record {
            in_range = omega (arith, h, e, longer);
            max_in_range = omega (arith, e, longer);
            live = All-append IsLive r.decoders _ live base;
            threads_in_range =
                All-weaken _ _ r.hypothesis_threads (λ i l. omega (arith, l, longer)) ts;
            spoken = s;
          }))

pub start-returns :
    (L : PocketSphinx) (c : DecoderConf) (handle : Bool)
    → is_returned (start {L = L} c (new_recognizer handle)) ≡ true
unfolding start start_press_to_speak_recognition new_recognizer
start-returns L c handle = refl
