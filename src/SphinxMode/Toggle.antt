-- ===== src/SphinxMode/Toggle.antt =====
-- The command toggle of src/sphinx/SphinxMode.cpp and its debounce time.
use buckey.Common.{
  ℕ, ◌+◌, ◌-◌, ◌/◌, ◌%◌, ◌^◌, ◌≤◌, ◌<◌, ◌≡◌, refl, sym, ap, ◌∙◌, inl, inr, Bool, true, false, not,
  ◌||◌, some, List, [], ◌∷◌, ◌++◌, arith, ltb, if◌then◌else◌, Bool-cases, String, if_holds,
}
use buckey.Decoder.{PocketSphinx}
use buckey.Recognizer.{Recognizer, trigger}
use buckey.Recognizer.Control.{
  returns, pause_recognition, resume_recognition, press_to_speak_button_down,
  press_to_speak_button_up,
}
use buckey.SphinxMode.{
  SphinxMode, millis_diff, is_repeat, on_toggle, switch, pause, resume, press, release, input, act,
}

-- The debounce time, and the time from which the count of milliseconds is negative, in nanoseconds.
abbrev pub debounce : ℕ
debounce = 250000000

abbrev pub wrap : ℕ
wrap = 2147483648000000

not_repeat : (d : ℕ) → debounce ≤ d → d < wrap → is_repeat (d / 1000000 % 2 ^ 32) ≡ true → ⊥
not_repeat d h k e = ground (arith, h, k, e)

repeat : (d : ℕ) → d < debounce → is_repeat (d / 1000000 % 2 ^ 32) ≡ false → ⊥
repeat d h e = ground (arith, h, e)

wrapped : (d : ℕ) → wrap ≤ d → d < wrap + wrap → is_repeat (d / 1000000 % 2 ^ 32) ≡ false → ⊥
wrapped d h k e = ground (arith, h, k, e)

not-not : (b : Bool) → not (not b) ≡ b
not-not true = refl
not-not false = refl

module _ {L : PocketSphinx} where
  -- What a listener hears of: whether recognition goes on, in the mode that the service is in.
  abbrev pub is_listening : SphinxMode L → Bool
  is_listening m =
      if m.recognizer.press_to_speak_mode
      then m.recognizer.press_to_speak_pressed
      else not m.recognizer.paused

  -- After a toggle at a time: it is remembered, the mode is the same, and what goes on is the opposite.
  record Toggled (now : ℕ) (m m' : SphinxMode L) : Type 0 where
    at : m'.last_toggle ≡ now
    same_mode : m'.recognizer.press_to_speak_mode ≡ m.recognizer.press_to_speak_mode
    still : m'.sphinx_running ≡ m.sphinx_running
    opposite : is_listening m' ≡ not (is_listening m)

  pause-flags :
      (r : Recognizer L)
      → ((pause_recognition r).paused ≡ true)
        × ((pause_recognition r).press_to_speak_mode ≡ r.press_to_speak_mode)
  unfolding pause_recognition trigger
  pause-flags r =
      if_holds
        (λ (s : Recognizer L). (s.paused ≡ true) × (s.press_to_speak_mode ≡ r.press_to_speak_mode))
        r.events_killed _ _ (λ _. (refl, refl)) (λ _. (refl, refl))

  resume-flags :
      (r : Recognizer L)
      → ((resume_recognition r).paused ≡ false)
        × ((resume_recognition r).press_to_speak_mode ≡ r.press_to_speak_mode)
  unfolding resume_recognition trigger
  resume-flags r = (
    refl,
    if_holds (λ (s : Recognizer L). s.press_to_speak_mode ≡ r.press_to_speak_mode) r.events_killed _
        _ (λ _. refl) (λ _. refl),
  )

  switch-Toggled :
      (now : ℕ) (m : SphinxMode L) → Toggled now m (switch (record m { last_toggle = now }))
  unfolding switch press release pause resume press_to_speak_button_down press_to_speak_button_up
  switch-Toggled now m =
      let r = m.recognizer in
      if_holds (Toggled now m) r.press_to_speak_mode _ _
        (λ e.
          if_holds (Toggled now m) r.press_to_speak_pressed _ _
            (λ p. record {
              at = refl;
              same_mode = refl;
              opposite = ground (arith, e, p);
              still = refl;
            })
            (λ p. record {
              at = refl;
              same_mode = refl;
              opposite = ground (arith, e, p);
              still = refl;
            }))
        (λ e.
          if_holds (Toggled now m) r.paused _ _
            (λ p. record {
              at = refl;
              same_mode = (resume-flags r).1;
              opposite = ground (arith, e, p, (resume-flags r).0, (resume-flags r).1);
              still = refl;
            })
            (λ p. record {
              at = refl;
              same_mode = (pause-flags r).1;
              opposite = ground (arith, e, p, (pause-flags r).0, (pause-flags r).1);
              still = refl;
            }))

  input-toggle :
      (now : ℕ) (b : Bool) (tags : List String) (m : SphinxMode L)
      → (m.sphinx_running || b) ≡ true
      → input now b ("toggle" ∷ tags) m ≡ some (returns (on_toggle now m))
  unfolding input act
  input-toggle now b tags m e =
      ap
        (λ c.
          if c
          then act now "toggle" tags m
          else some (
              returns (record m {
                replies =
                    m.replies
                    ++ "You must have the sphinx service enabled to use that command." ∷ [];
              })))
        e

  on_toggle-Toggled :
      (now : ℕ) (m : SphinxMode L)
      → debounce ≤ now - m.last_toggle
      → now - m.last_toggle < wrap
      → Toggled now m (on_toggle now m)
  unfolding on_toggle
  on_toggle-Toggled now m h k =
      if_holds (Toggled now m) (is_repeat (millis_diff now m.last_toggle)) m _
        (λ e. absurd (not_repeat (now - m.last_toggle) h k e)) (λ _. switch-Toggled now m)

  on_toggle-repeat :
      (now : ℕ) (m : SphinxMode L) → now - m.last_toggle < debounce → on_toggle now m ≡ m
  unfolding on_toggle
  on_toggle-repeat now m h =
      if_holds (λ t. t ≡ m) (is_repeat (millis_diff now m.last_toggle)) m _ (λ _. refl)
        (λ e. absurd (repeat (now - m.last_toggle) h e))

  -- A state in which the tags of a toggle leave the mode, at a time.
  abbrev pub Leads : ℕ → Bool → List String → (m m' : SphinxMode L) → Type 0
  Leads now b tags m m' = input now b ("toggle" ∷ tags) m ≡ some (returns m')

  -- While the service runs, a toggle that comes at least 250 milliseconds after the last one switches
  -- what is listened to, be it by pause and resume or by the button of press to speak, and a second
  -- toggle switches it back, unless that comes within 250 milliseconds, when the mode and the service
  -- stay exactly as they are, also the time from which repeats are counted. Each of the two times is less than 2 ^ 31 milliseconds after the one before it.
  pub input-toggle_twice :
      (m : SphinxMode L) (b : Bool) (tags : List String) (first second : ℕ)
      → (m.sphinx_running || b) ≡ true
      → debounce ≤ first - m.last_toggle
      → first - m.last_toggle < wrap
      → second - first < wrap
      → (m' : SphinxMode L) × (m'' : SphinxMode L) × Leads first b tags m m'
        × Leads second b tags m' m''
        × (is_listening m' ≡ not (is_listening m))
        × (is_listening m''
            ≡ (if ltb (second - first) debounce then not (is_listening m) else is_listening m))
        × (second - first < debounce → m'' ≡ m')
        × (debounce ≤ second - first → m''.last_toggle ≡ second)
  input-toggle_twice m b tags first second e h k w =
      let m' = on_toggle first m in
      let t = on_toggle-Toggled first m h k in
      (
        m',
        on_toggle second m',
        input-toggle first b tags m e,
        input-toggle second b tags m' (ap (λ r. r || b) t.still ∙ e),
        t.opposite,
        elim (Bool-cases (ltb (second - first) debounce)) [
          | inl l ↦
              ap is_listening (on_toggle-repeat second m' (ground (arith, l, t.at)))
              ∙ t.opposite
              ∙ ap (λ c. if c then not (is_listening m) else is_listening m) (sym l)
          | inr l ↦
              (on_toggle-Toggled second m' (ground (arith, l, t.at))
                (ground (arith, w, t.at))).opposite
              ∙ ap not t.opposite
              ∙ not-not (is_listening m)
              ∙ ap (λ c. if c then not (is_listening m) else is_listening m) (sym l)
        ],
        (λ l. on_toggle-repeat second m' (ground (arith, l, t.at))),
        (λ l. (on_toggle-Toggled second m' (ground (arith, l, t.at)) (ground (arith, w, t.at))).at),
      )

  -- The count of milliseconds is an int: a toggle that comes after 2 ^ 31 milliseconds, which are nearly
  -- 25 days, and before 2 ^ 32, is taken for a repeat of the last one and does nothing.
  pub input-toggle_wraps :
      (m : SphinxMode L) (b : Bool) (tags : List String) (now : ℕ)
      → (m.sphinx_running || b) ≡ true
      → wrap ≤ now - m.last_toggle
      → now - m.last_toggle < wrap + wrap
      → input now b ("toggle" ∷ tags) m ≡ some (returns m)
  unfolding on_toggle
  input-toggle_wraps m b tags now e h k =
      input-toggle now b tags m e
      ∙ ap (λ t. some (returns t))
          (if_holds (λ t. t ≡ m) (is_repeat (millis_diff now m.last_toggle)) m _ (λ _. refl)
            (λ f. absurd (wrapped (now - m.last_toggle) h k f)))
