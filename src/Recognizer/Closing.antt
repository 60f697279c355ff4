-- ===== src/Recognizer/Closing.antt =====
-- The last pass of either loop in src/sphinx/SphinxService.cpp.
use buckey.Common.{
  ℕ, zero, suc, ◌+◌, ◌≤◌, ◌≡◌, refl, sym, ap, subst, ◌⊎◌, inl, inr, Bool, true, false, not, ◌&&◌,
  ◌||◌, some, arith, if◌then◌else◌, length, get_elem?_of_lt, if_holds,
}
use buckey.Decoder.{PocketSphinx, ◌>>=◌}
use buckey.Decoder.Machine.{Returns}
use buckey.Recognizer.{
  Recognizer, Audio, Phase, top, waiting, pressed, refreshing, closed, Loop, continuous,
  press_to_speak, refresh,
}
use buckey.Recognizer.Continuous.{step_continuous, close_continuous, pass_continuous}
use buckey.Recognizer.PressToSpeak.{
  step_press_to_speak, close_press_to_speak, released, pass_press_to_speak, read_pressed,
}
use buckey.Recognizer.Loops.{if_Returns}
use buckey.Recognizer.Runs.{pass, is_unstarted}
use buckey.Recognizer.Control.{has_ended}

-- The phases of a loop that has begun and not ended.
abbrev pub is_looping : Phase → Bool
is_looping top = true
is_looping waiting = true
is_looping pressed = true
is_looping refreshing = true
is_looping p = false

-- Those from which one pass ends it, for each loop.
abbrev pub ends_next : Loop → Phase → Bool
ends_next continuous top = true
ends_next continuous waiting = true
ends_next press_to_speak top = true
ends_next press_to_speak pressed = true
ends_next l p = false

abbrev pub fits : Loop → Phase → Bool
fits continuous pressed = false
fits press_to_speak waiting = false
fits l p = true

pub looping-not_ended : (p : Phase) → is_looping p ≡ true → has_ended p ≡ true → ⊥
looping-not_ended p g e = ground (arith, g, e)

pub begun-next : (l : Loop) (p : Phase) → is_unstarted p ≡ true → ends_next l p ≡ true → ⊥
begun-next continuous p f e = ground (arith, f, e)
begun-next press_to_speak p f e = ground (arith, f, e)

pub false-true : false ≡ true → ⊥
false-true e = cc

-- A loop is before its last pass, or chooses a decoder first.
pub last-or-refreshing :
    (l : Loop) (p : Phase)
    → is_looping p ≡ true
    → fits l p ≡ true
    → (ends_next l p ≡ true) ⊎ (p ≡ refreshing)
last-or-refreshing continuous top h f = inl refl
last-or-refreshing continuous waiting h f = inl refl
last-or-refreshing continuous refreshing h f = inr refl
last-or-refreshing continuous pressed h f = cc
last-or-refreshing press_to_speak top h f = inl refl
last-or-refreshing press_to_speak pressed h f = inl refl
last-or-refreshing press_to_speak refreshing h f = inr refl
last-or-refreshing press_to_speak waiting h f = cc
last-or-refreshing l p h f = cc

pub ends_at_top : (l : Loop) (p : Phase) → p ≡ top → ends_next l p ≡ true
ends_at_top continuous p e = ap (ends_next continuous) e
ends_at_top press_to_speak p e = ap (ends_next press_to_speak) e

module _ {L : PocketSphinx} where
  -- The loop is behind its end, and the service is free for the next.
  pub record IsClosed (r : Recognizer L) : Type 0 where
    pub at_end : r.phase ≡ closed
    pub not_recognizing : r.recognizing ≡ false
    pub not_running : r.manage_thread_running ≡ false

  close_continuous-IsClosed : (r : Recognizer L) → IsClosed (close_continuous r)
  unfolding close_continuous
  close_continuous-IsClosed r = record { at_end = refl; not_recognizing = refl; not_running = refl }

  close_press_to_speak-IsClosed : (r : Recognizer L) → IsClosed (close_press_to_speak r)
  unfolding close_press_to_speak
  close_press_to_speak-IsClosed r = record {
    at_end = refl;
    not_recognizing = refl;
    not_running = refl;
  }

  -- The choice of a decoder changes the current index alone.
  pub refresh-only :
      (n i : ℕ) (r : Recognizer L)
      → n + i ≤ length r.decoders
      → Returns (λ r'. (c : ℕ) × (r' ≡ record r { current = c })) (refresh n i r)
  unfolding refresh
  refresh-only zero i r h = (r.current, refl)
  refresh-only (suc n) i r h =
      let (d, g) = get_elem?_of_lt r.decoders i (omega (arith, h)) in
      subst
        (λ o.
          Returns (λ r'. (c : ℕ) × (r' ≡ record r { current = c }))
            (do d ← o; refresh n (i + 1) (if d.ready then record r { current = i } else r)))
        (sym g)
        (if_holds
          (λ s. Returns (λ r'. (c : ℕ) × (r' ≡ record r { current = c })) (refresh n (i + 1) s))
          d.ready (record r { current = i }) r
          (λ _. refresh-only n (i + 1) (record r { current = i }) (omega (arith, h)))
          (λ _. refresh-only n (i + 1) r (omega (arith, h))))

  pass_continuous-IsClosed :
      (p : Phase) (a : Audio) (r : Recognizer L)
      → r.end_loop ≡ true
      → ends_next continuous p ≡ true
      → Returns IsClosed (pass_continuous p a r)
  unfolding pass_continuous
  pass_continuous-IsClosed top a r e h =
      if_Returns IsClosed r.end_loop (some (close_continuous r)) _
        (λ _. close_continuous-IsClosed r) (λ f. absurd (ground (arith, e, f)))
  pass_continuous-IsClosed waiting a r e h =
      if_Returns IsClosed r.end_loop (some (close_continuous r)) _
        (λ _. close_continuous-IsClosed r) (λ f. absurd (ground (arith, e, f)))
  pass_continuous-IsClosed p a r e h = cc

  released-IsClosed :
      (k : Bool) (r : Recognizer L) → r.end_loop ≡ true → Returns IsClosed (released k r)
  unfolding released
  released-IsClosed k r e =
      if_Returns IsClosed (k || r.end_loop) (some (close_press_to_speak r)) _
        (λ _. close_press_to_speak-IsClosed r) (λ f. absurd (ground (arith, e, f)))

  pass_press_to_speak-IsClosed :
      (p : Phase) (k s : Bool) (a : Audio) (r : Recognizer L)
      → r.end_loop ≡ true
      → ends_next press_to_speak p ≡ true
      → Returns IsClosed (pass_press_to_speak p k s a r)
  unfolding pass_press_to_speak
  pass_press_to_speak-IsClosed top k s a r e h =
      if_Returns IsClosed (k || r.end_loop) (some (close_press_to_speak r)) _
        (λ _. close_press_to_speak-IsClosed r) (λ f. absurd (ground (arith, e, f)))
  pass_press_to_speak-IsClosed pressed k s a r e h =
      if_Returns IsClosed (r.press_to_speak_pressed && not r.end_loop && not k) (read_pressed k a r)
        (released k r) (λ f. absurd (ground (arith, e, f))) (λ _. released-IsClosed k r e)
  pass_press_to_speak-IsClosed p k s a r e h = cc

  -- The pass that ends either loop, and the one before it.
  pub pass-IsClosed :
      (k s : Bool) (a : Audio) (l : Loop) (r : Recognizer L)
      → r.end_loop ≡ true
      → ends_next l r.phase ≡ true
      → Returns IsClosed (pass s k a l r)
  unfolding pass step_continuous step_press_to_speak
  pass-IsClosed k s a continuous r e h = pass_continuous-IsClosed r.phase a r e h
  pass-IsClosed k s a press_to_speak r e h = pass_press_to_speak-IsClosed r.phase k s a r e h

  pub IsClosed-stays :
      (k s : Bool) (a : Audio) (l : Loop) (r : Recognizer L)
      → IsClosed r
      → Returns IsClosed (pass s k a l r)
  unfolding pass step_continuous step_press_to_speak pass_continuous pass_press_to_speak
  IsClosed-stays k s a continuous r v =
      subst (λ p. Returns IsClosed (pass_continuous p a r)) (sym v.at_end) v
  IsClosed-stays k s a press_to_speak r v =
      subst (λ p. Returns IsClosed (pass_press_to_speak p k s a r)) (sym v.at_end) v
