-- ===== src/Recognizer/Ending.antt =====
-- How the loops of src/sphinx/SphinxService.cpp end when they are asked to.
use buckey.Common.{
  ℕ, ◌≤◌, ◌≡◌, refl, sym, ap, ◌∙◌, subst, inl, inr, Bool, true, not, some, [], ◌∷◌, arith, length,
  if_holds,
}
use buckey.Decoder.{PocketSphinx, ◌>>=◌}
use buckey.Decoder.Machine.{Returns}
use buckey.Recognizer.{
  Recognizer, Audio, top, refreshing, Loop, continuous, press_to_speak, refresh,
}
use buckey.Recognizer.Continuous.{step_continuous, pass_continuous}
use buckey.Recognizer.PressToSpeak.{step_press_to_speak, pass_press_to_speak}
use buckey.Recognizer.Valid.{Returns-bind}
use buckey.Recognizer.Loops.{if_Returns}
use buckey.Recognizer.Runs.{
  pass, run_thread, step, run, after_call, loops, stops_recognition, is_unstarted,
}
use buckey.Recognizer.Control.{stop_recognition, has_ended, Called, returns, waits, terminates}
use buckey.Recognizer.Control.{stop_recognition}
use buckey.Recognizer.Closing.{
  is_looping, ends_next, fits, IsClosed, begun-next, false-true, last-or-refreshing,
  looping-not_ended, ends_at_top, refresh-only, pass-IsClosed, IsClosed-stays,
}

module _ {L : PocketSphinx} where
  -- A loop that has begun and been asked to end.
  record IsAsked (l : Loop) (r : Recognizer L) : Type 0 where
    asked : r.end_loop ≡ true
    thread : r.joinable ≡ true
    which : r.loop ≡ l

  run_thread-IsClosed :
      (o s k : Bool) (a : Audio) (l : Loop) (r : Recognizer L)
      → IsAsked l r
      → ends_next l r.phase ≡ true
      → Returns IsClosed (run_thread o s k a r)
  unfolding run_thread
  run_thread-IsClosed o s k a l r v e =
      if_Returns IsClosed (not r.joinable) (some r) _ (λ f. absurd (ground (arith, f, v.thread)))
        (λ _.
          if_Returns IsClosed (is_unstarted r.phase) _ (pass s k a r.loop r)
            (λ f. absurd (begun-next l r.phase f e))
            (λ _.
              subst (λ l. Returns IsClosed (pass s k a l r)) (sym v.which)
                (pass-IsClosed k s a l r v.asked e)))

  run_thread-IsClosed' :
      (o s k : Bool) (a : Audio) (r : Recognizer L)
      → IsClosed r
      → Returns IsClosed (run_thread o s k a r)
  unfolding run_thread
  run_thread-IsClosed' o s k a r v =
      if_Returns IsClosed (not r.joinable) (some r) _ (λ _. v)
        (λ _.
          if_Returns IsClosed (is_unstarted r.phase) _ (pass s k a r.loop r)
            (λ f. absurd (false-true (ap is_unstarted (sym v.at_end) ∙ f)))
            (λ _. IsClosed-stays k s a r.loop r v))

  top_again :
      (l : Loop) (r : Recognizer L)
      → IsAsked l r
      → r.max_decoders ≤ length r.decoders
      → Returns
          (λ r'. IsAsked l r' × (r'.phase ≡ top))
          (do r' ← refresh r.max_decoders 0 r; some (record r' { phase = top }))
  top_again l r v h =
      Returns-bind (λ r'. (c : ℕ) × (r' ≡ record r { current = c }))
        (λ r'. IsAsked l r' × (r'.phase ≡ top)) (refresh r.max_decoders 0 r) _
        (refresh-only r.max_decoders 0 r (omega (arith, h)))
        (λ r' x. (
          record {
            asked = ap (λ (t : Recognizer L). t.end_loop) x.1 ∙ v.asked;
            thread = ap (λ (t : Recognizer L). t.joinable) x.1 ∙ v.thread;
            which = ap (λ (t : Recognizer L). t.loop) x.1 ∙ v.which;
          },
          refl,
        ))

  refreshed :
      (s k : Bool) (a : Audio) (l m : Loop) (r : Recognizer L)
      → IsAsked l r
      → r.phase ≡ refreshing
      → r.max_decoders ≤ length r.decoders
      → Returns (λ r'. IsAsked l r' × (r'.phase ≡ top)) (pass s k a m r)
  unfolding pass step_continuous step_press_to_speak pass_continuous pass_press_to_speak
  refreshed s k a l continuous r v p h =
      subst (λ p. Returns (λ r'. IsAsked l r' × (r'.phase ≡ top)) (pass_continuous p a r)) (sym p)
        (top_again l r v h)
  refreshed s k a l press_to_speak r v p h =
      subst (λ p. Returns (λ r'. IsAsked l r' × (r'.phase ≡ top)) (pass_press_to_speak p k s a r))
        (sym p) (top_again l r v h)

  run_thread-top :
      (o s k : Bool) (a : Audio) (l : Loop) (r : Recognizer L)
      → IsAsked l r
      → r.phase ≡ refreshing
      → r.max_decoders ≤ length r.decoders
      → Returns (λ r'. IsAsked l r' × (r'.phase ≡ top)) (run_thread o s k a r)
  unfolding run_thread
  run_thread-top o s k a l r v p h =
      let Q : Recognizer L → Type 0 = λ r'. IsAsked l r' × (r'.phase ≡ top) in
      if_Returns Q (not r.joinable) (some r) _ (λ f. absurd (ground (arith, f, v.thread)))
        (λ _.
          if_Returns Q (is_unstarted r.phase) _ (pass s k a r.loop r)
            (λ f. absurd (false-true (ap is_unstarted (sym p) ∙ f)))
            (λ _. refreshed s k a l r.loop r v p h))

  two_passes :
      (o s k o' s' k' : Bool) (a b : Audio) (r : Recognizer L)
      → IsAsked r.loop r
      → is_looping r.phase ≡ true
      → fits r.loop r.phase ≡ true
      → r.max_decoders ≤ length r.decoders
      → Returns IsClosed (do r' ← run_thread o s k a r; r'' ← run_thread o' s' k' b r'; some r'')
  two_passes o s k o' s' k' a b r v g f h = elim (last-or-refreshing r.loop r.phase g f) [
    | inl e ↦
        Returns-bind IsClosed IsClosed (run_thread o s k a r) _
          (run_thread-IsClosed o s k a r.loop r v e)
          (λ r' c.
            Returns-bind IsClosed IsClosed (run_thread o' s' k' b r') some
              (run_thread-IsClosed' o' s' k' b r' c) (λ r'' d. d))
    | inr p ↦
        Returns-bind _ IsClosed (run_thread o s k a r) _ (run_thread-top o s k a r.loop r v p h)
          (λ r' c.
            Returns-bind IsClosed IsClosed (run_thread o' s' k' b r') some
              (run_thread-IsClosed o' s' k' b r.loop r' c.0 (ends_at_top r.loop r'.phase c.1))
              (λ r'' d. d))
  ]

  -- A request to stop ends a loop that has begun, of either kind and wherever in it the thread stands,
  -- within two of its passes, whatever audio comes: the thread is behind the close of the device, and
  -- the service neither recognizes nor counts as running, if at least max_decoders decoders are there.
  pub stop_recognition-ends :
      (o s k o' s' k' : Bool) (a b : Audio) (r : Recognizer L)
      → r.joinable ≡ true
      → is_looping r.phase ≡ true
      → fits r.loop r.phase ≡ true
      → r.max_decoders ≤ length r.decoders
      → Returns IsClosed (run (stops_recognition ∷ loops o s k a ∷ loops o' s' k' b ∷ []) r)
  unfolding run step stop_recognition after_call
  stop_recognition-ends o s k o' s' k' a b r j g f h =
      let stopping = record r { end_loop = true } in
      let asked : IsAsked r.loop stopping = record { asked = refl; thread = j; which = refl } in
      let ends = two_passes o s k o' s' k' a b stopping asked g f h in
      let Ends : Called (Recognizer L) → Type 0 = λ c.
        Returns IsClosed
          (do r' ← run_thread o s k a (after_call r c); r'' ← run_thread o' s' k' b r'; some r'') in
      if_holds Ends (not r.manage_thread_running) (returns stopping) _ (λ _. ends)
        (λ _.
          if_holds Ends (not r.joinable) terminates _ (λ e. absurd (ground (arith, e, j)))
            (λ _.
              if_holds Ends (has_ended r.phase) _ (waits stopping)
                (λ e. absurd (looping-not_ended r.phase g e)) (λ _. ends)))
