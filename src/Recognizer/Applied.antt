-- ===== src/Recognizer/Applied.antt =====
-- applyUpdates of src/sphinx/SphinxService.cpp while recognizing: when it ends, and what it has done.
use buckey.Common.{
  ℕ, zero, suc, ◌+◌, ◌≤◌, ◌<◌, ◌≡◌, refl, sym, ap, ◌∙◌, subst, inl, inr, Bool, true, false, not,
  Option, some, List, [], ◌∷◌, arith, ◌==◌, if◌then◌else◌, length, get_elem?, lt_of_get_elem?,
}
use buckey.Decoder.{PocketSphinx, Decoder}
use buckey.Decoder.Machine.{Returns}
use buckey.Recognizer.{Recognizer, each_decoder}
use buckey.Recognizer.Apply.{mem, Progress, renew, turns, rounds, apply_updates}
use buckey.Recognizer.Done.{mem-pos, missing, missing-zero, mem-missing}
use buckey.Recognizer.Loops.{if_Returns}
use buckey.Recognizer.Passes.{Passed, turns-Passed}
use buckey.Recognizer.Turns.{AllStarted, NoIndex, Inv}
use buckey.Recognizer.Valid.{Returns-bind}

missing-nil : (n : ℕ) → 0 + missing [] n ≡ n
missing-nil zero = refl
missing-nil (suc n) = omega (arith, missing-nil n)

module _ {L : PocketSphinx} where
  -- Lists that agree at all indexes, the one renewed.
  each_decoder_at :
      (f : Decoder L → Option (Decoder L)) (xs ys : List (Decoder L))
      → length ys ≡ length xs
      → ((j : ℕ) (d : Decoder L) → get_elem? xs j ≡ some d → get_elem? ys j ≡ f d)
      → each_decoder f xs ≡ some ys
  unfolding each_decoder
  each_decoder_at f [] [] e h = refl
  each_decoder_at f [] (y ∷ ys) e h = absurd (omega (arith, e))
  each_decoder_at f (x ∷ xs) [] e h = absurd (omega (arith, e))
  each_decoder_at f (x ∷ xs) (y ∷ ys) e h =
      rw (sym (h 0 x refl), each_decoder_at f xs ys (omega (arith, e)) (λ j d g. h (suc j) d g))
        refl

  -- The loop has ended, and the decoders are those that a renewal of each gives.
  abbrev Ended : List (Decoder L) → Progress L × Bool → Type 0
  Ended ds q = (q.1 ≡ true) × (each_decoder renew ds ≡ some q.0.decoders)

  done-Ended :
      (ds : List (Decoder L)) (p : Progress L)
      → Inv ds p
      → missing p.decoders_done (length ds) ≡ 0
      → each_decoder renew ds ≡ some p.decoders
  done-Ended ds p v m = each_decoder_at renew ds p.decoders v.same_length (λ j d g.
      v.renewed_at j d g
      ∙ ap (λ b. if b then renew d else some d)
          (mem-missing p.decoders_done (length ds) j m (lt_of_get_elem? ds j g)))

  -- The test of the loop, once it holds.
  counted-Ended :
      (ds : List (Decoder L)) (p : Progress L)
      → Inv ds p
      → (length p.decoders_done == length p.decoders) ≡ true
      → each_decoder renew ds ≡ some p.decoders
  counted-Ended ds p v e = done-Ended ds p v (ground (arith, v.counted, v.same_length, e))

  all_done-Ended :
      (ds : List (Decoder L)) (p : Progress L)
      → Inv ds p
      → ((j : ℕ) → j < length ds → mem j p.decoders_done ≡ true)
      → Returns (Ended ds) (rounds false 0 p)
  unfolding rounds
  all_done-Ended ds p v h =
      let m = missing-zero p.decoders_done (length ds) h in
      (ground (arith, v.counted, v.same_length, m), done-Ended ds p v m)

  -- A round more, for what every pass brings about.
  round-Ended :
      (ds : List (Decoder L)) (fuel : ℕ) (p : Progress L)
      → AllStarted ds
      → Inv ds p
      → ((p' : Progress L) → Passed ds 0 p p' → Returns (Ended ds) (rounds false fuel p'))
      → Returns (Ended ds) (rounds false (suc fuel) p)
  unfolding rounds
  round-Ended ds fuel p st v k =
      if_Returns (Ended ds) (length p.decoders_done == length p.decoders) (some (p, true)) _
        (λ e. (refl, counted-Ended ds p v e))
        (λ _.
          Returns-bind (Passed ds 0 p) (Ended ds) (turns false (length p.decoders) 0 p) _
            (turns-Passed ds (length p.decoders) 0 p st v (omega (arith, v.same_length))) k)

  settled-Ended :
      (ds : List (Decoder L)) (p : Progress L)
      → AllStarted ds
      → Inv ds p
      → mem p.current p.decoders_done ≡ true
      → Returns (Ended ds) (rounds false 1 p)
  settled-Ended ds p st v m = round-Ended ds 0 p st v (λ p' s. all_done-Ended ds p' s.inv (λ j h.
      elim (s.covered j (omega arith) h) [
        | inl k ↦ k
        | inr c ↦ s.grows j (subst (λ c. mem c p.decoders_done ≡ true) (sym c) m)
      ]))

  begun-Ended :
      (ds : List (Decoder L)) (p : Progress L)
      → AllStarted ds
      → Inv ds p
      → 0 < length p.decoders_done
      → Returns (Ended ds) (rounds false 2 p)
  begun-Ended ds p st v h =
      round-Ended ds 1 p st v (λ p' s. settled-Ended ds p' st s.inv (s.moved (omega arith) h))

  -- Of two decoders the first pass renews the one that is not current.
  Passed-pos :
      (ds : List (Decoder L)) (p p' : Progress L)
      → 2 ≤ length ds
      → Passed ds 0 p p'
      → 0 < length p'.decoders_done
  Passed-pos ds p p' h s = elim (s.covered 0 (omega arith) (omega (arith, h))) [
    | inl m ↦ mem-pos 0 p'.decoders_done m
    | inr c ↦ elim (s.covered 1 (omega arith) (omega (arith, h))) [
      | inl m ↦ mem-pos 1 p'.decoders_done m
      | inr d ↦ absurd (omega (arith, c, d))
    ]
  ]

  -- The call has returned, the lock is free, and the decoders are those that a renewal of each gives.
  abbrev pub Applied : Recognizer L → Recognizer L × Bool → Type 0
  Applied r s =
      (s.1 ≡ true)
      × (s.0.update_locked ≡ false)
      × (each_decoder renew r.decoders ≡ some s.0.decoders)

  -- While recognizing, applyUpdates ends within three passes over the decoders and gives the lock back,
  -- and then each decoder is what a reload and a start of it give, in the order they had, if: the lock
  -- is free, no utterance is going on, there are at least two decoders, all in a started utterance, the
  -- current index is in range, and no entry of the uninitialised array happens to be an index.
  pub apply_updates-renews :
      (r : Recognizer L) (junk : List ℕ)
      → r.update_locked ≡ false
      → r.recognizing ≡ true
      → r.in_utterance ≡ false
      → 2 ≤ length r.decoders
      → r.current < length r.decoders
      → AllStarted r.decoders
      → NoIndex (length r.decoders) junk
      → Returns (Applied r) (apply_updates 3 junk r)
  unfolding apply_updates
  apply_updates-renews r junk free rec idle two lt st none_junk =
      let ds = r.decoders in
      let from : Progress L = record {
        decoders = ds;
        current = r.current;
        decoders_done = [];
        junk = junk;
      } in
      let v : Inv ds from = record {
        same_length = refl;
        in_range = lt;
        done_in_range = tt;
        no_index = none_junk;
        counted = missing-nil (length ds);
        renewed_at = λ j d g. g;
      } in
      if_Returns (Applied r) r.update_locked (some (r, false)) _
        (λ e. absurd (ground (arith, e, free)))
        (λ _.
          if_Returns (Applied r) r.recognizing _ _
            (λ _.
              Returns-bind (Ended ds) (Applied r) (rounds r.in_utterance 3 from) _
                (subst (λ u. Returns (Ended ds) (rounds u 3 from)) (sym idle)
                  (round-Ended ds 2 from st v
                    (λ p' s. begun-Ended ds p' st s.inv (Passed-pos ds from p' two s))))
                (λ q k. (k.0, ap not k.0, k.1)))
            (λ e. absurd (ground (arith, e, rec))))
