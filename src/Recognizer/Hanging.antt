-- ===== src/Recognizer/Hanging.antt =====
-- The waits of src/sphinx/SphinxService.cpp that end and those that do not.
use buckey.Common.{
  ℕ, zero, suc, ◌-◌, ◌≤◌, ◌<◌, ◌≡◌, refl, sym, ap, ◌∙◌, subst, inl, inr, Bool, true, false, not,
  none, some, List, [], ◌∷◌, arith, ltb, if◌then◌else◌, Bool-cases, get_elem?, String, if_holds,
}
use buckey.Decoder.{PocketSphinx, Decoder, ◌>>=◌}
use buckey.Decoder.Machine.{Returns}
use buckey.Recognizer.{Recognizer}
use buckey.Recognizer.Apply.{mem, Progress, turn, turns, rounds, apply_updates}
use buckey.Recognizer.Words.{ask, ask_current, word_exists}
use buckey.Recognizer.Valid.{Returns-bind}

turns_zero : (n : ℕ) → n ≤ 1 → n - 1 ≡ zero
turns_zero n h = omega arith

turns_suc : (n : ℕ) → 1 < n → n - 1 ≡ suc (n - 2)
turns_suc n h = omega arith

module _ {L : PocketSphinx} where
  -- The progress over one decoder, which is current, before anything is done.
  abbrev only : Decoder L → List ℕ → Progress L
  only d junk = record { decoders = d ∷ []; current = 0; decoders_done = []; junk = junk }

  turn-only :
      (u : Bool) (d : Decoder L) (junk : List ℕ) → turn u 0 (only d junk) ≡ some (only d junk)
  unfolding turn
  turn-only u d junk =
      if_holds (λ o. o ≡ some (only d junk)) (mem 0 junk) (some (only d junk)) _ (λ _. refl)
        (λ _.
          if_holds (λ o. o ≡ some (only d junk)) u (some (only d junk)) _ (λ _. refl) (λ _. refl))

  rounds-only :
      (u : Bool) (fuel : ℕ) (d : Decoder L) (junk : List ℕ)
      → rounds u fuel (only d junk) ≡ some (only d junk, false)
  unfolding rounds turns
  rounds-only u zero d junk = refl
  rounds-only u (suc fuel) d junk =
      ap (λ o. do p' ← (do p' ← o; some p'); rounds u fuel p') (turn-only u d junk)
      ∙ rounds-only u fuel d junk

  -- The call still runs and holds the lock, and no decoder has changed.
  abbrev pub Hangs : Recognizer L → Recognizer L × Bool → Type 0
  Hangs r s = (s.1 ≡ false) × (s.0.update_locked ≡ true) × (s.0.decoders ≡ r.decoders)

  -- With a single decoder that is current, applyUpdates never ends while recognizing, for it never
  -- renews the current decoder: however many passes it makes and whatever the uninitialised array
  -- holds, it still runs, has changed no decoder and keeps the lock that it took.
  pub apply_updates-one :
      (fuel : ℕ) (junk : List ℕ) (r : Recognizer L) (d : Decoder L)
      → r.update_locked ≡ false
      → r.recognizing ≡ true
      → r.decoders ≡ d ∷ []
      → r.current ≡ 0
      → Returns (Hangs r) (apply_updates fuel junk r)
  unfolding apply_updates
  apply_updates-one fuel junk r d free rec ds c =
      if_holds (Returns (Hangs r)) r.update_locked (some (r, false)) _
        (λ e. absurd (ground (arith, e, free)))
        (λ _.
          if_holds (Returns (Hangs r)) r.recognizing _ _
            (λ _.
              Returns-bind (λ q. q ≡ (only d junk, false)) (Hangs r)
                (rounds r.in_utterance fuel (record {
                  decoders = r.decoders;
                  current = r.current;
                  decoders_done = [];
                  junk = junk;
                }))
                _
                (subst (λ p. Returns (λ q. q ≡ (only d junk, false)) (rounds r.in_utterance fuel p))
                  (sym (λ i. record {
                    decoders = ds i;
                    current = c i;
                    decoders_done = [];
                    junk = junk;
                  }))
                  (subst (Returns (λ q. q ≡ (only d junk, false)))
                    (sym (rounds-only r.in_utterance fuel d junk)) refl))
                (λ q e. (ap (λ q. q.1) e, ap (λ q. not q.1) e, ap (λ q. q.0.decoders) e ∙ sym ds)))
            (λ e. absurd (ground (arith, e, rec))))

  ask-ready :
      (d : Decoder L) (word : String) (n : ℕ) (p : L.Ps)
      → d.ready ≡ true
      → d.ps ≡ some p
      → ask d word (suc n) ≡ some (some (L.ps_lookup_word p word))
  unfolding ask buckey.Decoder.word_exists
  ask-ready d word n p ready ps =
      ap
        (λ b. if b then (do b ← buckey.Decoder.word_exists word d; some (some b)) else ask d word n)
        ready
      ∙ ap
          (λ o. do
            b ← elim o [ none ↦ none | some ps ↦ some (L.ps_lookup_word ps word) ]
            some (some b))
          ps

  word_exists-never :
      (fuel : ℕ) (word : String) (r : Recognizer L)
      → r.max_decoders ≤ 1
      → word_exists fuel word r ≡ some none
  unfolding word_exists ask_current
  word_exists-never zero word r h = refl
  word_exists-never (suc fuel) word r h =
      ap
        (λ n. do
          answer ← ask_current word n r
          elim answer [ none ↦ word_exists fuel word r | some b ↦ some (some b) ])
        (turns_zero r.max_decoders h)
      ∙ word_exists-never fuel word r h

  -- wordExists answers in its first pass what the dictionary of the current decoder says, if that is
  -- ready and has a decoder of the library, and there are at least two decoders; with at most one it
  -- never answers, whatever the decoders are.
  pub word_exists-answers :
      (fuel : ℕ) (word : String) (r : Recognizer L) (d : Decoder L) (p : L.Ps)
      → get_elem? r.decoders r.current ≡ some d
      → d.ready ≡ true
      → d.ps ≡ some p
      → word_exists (suc fuel) word r
        ≡ (if ltb 1 r.max_decoders then some (some (L.ps_lookup_word p word)) else some none)
  unfolding word_exists ask_current
  word_exists-answers fuel word r d p g ready ps = elim (Bool-cases (ltb 1 r.max_decoders)) [
    | inl e ↦
        ap
          (λ n. do
            answer ← ask_current word n r
            elim answer [ none ↦ word_exists fuel word r | some b ↦ some (some b) ])
          (turns_suc r.max_decoders (ground (arith, e)))
        ∙ ap
            (λ o. do
              answer ← (do d ← o; ask d word (suc (r.max_decoders - 2)))
              elim answer [ none ↦ word_exists fuel word r | some b ↦ some (some b) ])
            g
        ∙ ap
            (λ o. do
              answer ← o
              elim answer [ none ↦ word_exists fuel word r | some b ↦ some (some b) ])
            (ask-ready d word (r.max_decoders - 2) p ready ps)
        ∙ ap (λ b. if b then some (some (L.ps_lookup_word p word)) else some none) (sym e)
    | inr e ↦
        word_exists-never (suc fuel) word r (ground (arith, e))
        ∙ ap (λ b. if b then some (some (L.ps_lookup_word p word)) else some none) (sym e)
  ]
