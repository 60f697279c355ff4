-- ===== src/Recognizer/Passes.antt =====
-- One pass of applyUpdates of src/sphinx/SphinxService.cpp while recognizing.
use buckey.Common.{
  ℕ, zero, suc, ◌+◌, ◌≤◌, ◌<◌, ◌≡◌, refl, sym, ◌∙◌, subst, ◌⊎◌, inl, inr, true, false, List, arith,
  ◌==◌, Bool-cases, length,
}
use buckey.Decoder.{PocketSphinx, Decoder}
use buckey.Decoder.Machine.{Returns}
use buckey.Recognizer.Apply.{mem, Progress, turn, turns}
use buckey.Recognizer.Valid.{Returns-bind, Returns-weaken}
use buckey.Recognizer.Turns.{AllStarted, Inv, Turned, turn-Turned}

module _ {L : PocketSphinx} where
  -- What a whole pass does, from one index on.
  pub record Passed (ds : List (Decoder L)) (i : ℕ) (p p' : Progress L) : Type 0 where
    pub inv : Inv ds p'
    pub grows : (j : ℕ) → mem j p.decoders_done ≡ true → mem j p'.decoders_done ≡ true
    pub covered :
        (j : ℕ) → i ≤ j → j < length ds → (mem j p'.decoders_done ≡ true) ⊎ (j ≡ p.current)
    pub selected : (p'.current ≡ p.current) ⊎ (mem p'.current p'.decoders_done ≡ true)
    pub moved : i ≤ p.current → 0 < length p.decoders_done → mem p'.current p'.decoders_done ≡ true
    pub longer : length p.decoders_done ≤ length p'.decoders_done

  then_Passed :
      (ds : List (Decoder L)) (i : ℕ) (p q p' : Progress L)
      → Turned ds i p q
      → Passed ds (i + 1) q p'
      → Passed ds i p p'
  then_Passed ds i p q p' t s =
      let kept : mem q.current q.decoders_done ≡ true → mem p'.current p'.decoders_done ≡ true =
        λ k. elim s.selected [
          | inl e ↦ subst (λ c. mem c p'.decoders_done ≡ true) (sym e) (s.grows q.current k)
          | inr m ↦ m
        ] in
      record {
        inv = s.inv;
        grows = λ j k. s.grows j (t.grows j k);
        covered = λ j h l. elim (Bool-cases (j == i)) [
          | inl e ↦ elim t.covered [
            | inl m ↦
                inl (subst (λ c. mem c p'.decoders_done ≡ true) (ground (arith, e)) (s.grows i m))
            | inr c ↦ inr (ground (arith, e, c))
          ]
          | inr e ↦ elim (s.covered j (ground (arith, e, h)) l) [
            | inl m ↦ inl m
            | inr c ↦ elim t.selected [
              | inl f ↦ inr (c ∙ f)
              | inr m ↦ inl (s.grows j (subst (λ c. mem c q.decoders_done ≡ true) (sym c) m))
            ]
          ]
        ];
        selected = elim t.selected [
          | inl f ↦ elim s.selected [ inl e ↦ inl (e ∙ f) | inr m ↦ inr m ]
          | inr m ↦ inr (kept m)
        ];
        moved = λ h l. elim (Bool-cases (i == p.current)) [
          | inl e ↦ kept (t.moved (ground (arith, e)) l)
          | inr e ↦ elim t.selected [
            | inl f ↦ s.moved (ground (arith, e, f, h)) (omega (arith, l, t.longer))
            | inr m ↦ kept m
          ]
        ];
        longer = omega (arith, t.longer, s.longer);
      }

  pub turns-Passed :
      (ds : List (Decoder L)) (m i : ℕ) (p : Progress L)
      → AllStarted ds
      → Inv ds p
      → m + i ≡ length ds
      → Returns (Passed ds i p) (turns false m i p)
  unfolding turns
  turns-Passed ds zero i p st v h = record {
    inv = v;
    grows = λ j k. k;
    covered = λ j k l. absurd (omega (arith, h, k, l));
    selected = inl refl;
    moved = λ k l. absurd (omega (arith, h, k, v.in_range));
    longer = omega arith;
  }
  turns-Passed ds (suc m) i p st v h =
      Returns-bind (Turned ds i p) (Passed ds i p) (turn false i p) _
        (turn-Turned ds i p st v (omega (arith, h)))
        (λ q t.
          Returns-weaken (Passed ds (i + 1) q) (Passed ds i p) (λ p' s. then_Passed ds i p q p' t s)
            (turns false m (i + 1) q) (turns-Passed ds m (i + 1) q st t.inv (omega (arith, h))))
