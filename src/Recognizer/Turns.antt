-- ===== src/Recognizer/Turns.antt =====
-- One turn of a pass of applyUpdates of src/sphinx/SphinxService.cpp while recognizing.
use buckey.Common.{
  ℕ, ◌+◌, ◌≤◌, ◌<◌, ◌≡◌, refl, sym, ap, ◌∙◌, subst, ◌≢◌, ◌⊎◌, inl, inr, true, false, some, List, [],
  ◌∷◌, ◌++◌, arith, ◌==◌, if◌then◌else◌, Bool-cases, Option-cases, length, get_elem?, set, drop,
  length-append, All, All-append, length-set, get_elem?_of_lt, get_elem?-set_self, get_elem?-set_ne,
  All-get_elem?,
}
use buckey.Decoder.{PocketSphinx, Decoder, ◌>>=◌, is_started}
use buckey.Decoder.Machine.{Returns}
use buckey.Recognizer.Apply.{mem, Progress, first_done, renew, renew_at, turn}
use buckey.Recognizer.Done.{
  mem-append, mem-append_self, mem-append_ne, mem-append_absent, missing, missing-append,
}
use buckey.Recognizer.Loops.{if_Returns}
use buckey.Recognizer.Valid.{renew-IsLive}

-- No entry of the array is an index by chance.
abbrev pub NoIndex : ℕ → List ℕ → Type 0
NoIndex n = All (λ j. n ≤ j)

first_done-cases :
    (c : ℕ) (xs : List ℕ)
    → ((first_done c xs ≡ c) × (length xs ≡ 0)) ⊎ (mem (first_done c xs) xs ≡ true)
first_done-cases c [] = inl (refl, refl)
first_done-cases c (x ∷ xs) = inr (ground arith)

first_done-lt : (n c : ℕ) (xs : List ℕ) → c < n → All (λ i. i < n) xs → first_done c xs < n
first_done-lt n c [] h k = h
first_done-lt n c (x ∷ xs) h k = k.0

NoIndex-drop : (n : ℕ) (xs : List ℕ) → NoIndex n xs → NoIndex n (drop 1 xs)
NoIndex-drop n [] h = h
NoIndex-drop n (x ∷ xs) h = h.1

module _ {L : PocketSphinx} where
  abbrev pub AllStarted : List (Decoder L) → Type 0
  AllStarted = All (λ d. is_started d.state ≡ true)

  renewed : (d : Decoder L) → (d' : Decoder L) × (renew d ≡ some d')
  renewed d = elim (Option-cases (renew d)) [
    | inl e ↦ absurd (subst (Returns _) e (renew-IsLive d))
    | inr x ↦ x
  ]

  -- The decoders of the array are renewed and the others as they were.
  pub record Inv (ds : List (Decoder L)) (p : Progress L) : Type 0 where
    pub same_length : length p.decoders ≡ length ds
    pub in_range : p.current < length ds
    pub done_in_range : All (λ i. i < length ds) p.decoders_done
    pub no_index : NoIndex (length ds) p.junk
    pub counted : length p.decoders_done + missing p.decoders_done (length ds) ≡ length ds
    pub renewed_at :
        (j : ℕ) (d : Decoder L)
        → get_elem? ds j ≡ some d
        → get_elem? p.decoders j ≡ (if mem j p.decoders_done then renew d else some d)

  pub record Turned (ds : List (Decoder L)) (i : ℕ) (p p' : Progress L) : Type 0 where
    pub inv : Inv ds p'
    pub grows : (j : ℕ) → mem j p.decoders_done ≡ true → mem j p'.decoders_done ≡ true
    pub covered : (mem i p'.decoders_done ≡ true) ⊎ (i ≡ p.current)
    pub selected : (p'.current ≡ p.current) ⊎ (mem p'.current p'.decoders_done ≡ true)
    pub moved : i ≡ p.current → 0 < length p.decoders_done → mem p'.current p'.decoders_done ≡ true
    pub longer : length p.decoders_done ≤ length p'.decoders_done

  stays-Turned :
      (ds : List (Decoder L)) (i : ℕ) (p : Progress L)
      → Inv ds p
      → mem i p.decoders_done ≡ true
      → Turned ds i p p
  stays-Turned ds i p v m = record {
    inv = v;
    grows = λ j h. h;
    covered = inl m;
    selected = inl refl;
    moved = λ e h. subst (λ c. mem c p.decoders_done ≡ true) e m;
    longer = omega arith;
  }

  selects-Turned :
      (ds : List (Decoder L)) (i : ℕ) (p : Progress L)
      → Inv ds p
      → i ≡ p.current
      → Turned ds i p (record p { current = first_done p.current p.decoders_done })
  selects-Turned ds i p v e = record {
    inv = record {
      same_length = v.same_length;
      in_range = first_done-lt (length ds) p.current p.decoders_done v.in_range v.done_in_range;
      done_in_range = v.done_in_range;
      no_index = v.no_index;
      counted = v.counted;
      renewed_at = v.renewed_at;
    };
    grows = λ j h. h;
    covered = inr e;
    selected = elim (first_done-cases p.current p.decoders_done) [
      | inl h ↦ inl h.0
      | inr h ↦ inr h
    ];
    moved = λ _ h. elim (first_done-cases p.current p.decoders_done) [
      | inl k ↦ absurd (omega (arith, h, k.1))
      | inr k ↦ k
    ];
    longer = omega arith;
  }

  renews-Inv :
      (ds : List (Decoder L)) (i : ℕ) (p : Progress L) (d d' : Decoder L)
      → Inv ds p
      → i < length ds
      → mem i p.decoders_done ≡ false
      → get_elem? ds i ≡ some d
      → renew d ≡ some d'
      → Inv ds (record p {
        decoders = set p.decoders i d';
        decoders_done = p.decoders_done ++ i ∷ [];
        junk = drop 1 p.junk;
      })
  renews-Inv ds i p d d' v h m g e = record {
    same_length = length-set p.decoders i d' ∙ v.same_length;
    in_range = v.in_range;
    done_in_range = All-append _ p.decoders_done (i ∷ []) v.done_in_range (h, tt);
    no_index = NoIndex-drop (length ds) p.junk v.no_index;
    counted = omega (
      arith,
      v.counted,
      length-append p.decoders_done (i ∷ []),
      missing-append p.decoders_done i (length ds) h m,
    );
    renewed_at = λ j b f. elim (Bool-cases (j == i)) [
      | inl q ↦
          let same : j ≡ i = ground (arith, q) in
          ap (get_elem? (set p.decoders i d')) same
          ∙ get_elem?-set_self p.decoders i d' (omega (arith, h, v.same_length))
          ∙ sym e
          ∙ ap (λ o. o >>= renew) (sym g ∙ sym (ap (get_elem? ds) same) ∙ f)
          ∙ sym (
              ap (λ t. if t then renew b else some b)
                (ap (λ k. mem k (p.decoders_done ++ i ∷ [])) same
                  ∙ mem-append_self i p.decoders_done))
      | inr q ↦
          let other : j ≢ i = ground (arith, q) in
          get_elem?-set_ne p.decoders i j d' (λ z. other (sym z))
          ∙ v.renewed_at j b f
          ∙ sym (ap (λ t. if t then renew b else some b) (mem-append_ne i j p.decoders_done other))
    ];
  }

  renews-Turned :
      (ds : List (Decoder L)) (i : ℕ) (p : Progress L)
      → AllStarted ds
      → Inv ds p
      → i < length ds
      → mem i p.decoders_done ≡ false
      → Returns
          (Turned ds i p)
          (do d ← get_elem? p.decoders i; if is_started d.state then renew_at i p else some p)
  unfolding renew_at
  renews-Turned ds i p st v h m =
      let (d, g) = get_elem?_of_lt ds i h in
      let (d', e) = renewed d in
      let at = v.renewed_at i d g ∙ ap (λ t. if t then renew d else some d) m in
      let write : Decoder L → Progress L = λ x. record p {
        decoders = set p.decoders i x;
        decoders_done = p.decoders_done ++ i ∷ [];
        junk = drop 1 p.junk;
      } in
      subst
        (λ o. Returns (Turned ds i p) (do
          x ← o
          if is_started x.state then (do y ← o; z ← renew y; some (write z)) else some p))
        (sym at)
        (subst
          (λ b. Returns (Turned ds i p) (if b then (do z ← renew d; some (write z)) else some p))
          (sym (All-get_elem? (λ d. is_started d.state ≡ true) ds i st g))
          (subst (λ o. Returns (Turned ds i p) (do z ← o; some (write z))) (sym e)
            (record {
              inv = renews-Inv ds i p d d' v h m g e;
              grows = λ j k. mem-append j p.decoders_done (i ∷ []) k;
              covered = inl (mem-append_self i p.decoders_done);
              selected = inl refl;
              moved = λ q _.
                  subst (λ c. mem c (p.decoders_done ++ i ∷ []) ≡ true) q
                    (mem-append_self i p.decoders_done);
              longer = omega (arith, length-append p.decoders_done (i ∷ []));
            })))

  pub turn-Turned :
      (ds : List (Decoder L)) (i : ℕ) (p : Progress L)
      → AllStarted ds
      → Inv ds p
      → i < length ds
      → Returns (Turned ds i p) (turn false i p)
  unfolding turn
  turn-Turned ds i p st v h =
      let seen = mem-append_absent (length ds) i p.decoders_done p.junk h v.no_index in
      if_Returns (Turned ds i p) (mem i (p.decoders_done ++ p.junk)) (some p) _
        (λ m. stays-Turned ds i p v (sym seen ∙ m))
        (λ m.
          if_Returns (Turned ds i p) (i == p.current) _ _
            (λ e. selects-Turned ds i p v (ground (arith, e)))
            (λ _. renews-Turned ds i p st v h (sym seen ∙ m)))
