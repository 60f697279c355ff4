-- ===== src/Filters/Trimming.antt =====
-- What trimString cuts off.
use buckey.Common.{
  ℕ, ◌≡◌, refl, ap, ◌∙◌, inl, inr, Bool, true, false, List, [], ◌∷◌, ◌++◌, append_assoc, arith,
  Bool-cases, All,
}
use buckey.Filters.{is_space, ltrim, before_trimmed, rtrim, trim_string}

abbrev pub Spaces : List ℕ → Type 0
Spaces = All (λ c. is_space c ≡ true)

abbrev pub first_is_space : List ℕ → Bool
first_is_space [] = false
first_is_space (c ∷ s) = is_space c

abbrev pub last_is_space : List ℕ → Bool
last_is_space [] = false
last_is_space (c ∷ []) = is_space c
last_is_space (c ∷ d ∷ s) = last_is_space (d ∷ s)

-- A text cut in three.
pub record Cut (s front middle back : List ℕ) : Type 0 where
  pub whole : s ≡ front ++ (middle ++ back)
  pub front_spaces : Spaces front
  pub back_spaces : Spaces back
  pub first_kept : first_is_space middle ≡ false
  pub last_kept : last_is_space middle ≡ false

record LeftCut (s front : List ℕ) : Type 0 where
  pub whole : s ≡ front ++ ltrim s
  pub spaces : Spaces front

record RightCut (s back : List ℕ) : Type 0 where
  pub whole : s ≡ rtrim s ++ back
  pub spaces : Spaces back

ltrim-LeftCut : (s : List ℕ) → (front : List ℕ) × LeftCut s front
unfolding ltrim
ltrim-LeftCut [] = ([], record { whole = refl; spaces = tt })
ltrim-LeftCut (c ∷ s) = elim (Bool-cases (is_space c)) [
  | inl e ↦
      let (front, cut) = ltrim-LeftCut s in
      (
        c ∷ front,
        record { whole = rw (ltrim, e) (ap (λ t. c ∷ t) cut.whole); spaces = (e, cut.spaces) },
      )
  | inr e ↦ ([], record { whole = rw (ltrim, e) refl; spaces = tt })
]

ltrim-first : (s : List ℕ) → first_is_space (ltrim s) ≡ false
unfolding ltrim
ltrim-first [] = refl
ltrim-first (c ∷ s) = ground (arith, ltrim-first s)

ltrim-last : (s : List ℕ) → last_is_space s ≡ false → last_is_space (ltrim s) ≡ false
unfolding ltrim
ltrim-last [] h = refl
ltrim-last (c ∷ []) h = ground arith
ltrim-last (c ∷ d ∷ s) h = ground (arith, ltrim-last (d ∷ s) h)

rtrim-last : (s : List ℕ) → last_is_space (rtrim s) ≡ false
unfolding rtrim
rtrim-last [] = refl
rtrim-last (c ∷ s) = ground (arith, rtrim-last s)

before_trimmed-Spaces :
    (c : ℕ) (s r back : List ℕ)
    → s ≡ r ++ back
    → Spaces back
    → (cut : List ℕ) × (c ∷ s ≡ before_trimmed c r ++ cut) × Spaces cut
before_trimmed-Spaces c s [] back e h = elim (Bool-cases (is_space c)) [
  | inl q ↦ (c ∷ back, rw q (ap (λ t. c ∷ t) e), (q, h))
  | inr q ↦ (back, rw q (ap (λ t. c ∷ t) e), h)
]
before_trimmed-Spaces c s (d ∷ r) back e h = (back, ap (λ t. c ∷ t) e, h)

rtrim-RightCut : (s : List ℕ) → (back : List ℕ) × RightCut s back
unfolding rtrim
rtrim-RightCut [] = ([], record { whole = refl; spaces = tt })
rtrim-RightCut (c ∷ s) =
    let (back, cut) = rtrim-RightCut s in
    let (more, whole, spaces) = before_trimmed-Spaces c s (rtrim s) back cut.whole cut.spaces in
    (more, record { whole = whole; spaces = spaces })

-- A text is spaces, the trimmed text and spaces, in this order, and the trimmed text neither begins nor
-- ends with a space.
pub trim_string-Cut :
    (s : List ℕ) → (front : List ℕ) × (back : List ℕ) × Cut s front (trim_string s) back
unfolding trim_string
trim_string-Cut s =
    let (back, right) = rtrim-RightCut s in
    let (front, left) = ltrim-LeftCut (rtrim s) in
    (
      front,
      back,
      record {
        whole =
            right.whole
            ∙ (ap (λ t. t ++ back) left.whole ∙ append_assoc front (ltrim (rtrim s)) back);
        front_spaces = left.spaces;
        back_spaces = right.spaces;
        first_kept = ltrim-first (rtrim s);
        last_kept = ltrim-last (rtrim s) (rtrim-last s);
      },
    )
