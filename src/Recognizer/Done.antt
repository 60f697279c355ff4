-- ===== src/Recognizer/Done.antt =====
-- The array decodersDone of applyUpdates in src/sphinx/SphinxService.cpp as a set of indexes: how
-- many of the first n it misses.
use buckey.Common.{
  ℕ, zero, suc, ◌+◌, ◌≤◌, ◌<◌, ◌≡◌, refl, ◌≢◌, inl, inr, true, false, List, [], ◌∷◌, ◌++◌, arith,
  ◌==◌, if◌then◌else◌, Bool-cases, length, All,
}
use buckey.Recognizer.Apply.{mem}

pub mem-append : (j : ℕ) (xs ys : List ℕ) → mem j xs ≡ true → mem j (xs ++ ys) ≡ true
mem-append j [] ys h = cc
mem-append j (x ∷ xs) ys h = ground (arith, mem-append j xs ys)

pub mem-append_self : (i : ℕ) (xs : List ℕ) → mem i (xs ++ i ∷ []) ≡ true
mem-append_self i [] = ground arith
mem-append_self i (x ∷ xs) = ground (arith, mem-append_self i xs)

pub mem-append_ne : (i j : ℕ) (xs : List ℕ) → j ≢ i → mem j (xs ++ i ∷ []) ≡ mem j xs
mem-append_ne i j [] h = ground arith
mem-append_ne i j (x ∷ xs) h = ground (arith, mem-append_ne i j xs h)

mem-absent : (n i : ℕ) (ys : List ℕ) → i < n → All (λ j. n ≤ j) ys → mem i ys ≡ false
mem-absent n i [] h k = refl
mem-absent n i (y ∷ ys) h k = ground (arith, mem-absent n i ys h k.1, k.0)

pub mem-append_absent :
    (n i : ℕ) (xs ys : List ℕ) → i < n → All (λ j. n ≤ j) ys → mem i (xs ++ ys) ≡ mem i xs
mem-append_absent n i [] ys h k = mem-absent n i ys h k
mem-append_absent n i (x ∷ xs) ys h k = ground (arith, mem-append_absent n i xs ys h k)

pub mem-pos : (j : ℕ) (xs : List ℕ) → mem j xs ≡ true → 0 < length xs
mem-pos j [] h = cc
mem-pos j (x ∷ xs) h = omega arith

-- How many of the indexes below n a list misses.
abbrev pub missing : List ℕ → ℕ → ℕ
missing xs zero = 0
missing xs (suc n) = missing xs n + (if mem n xs then 0 else 1)

missing-append_ge : (xs : List ℕ) (i n : ℕ) → n ≤ i → missing (xs ++ i ∷ []) n ≡ missing xs n
missing-append_ge xs i zero h = refl
missing-append_ge xs i (suc n) h =
    rw
      (
        mem-append_ne i n xs (λ e. absurd (omega (arith, e, h))),
        missing-append_ge xs i n (omega arith),
      )
      refl

pub missing-append :
    (xs : List ℕ) (i n : ℕ) → i < n → mem i xs ≡ false → missing (xs ++ i ∷ []) n + 1 ≡ missing xs n
missing-append xs i zero h k = absurd (omega arith)
missing-append xs i (suc n) h k = elim (Bool-cases (n == i)) [
  | inl e ↦ ground (arith, e, k, mem-append_self i xs, missing-append_ge xs i n (ground (arith, e)))
  | inr e ↦ ground (
    arith,
    e,
    k,
    mem-append_ne i n xs (ground (arith, e)),
    missing-append xs i n (ground (arith, e, h)) k,
  )
]

pub missing-zero : (xs : List ℕ) (n : ℕ) → ((j : ℕ) → j < n → mem j xs ≡ true) → missing xs n ≡ 0
missing-zero xs zero h = refl
missing-zero xs (suc n) h =
    rw (h n (omega arith)) (omega (arith, missing-zero xs n (λ j l. h j (omega arith))))

pub mem-missing : (xs : List ℕ) (n j : ℕ) → missing xs n ≡ 0 → j < n → mem j xs ≡ true
mem-missing xs zero j h l = absurd (omega arith)
mem-missing xs (suc n) j h l = elim (Bool-cases (n == j)) [
  | inl e ↦ ground (arith, e, h)
  | inr e ↦ mem-missing xs n j (omega (arith, h)) (ground (arith, e, l))
]
