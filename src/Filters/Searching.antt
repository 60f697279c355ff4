-- ===== src/Filters/Searching.antt =====
-- What the tests on texts find.
use buckey.Common.{
  ℕ, ◌+◌, ◌-◌, ◌%◌, ◌<◌, ◌≡◌, refl, sym, ap, ◌∙◌, ◌≢◌, inl, inr, true, List, [], ◌∷◌, ◌++◌,
  append-nil, arith, Bool-cases, length, drop, length-append,
}
use buckey.Filters.{size_mod, npos, is_prefix, find_from, string_ends_with}

is_prefix-split : (test s : List ℕ) → is_prefix test s ≡ true → s ≡ test ++ drop (length test) s
is_prefix-split [] s h = refl
is_prefix-split (d ∷ test) [] h = cc
is_prefix-split (d ∷ test) (c ∷ s) h = ground (arith, is_prefix-split test s)

-- Where a text was found in another.
record Found (i : ℕ) (s test front back : List ℕ) : Type 0 where
  pub whole : s ≡ front ++ (test ++ back)
  pub index : find_from i s test ≡ i + length front

find_from-Found :
    (i : ℕ) (s test : List ℕ)
    → find_from i s test ≢ npos
    → (front : List ℕ) × (back : List ℕ) × Found i s test front back
unfolding find_from
find_from-Found i [] [] h = ([], [], record { whole = refl; index = omega arith })
find_from-Found i [] (d ∷ test) h = absurd (h refl)
find_from-Found i (c ∷ s) test h = elim (Bool-cases (is_prefix test (c ∷ s))) [
  | inl e ↦ (
    [],
    drop (length test) (c ∷ s),
    record { whole = is_prefix-split test (c ∷ s) e; index = rw (find_from, e) (omega arith) },
  )
  | inr e ↦
      let (front, back, found) = find_from-Found (i + 1) s test (rw (find_from, e) at h) in
      (
        c ∷ front,
        back,
        record {
          whole = ap (λ t. c ∷ t) found.whole;
          index = rw (find_from, e) (found.index ∙ omega arith);
        },
      )
]

length-parts :
    (front test back : List ℕ)
    → length (front ++ (test ++ back)) ≡ length front + (length test + length back)
length-parts front test back =
    length-append front (test ++ back) ∙ ap (λ n. length front + n) (length-append test back)

no_back : (front test back : List ℕ) → length back ≡ 0 → front ++ (test ++ back) ≡ front ++ test
no_back front test [] e = ap (λ t. front ++ t) (append-nil test)
no_back front test (c ∷ back) e = absurd (omega arith)

-- If stringEndsWith says yes, the text ends with the other one. The text is shorter than 2^64 - 1.
pub string_ends_with-suffix :
    (s test : List ℕ)
    → length s < npos
    → string_ends_with s test ≡ true
    → (front : List ℕ) × (s ≡ front ++ test)
unfolding string_ends_with
string_ends_with-suffix s test b h =
    let (front, back, found) = find_from-Found 0 s test (ground arith) in
    let size : length s ≡ length front + (length test + length back) =
      ap length found.whole ∙ length-parts front test back in
    let at : 0 + length front ≡ (length s + size_mod - length test) % size_mod =
      sym found.index ∙ ground arith in
    (front, found.whole ∙ no_back front test back (omega arith))
