-- ===== src/RootGrammar/Removal.antt =====
-- A mode that is added to the root grammar and removed from it, in src/core/Buckey.cpp.
use buckey.Common.{
  ℕ, ◌≡◌, refl, ap, ◌∙◌, ◌⊎◌, inl, inr, true, false, none, some, List, [], ◌∷◌, ◌++◌, map,
  append-nil, arith, if◌then◌else◌, All, String, if_holds, str_eq,
}
use buckey.RootGrammar.{Jsgf, Root, name_of, removed_name, remove_rules}

-- The rules that do not have a name.
abbrev pub without : (ℕ → String) → String → List ℕ → List ℕ
without names n [] = []
without names n (a ∷ rest) =
    let left = without names n rest in if str_eq (names a) n then left else a ∷ left

abbrev pub remove_all : (ℕ → String) → List String → List ℕ → List ℕ
remove_all names [] xs = xs
remove_all names (n ∷ ns) xs = remove_all names ns (without names n xs)

abbrev pub IsClear : (ℕ → String) → List String → ℕ → Type 0
IsClear names ns a = All (λ n. str_eq (names a) n ≡ false) ns

abbrev pub IsHit : (ℕ → String) → List String → ℕ → Type 0
IsHit names [] a = ⊥
IsHit names (n ∷ ns) a = (str_eq (names a) n ≡ true) ⊎ IsHit names ns a

without-append :
    (names : ℕ → String) (n : String) (xs ys : List ℕ)
    → without names n (xs ++ ys) ≡ without names n xs ++ without names n ys
without-append names n [] ys = refl
without-append names n (x ∷ xs) ys =
    ap (λ t. if str_eq (names x) n then t else x ∷ t) (without-append names n xs ys)
    ∙ if_holds
        (λ t.
          t
          ≡ (if str_eq (names x) n then without names n xs else x ∷ without names n xs)
            ++ without names n ys)
        (str_eq (names x) n) _ _ (λ e. rw e refl) (λ e. rw e refl)

without-clear :
    (names : ℕ → String) (n : String) (xs : List ℕ)
    → All (λ a. str_eq (names a) n ≡ false) xs
    → without names n xs ≡ xs
without-clear names n [] h = refl
without-clear names n (x ∷ xs) h = rw (h.0, without-clear names n xs h.1) refl

without-IsHit :
    (names : ℕ → String) (n : String) (ns : List String) (xs : List ℕ)
    → All (IsHit names (n ∷ ns)) xs
    → All (IsHit names ns) (without names n xs)
without-IsHit names n ns [] h = tt
without-IsHit names n ns (x ∷ xs) h =
    if_holds (All (IsHit names ns)) (str_eq (names x) n) (without names n xs)
      (x ∷ without names n xs) (λ e. without-IsHit names n ns xs h.1)
      (λ e. elim h.0 [
        | inl f ↦ absurd (ground (arith, e, f))
        | inr k ↦ (k, without-IsHit names n ns xs h.1)
      ])

pub All-both :
    {A : Type 0} (P Q : A → Type 0) (xs : List A) → ((a : A) → P a → Q a) → All P xs → All Q xs
All-both P Q [] f h = tt
All-both P Q (x ∷ xs) f h = (f x h.0, All-both P Q xs f h.1)

-- The clear rules stay and the others go.
pub remove_all-append :
    (names : ℕ → String) (ns : List String) (xs ys : List ℕ)
    → All (IsClear names ns) xs
    → All (IsHit names ns) ys
    → remove_all names ns (xs ++ ys) ≡ xs
remove_all-append names [] xs [] h k = append-nil xs
remove_all-append names [] xs (y ∷ ys) h k = absurd k.0
remove_all-append names (n ∷ ns) xs ys h k =
    ap (remove_all names ns) (
      without-append names n xs ys
      ∙ ap (λ t. t ++ without names n ys)
          (without-clear names n xs (All-both (IsClear names (n ∷ ns)) _ xs (λ a c. c.0) h)))
    ∙ remove_all-append names ns xs (without names n ys)
        (All-both (IsClear names (n ∷ ns)) (IsClear names ns) xs (λ a c. c.1) h)
        (without-IsHit names n ns ys k)

-- One of the rules has the name.
abbrev pub Has : (ℕ → String) → String → List ℕ → Type 0
Has names n [] = ⊥
Has names n (x ∷ xs) = (str_eq (names x) n ≡ true) ⊎ Has names n xs

-- What the library promises of the list of rules of a grammar.
pub record IsLawful (K : Jsgf) : Type 0 where
  pub rules_add : (g : K.Grammar) (a : ℕ) → K.get_rules (K.add_rule g a) ≡ K.get_rules g ++ a ∷ []
  pub rules_remove :
      (names : ℕ → String) (g : K.Grammar) (n : String)
      → K.get_rules (K.remove_rule names g n) ≡ without names n (K.get_rules g)
  pub rule_found :
      (names : ℕ → String) (g : K.Grammar) (n : String) (a : ℕ)
      → K.get_rule names g n ≡ some a
      → Has names n (K.get_rules g)
  pub rule_missed :
      (names : ℕ → String) (g : K.Grammar) (n : String)
      → K.get_rule names g n ≡ none
      → All (λ a. str_eq (names a) n ≡ false) (K.get_rules g)

module _ {K : Jsgf} (lawful : IsLawful K) where
  pub remove_rules-eq :
      (name : String) (vs : List ℕ) (s : Root K)
      → (K.get_rules (remove_rules name vs s).root_grammar
          ≡ remove_all (name_of s) (map (removed_name name s) vs) (K.get_rules s.root_grammar))
        × ((remove_rules name vs s).mode_list ≡ s.mode_list)
  unfolding remove_rules
  remove_rules-eq name [] s = (refl, refl)
  remove_rules-eq name (v ∷ vs) s =
      let n = removed_name name s v in
      let s' = record s { root_grammar = K.remove_rule (name_of s) s.root_grammar n } in
      let (rules, modes) = remove_rules-eq name vs s' in
      (
        rules
            ∙ ap (remove_all (name_of s) (map (removed_name name s) vs))
                (lawful.rules_remove (name_of s) s.root_grammar n),
        modes,
      )
