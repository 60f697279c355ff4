-- ===== src/RootGrammar/Adding.antt =====
-- What addModeToRootGrammar of src/core/Buckey.cpp adds.
use buckey.Common.{
  ℕ, ◌≡◌, refl, sym, ap, ◌∙◌, subst, ◌⊎◌, inl, inr, true, false, none, some, List, [], ◌∷◌, ◌++◌,
  map, append-nil, append_assoc, arith, ◌==◌, if◌then◌else◌, Bool-cases, All, All-append, String,
  if_holds, str_eq, str_eq_refl,
}
use buckey.RootGrammar.{
  Rule, Jsgf, remove_tag, Root, name_of, set_rule_expansion, append_rule, append_rules,
  removed_name,
}
use buckey.RootGrammar.Removal.{IsHit, Has, IsLawful, All-both}

pub remove_tag-append :
    (t : String) (ts : List String)
    → All (λ u. str_eq u t ≡ false) ts
    → remove_tag t (ts ++ t ∷ []) ≡ ts
remove_tag-append t [] h = rw (str_eq_refl t) refl
remove_tag-append t (u ∷ ts) h = rw (h.0, remove_tag-append t ts h.1) refl

module _ {K : Jsgf} where
  pub set_rule_expansion-name :
      (a : ℕ) (e : K.Expansion) (s : Root K) (b : ℕ)
      → name_of (set_rule_expansion a e s) b ≡ name_of s b
  unfolding set_rule_expansion
  set_rule_expansion-name a e s b =
      if_holds (λ (v : Rule K.Expansion). v.rule_name ≡ name_of s b) (b == a) _ (s.rules b)
        (λ h. ap (name_of s) (ground (arith, h))) (λ _. refl)

module _ {K : Jsgf} (lawful : IsLawful K) where
  -- From one state to another rules with a property are added, and no name changes.
  pub record Grown (P : ℕ → Type 0) (s s' : Root K) : Type 0 where
    pub added : List ℕ
    pub with_property : All P added
    pub grammar : K.get_rules s'.root_grammar ≡ K.get_rules s.root_grammar ++ added
    pub names : name_of s' ≡ name_of s
    pub modes : s'.mode_list ≡ s.mode_list

  same-Grown : (P : ℕ → Type 0) (s : Root K) → Grown P s s
  same-Grown P s = record {
    added = [];
    with_property = tt;
    grammar = sym (append-nil (K.get_rules s.root_grammar));
    names = refl;
    modes = refl;
  }

  set_rule_expansion-Grown :
      (P : ℕ → Type 0) (a : ℕ) (e : K.Expansion) (s : Root K) → Grown P s (set_rule_expansion a e s)
  unfolding set_rule_expansion
  set_rule_expansion-Grown P a e s = record {
    added = [];
    with_property = tt;
    grammar = sym (append-nil (K.get_rules s.root_grammar));
    names = λ i b. set_rule_expansion-name a e s b i;
    modes = refl;
  }

  append_rule-Grown :
      (P : ℕ → Type 0) (v : ℕ) (s : Root K)
      → (str_eq (name_of s v) "command" ≡ true) ⊎ P v
      → Grown P s (append_rule v s)
  unfolding append_rule
  append_rule-Grown P v s h =
      if_holds (Grown P s) (str_eq (name_of s v) "command") s _ (λ _. same-Grown P s)
        (λ f.
          elim (K.get_rule (name_of s) s.root_grammar (name_of s v))
            as (λ o. Grown P s (elim o [
              | some a ↦ set_rule_expansion a (s.rules v).expansion s
              | none ↦ record s { root_grammar = K.add_rule s.root_grammar v }
            ])) [
              | some a ↦ set_rule_expansion-Grown P a (s.rules v).expansion s
              | none ↦ record {
                added = v ∷ [];
                with_property = (elim h [ inl e ↦ absurd (ground (arith, e, f)) | inr p ↦ p ], tt);
                grammar = lawful.rules_add s.root_grammar v;
                names = refl;
                modes = refl;
              }
            ])

  pub append_rules-Grown :
      (P : ℕ → Type 0) (vs : List ℕ) (s : Root K)
      → All (λ v. (str_eq (name_of s v) "command" ≡ true) ⊎ P v) vs
      → Grown P s (append_rules vs s)
  unfolding append_rules
  append_rules-Grown P [] s h = same-Grown P s
  append_rules-Grown P (v ∷ vs) s h =
      let one = append_rule-Grown P v s h.0 in
      let rest = append_rules-Grown P vs (append_rule v s) (
        subst (λ names. All (λ v. (str_eq (names v) "command" ≡ true) ⊎ P v) vs) (sym one.names)
          h.1) in
      record {
        added = one.added ++ rest.added;
        with_property = All-append P one.added rest.added one.with_property rest.with_property;
        grammar =
            rest.grammar
            ∙ ap (λ t. t ++ rest.added) one.grammar
            ∙ append_assoc (K.get_rules s.root_grammar) one.added rest.added;
        names = rest.names ∙ one.names;
        modes = rest.modes ∙ one.modes;
      }

  -- A rule that is added is removed under its own name.
  pub All-IsHit :
      (name : String) (s : Root K) (vs : List ℕ)
      → All
          (λ v.
            (str_eq (name_of s v) "command" ≡ true)
            ⊎ IsHit (name_of s) (map (removed_name name s) vs) v)
          vs
  All-IsHit name s [] = tt
  All-IsHit name s (v ∷ vs) = (
    elim (Bool-cases (str_eq (name_of s v) "command")) [
      | inl e ↦ inl e
      | inr e ↦ inr (
          inl (
            ap (λ b. str_eq (name_of s v) (if b then name else name_of s v)) e
            ∙ str_eq_refl (name_of s v)))
    ],
    All-both _ _ vs (λ a h. elim h [ inl e ↦ inl e | inr k ↦ inr (inr k) ]) (All-IsHit name s vs),
  )

  pub command-IsHit :
      (name : String) (s : Root K) (a : ℕ) (vs : List ℕ)
      → str_eq (name_of s a) name ≡ true
      → Has (name_of s) "command" vs
      → IsHit (name_of s) (map (removed_name name s) vs) a
  command-IsHit name s a [] e h = h
  command-IsHit name s a (v ∷ vs) e h = elim h [
    | inl c ↦ inl (ap (λ b. str_eq (name_of s a) (if b then name else name_of s v)) c ∙ e)
    | inr k ↦ inr (command-IsHit name s a vs e k)
  ]
