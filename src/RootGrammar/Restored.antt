-- ===== src/RootGrammar/Restored.antt =====
-- The removal of a mode that was added to the root grammar, in src/core/Buckey.cpp.
use buckey.Common.{
  ℕ, ◌+◌, ◌<◌, ◌≡◌, refl, sym, ap, ◌∙◌, subst, inl, inr, false, none, some, List, [], ◌∷◌, ◌++◌,
  map, append_assoc, arith, ◌==◌, if◌then◌else◌, Option-cases, All, String, if_holds, str_eq,
  str_eq_refl,
}
use buckey.RootGrammar.{
  Rule, Jsgf, tag_of, remove_tag, Root, name_of, write_rule, append_command, append_rules,
  add_mode_to_root_grammar, removed_name, remove_rules, remove_mode_from_root_grammar,
  set_rule_expansion,
}
use buckey.RootGrammar.Removal.{
  remove_all, IsClear, IsHit, Has, IsLawful, remove_all-append, remove_rules-eq,
}
use buckey.RootGrammar.Adding.{append_rules-Grown, All-IsHit, command-IsHit, remove_tag-append}

none-some {ℓ} : {A : Type ℓ} {a : A} → none ≡ some a → ⊥
none-some e = cc

-- No rule has the name and one has it.
clear-Has :
    (names : ℕ → String) (n : String) (xs : List ℕ)
    → All (λ a. str_eq (names a) n ≡ false) xs
    → Has names n xs
    → ⊥
clear-Has names n [] h k = k
clear-Has names n (x ∷ xs) h k = elim k [
  | inl e ↦ ground (arith, e, h.0)
  | inr r ↦ clear-Has names n xs h.1 r
]

module _ {K : Jsgf} (lawful : IsLawful K) where
  -- The state after the rule of a new mode has been made.
  abbrev with_command : String → ℕ → Root K → Root K
  with_command name r s = record s {
    rules =
        write_rule s.next_rule (record { rule_name = name; expansion = (s.rules r).expansion })
          s.rules;
    next_rule = s.next_rule + 1;
    root_grammar = K.add_rule s.root_grammar s.next_rule;
    mode_list = s.mode_list ++ tag_of name ∷ [];
  }

  name_of-old :
      (name : String) (r : ℕ) (s : Root K) (a : ℕ)
      → a < s.next_rule
      → name_of (with_command name r s) a ≡ name_of s a
  name_of-old name r s a h =
      if_holds (λ (v : Rule K.Expansion). v.rule_name ≡ name_of s a) (a == s.next_rule) _
        (s.rules a) (λ e. absurd (ground (arith, e, h))) (λ _. refl)

  name_of-new :
      (name : String) (r : ℕ) (s : Root K) → name_of (with_command name r s) s.next_rule ≡ name
  name_of-new name r s =
      if_holds (λ (v : Rule K.Expansion). v.rule_name ≡ name) (s.next_rule == s.next_rule) _
        (s.rules s.next_rule) (λ _. refl) (λ e. absurd (ground (arith, e)))

  removed_old :
      (name : String) (r : ℕ) (s : Root K) (vs : List ℕ)
      → All (λ a. a < s.next_rule) vs
      → map (removed_name name (with_command name r s)) vs ≡ map (removed_name name s) vs
  removed_old name r s [] h = refl
  removed_old name r s (v ∷ vs) h = λ i.
      (if str_eq (name_of-old name r s v h.0 i) "command"
        then name
        else name_of-old name r s v h.0 i)
      ∷ removed_old name r s vs h.1 i

  Has-old :
      (name n : String) (r : ℕ) (s : Root K) (vs : List ℕ)
      → All (λ a. a < s.next_rule) vs
      → Has (name_of s) n vs
      → Has (name_of (with_command name r s)) n vs
  Has-old name n r s [] l h = h
  Has-old name n r s (v ∷ vs) l h = elim h [
    | inl e ↦ inl (ap (λ t. str_eq t n) (name_of-old name r s v l.0) ∙ e)
    | inr k ↦ inr (Has-old name n r s vs l.1 k)
  ]

  IsClear-old :
      (name : String) (r : ℕ) (s : Root K) (ns : List String) (xs : List ℕ)
      → All (λ a. a < s.next_rule) xs
      → All (IsClear (name_of s) ns) xs
      → All (IsClear (name_of (with_command name r s)) ns) xs
  IsClear-old name r s ns [] l h = tt
  IsClear-old name r s ns (x ∷ xs) l h = (
    subst (λ t. All (λ n. str_eq t n ≡ false) ns) (sym (name_of-old name r s x l.0)) h.0,
    IsClear-old name r s ns xs l.1 h.1,
  )

  -- What a state has in common with one: the rules of the root grammar and the tags of the modes.
  abbrev pub Restores : (s s' : Root K) → Type 0
  Restores s s' =
      (K.get_rules s'.root_grammar ≡ K.get_rules s.root_grammar) × (s'.mode_list ≡ s.mode_list)

  removed-Restores :
      (name : String) (g : K.Grammar) (r : ℕ) (s : Root K)
      → Has (name_of s) "command" (K.get_rules g)
      → All (λ a. a < s.next_rule) (K.get_rules g)
      → All (λ a. a < s.next_rule) (K.get_rules s.root_grammar)
      → All
          (IsClear (name_of s) (map (removed_name name s) (K.get_rules g)))
          (K.get_rules s.root_grammar)
      → All (λ t. str_eq t (tag_of name) ≡ false) s.mode_list
      → Restores s (
          remove_mode_from_root_grammar name g
            (append_rules (K.get_rules g) (with_command name r s)))
  unfolding remove_mode_from_root_grammar
  removed-Restores name g r s has old_g old_root clear tags =
      let vs = K.get_rules g in
      let s1 = with_command name r s in
      let s2 = append_rules vs s1 in
      let ns = map (removed_name name s1) vs in
      let grown =
        append_rules-Grown lawful (IsHit (name_of s1) ns) vs s1 (All-IsHit lawful name s1 vs) in
      let has1 = Has-old name "command" r s vs old_g has in
      let (rules, modes) = remove_rules-eq lawful name vs s2 in
      let removed = remove_rules name vs s2 in
      elim (Option-cases (K.get_rule (name_of s2) g "command")) [
        | inl e ↦ absurd (
            clear-Has (name_of s1) "command" vs
              (subst (λ names. All (λ a. str_eq (names a) "command" ≡ false) vs) grown.names
                (lawful.rule_missed (name_of s2) g "command" e))
              has1)
        | inr (q, e) ↦
            subst
              (λ o. Restores s (elim o [
                | none ↦ s2
                | some a ↦ record removed { mode_list = remove_tag (tag_of name) removed.mode_list }
              ]))
              (sym e)
              (
                rules
                    ∙ ap
                        (λ names.
                          remove_all names
                            (map (λ v. if str_eq (names v) "command" then name else names v) vs)
                            (K.get_rules s2.root_grammar))
                        grown.names
                    ∙ ap (remove_all (name_of s1) ns) (
                        grown.grammar
                        ∙ ap (λ t. t ++ grown.added) (lawful.rules_add s.root_grammar s.next_rule)
                        ∙ append_assoc (K.get_rules s.root_grammar) (s.next_rule ∷ []) grown.added)
                    ∙ remove_all-append (name_of s1) ns (K.get_rules s.root_grammar)
                        (s.next_rule ∷ grown.added)
                        (IsClear-old name r s ns (K.get_rules s.root_grammar) old_root (
                          subst (λ ns. All (IsClear (name_of s) ns) (K.get_rules s.root_grammar))
                            (sym (removed_old name r s vs old_g)) clear))
                        (
                          command-IsHit lawful name s1 s.next_rule vs
                              (ap (λ t. str_eq t name) (name_of-new name r s) ∙ str_eq_refl name)
                              has1,
                          grown.with_property,
                        ),
                ap (remove_tag (tag_of name)) (modes ∙ grown.modes)
                    ∙ remove_tag-append (tag_of name) s.mode_list tags,
              )
      ]

  -- A mode that is added to the root grammar and removed again leaves the rules of the root grammar and
  -- the list of modes as they were, if: the library keeps its promises, the mode's grammar has a rule
  -- <command>, the root grammar finds no rule under the mode's name, no rule of the root grammar has that
  -- name or the name of a rule of the mode's grammar, no mode in the list has the tag, and the rules of
  -- both grammars are in the store.
  pub remove_mode-add_mode :
      (name : String) (g : K.Grammar) (r : ℕ) (s : Root K)
      → K.get_rule (name_of s) g "command" ≡ some r
      → K.get_rule (name_of s) s.root_grammar name ≡ none
      → All (λ a. a < s.next_rule) (K.get_rules g)
      → All (λ a. a < s.next_rule) (K.get_rules s.root_grammar)
      → All
          (IsClear (name_of s) (map (removed_name name s) (K.get_rules g)))
          (K.get_rules s.root_grammar)
      → All (λ t. str_eq t (tag_of name) ≡ false) s.mode_list
      → Restores s (remove_mode_from_root_grammar name g (add_mode_to_root_grammar name g s))
  unfolding add_mode_to_root_grammar append_command
  remove_mode-add_mode name g r s found free old_g old_root clear tags =
      subst
        (λ o. Restores s (
          remove_mode_from_root_grammar name g (elim o [
            | none ↦ s
            | some r ↦ append_rules (K.get_rules g) (append_command name r s)
          ])))
        (sym found)
        (subst
          (λ o. Restores s (
            remove_mode_from_root_grammar name g (
              append_rules (K.get_rules g) (elim o [
                | some a ↦ set_rule_expansion a (s.rules r).expansion s
                | none ↦ with_command name r s
              ]))))
          (sym free)
          (removed-Restores name g r s (lawful.rule_found (name_of s) g "command" r found) old_g
            old_root clear tags))
