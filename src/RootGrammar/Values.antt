-- ===== src/RootGrammar/Values.antt =====
-- What updateGrammar of src/core/CoreMode.cpp leaves in the variables of the core mode's grammar.
use buckey.Common.{
  ℕ, ◌+◌, ◌<◌, ◌≡◌, refl, sym, ap, ◌∙◌, subst, ◌≢◌, inl, inr, Option, none, some, List, [], ◌∷◌,
  ◌++◌, arith, ◌==◌, Option-cases, String, if_holds, str_eq,
}
use buckey.RootGrammar.{
  Rule, Jsgf, Root, name_of, write_rule, tag_of, set_rule_expansion, append_command, append_rule,
  append_rules, add_mode_to_root_grammar,
}
use buckey.RootGrammar.Adding.{set_rule_expansion-name}

-- What the library promises of a search: the rule that it finds has the name.
abbrev pub FindsByName : Jsgf → Type 0
FindsByName K =
    (names : ℕ → String) (g : K.Grammar) (n : String) (a : ℕ)
    → K.get_rule names g n ≡ some a
    → names a ≡ n

module _ {K : Jsgf} (by_name : FindsByName K) where
  -- One rule has the name, it has been made, and it has the expansion.
  pub record Holds (n : String) (m : ℕ) (e : K.Expansion) (s : Root K) : Type 0 where
    pub named : name_of s m ≡ n
    pub only : (a : ℕ) → name_of s a ≡ n → a ≡ m
    pub made : m < s.next_rule
    pub value : (s.rules m).expansion ≡ e

  set_rule_expansion-value :
      (a m : ℕ) (e e' : K.Expansion) (s : Root K)
      → (m ≡ a → e' ≡ e)
      → (m ≢ a → (s.rules m).expansion ≡ e)
      → ((set_rule_expansion a e' s).rules m).expansion ≡ e
  unfolding set_rule_expansion
  set_rule_expansion-value a m e e' s same other =
      if_holds (λ (v : Rule K.Expansion). v.expansion ≡ e) (m == a) _ (s.rules m)
        (λ h. same (ground (arith, h))) (λ h. other (λ q. absurd (ground (arith, h, q))))

  pub set_rule_expansion-Holds :
      {n : String} {m : ℕ} {e e₀ : K.Expansion} (a : ℕ) (e' : K.Expansion) (s : Root K)
      → Holds n m e₀ s
      → (m ≡ a → e' ≡ e)
      → (m ≢ a → e₀ ≡ e)
      → Holds n m e (set_rule_expansion a e' s)
  unfolding set_rule_expansion
  set_rule_expansion-Holds {m} a e' s h same other = record {
    named = set_rule_expansion-name a e' s m ∙ h.named;
    only = λ b q. h.only b (sym (set_rule_expansion-name a e' s b) ∙ q);
    made = h.made;
    value = set_rule_expansion-value a m _ e' s same (λ q. h.value ∙ other q);
  }

  -- The rules of a grammar whose own expansions are set, or which are added, keep what a name has.
  append_rule-Holds :
      {n : String} {m : ℕ} {e : K.Expansion} (v : ℕ) (s : Root K)
      → Holds n m e s
      → Holds n m e (append_rule v s)
  unfolding append_rule
  append_rule-Holds {n} {m} {e} v s h =
      let go = λ (o : Option ℕ). elim o as (λ _. Root K) [
        | some a ↦ set_rule_expansion a (s.rules v).expansion s
        | none ↦ record s { root_grammar = K.add_rule s.root_grammar v }
      ] in
      let found = K.get_rule (name_of s) s.root_grammar (name_of s v) in
      if_holds (Holds n m e) (str_eq (name_of s v) "command") s (go found) (λ _. h)
        (λ _. elim (Option-cases found) [
          | inl q ↦
              subst (λ o. Holds n m e (go o)) (sym q)
                (record { named = h.named; only = h.only; made = h.made; value = h.value })
          | inr (a, q) ↦
              subst (λ o. Holds n m e (go o)) (sym q)
                (set_rule_expansion-Holds a (s.rules v).expansion s h
                  (λ same.
                    let its = by_name (name_of s) s.root_grammar (name_of s v) a q in
                    let mine : name_of s v ≡ n = sym its ∙ ap (name_of s) (sym same) ∙ h.named in
                    ap (λ b. (s.rules b).expansion) (h.only v mine) ∙ h.value)
                  (λ _. refl))
        ])

  append_rules-Holds :
      {n : String} {m : ℕ} {e : K.Expansion} (vs : List ℕ) (s : Root K)
      → Holds n m e s
      → Holds n m e (append_rules vs s)
  unfolding append_rules
  append_rules-Holds [] s h = h
  append_rules-Holds (v ∷ vs) s h =
      append_rules-Holds vs (append_rule v s) (append_rule-Holds v s h)

  append_command-Holds :
      {n : String} {m : ℕ} {e : K.Expansion} (name : String) (r : ℕ) (s : Root K)
      → name ≢ n
      → Holds n m e s
      → Holds n m e (append_command name r s)
  unfolding append_command
  append_command-Holds {n} {m} {e} name r s ne h =
      let new : Rule K.Expansion = record { rule_name = name; expansion = (s.rules r).expansion } in
      let next : Root K = record s {
        rules = write_rule s.next_rule new s.rules;
        next_rule = s.next_rule + 1;
        root_grammar = K.add_rule s.root_grammar s.next_rule;
        mode_list = s.mode_list ++ tag_of name ∷ [];
      } in
      let go = λ (o : Option ℕ). elim o as (λ _. Root K) [
        | some a ↦ set_rule_expansion a (s.rules r).expansion s
        | none ↦ next
      ] in
      let old = λ (P : Rule K.Expansion → Type 0) (p : P (s.rules m)).
        if_holds P (m == s.next_rule) new (s.rules m) (λ q. absurd (ground (arith, q, h.made)))
          (λ _. p) in
      elim (Option-cases (K.get_rule (name_of s) s.root_grammar name)) [
        | inl q ↦
            subst (λ o. Holds n m e (go o)) (sym q)
              (record {
                named = old (λ v. v.rule_name ≡ n) h.named;
                only = λ a.
                    if_holds (λ (v : Rule K.Expansion). v.rule_name ≡ n → a ≡ m) (a == s.next_rule)
                      new (s.rules a) (λ _ p. absurd (ne p)) (λ _. h.only a);
                made = omega (arith, h.made);
                value = old (λ v. v.expansion ≡ e) h.value;
              })
        | inr (a, q) ↦
            subst (λ o. Holds n m e (go o)) (sym q)
              (set_rule_expansion-Holds a (s.rules r).expansion s h
                (λ same. absurd (
                  ne (
                    sym (by_name (name_of s) s.root_grammar name a q)
                    ∙ ap (name_of s) (sym same)
                    ∙ h.named)))
                (λ _. refl))
      ]

  pub add_mode-Holds :
      {n : String} {m : ℕ} {e : K.Expansion} (name : String) (g : K.Grammar) (s : Root K)
      → name ≢ n
      → Holds n m e s
      → Holds n m e (add_mode_to_root_grammar name g s)
  unfolding add_mode_to_root_grammar
  add_mode-Holds {n} {m} {e} name g s ne h =
      elim (K.get_rule (name_of s) g "command")
        as (λ o.
          Holds n m e (elim o [
            | none ↦ s
            | some r ↦ append_rules (K.get_rules g) (append_command name r s)
          ])) [
            | none ↦ h
            | some r ↦
                append_rules-Holds (K.get_rules g) (append_command name r s)
                  (append_command-Holds name r s ne h)
          ]
