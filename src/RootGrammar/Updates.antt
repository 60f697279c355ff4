-- ===== src/RootGrammar/Updates.antt =====
-- updateGrammar of src/core/CoreMode.cpp: the lists of modes and services in the core mode's grammar.
use buckey.Common.{
  ℕ, ◌<◌, ◌≡◌, refl, sym, ap, ◌∙◌, subst, ◌≢◌, Bool, true, none, some, List, [], ◌∷◌, arith,
  if◌then◌else◌, String, if_holds, str_eq_iff,
}
use text.Mathlib.TextLemmas.{append_cancel_left, append_cancel_right}
use buckey.Dispatch.{string_starts_with}
use buckey.Registry.{◌&◌}
use buckey.Registry.Saved.{to_chars}
use buckey.RootGrammar.{Jsgf, Root, name_of, set_rule_expansion, add_mode_to_root_grammar}
use buckey.RootGrammar.Adding.{set_rule_expansion-name}
use buckey.RootGrammar.CoreMode.{
  Call, set_jsgf, update_search_mode, apply_updates, warn_not_started, Sets, CoreMode, variable_key,
  set_variable_expansion, names_set, set_lists, update_grammar,
}
use buckey.RootGrammar.Values.{FindsByName, Holds, set_rule_expansion-Holds, add_mode-Holds}
use buckey.Variables.{is_variable}
use buckey.Variables.Missed.{dollar-is_variable}

module _ {K : Jsgf} (by_name : FindsByName K) (sets : Sets K) where
  core-ne : (suffix variable : String) → "core" ≢ variable_key sets suffix variable
  unfolding string_starts_with to_chars
  core-ne suffix variable e =
      let is : is_variable "core" ≡ true =
        subst (λ t. is_variable t ≡ true) (sym e) (dollar-is_variable (variable & suffix)) in
      absurd (cc is)

  lists-ne :
      (suffix : String)
      → variable_key sets suffix "modeList" ≢ variable_key sets suffix "serviceList"
  lists-ne suffix e =
      let same : ("modeList" ≡ "serviceList") =
        append_cancel_right "modeList" "serviceList" suffix
          (append_cancel_left "$" ("modeList" & suffix) ("serviceList" & suffix) e) in
      absurd (ground (arith, str_eq_iff "modeList" "serviceList", same))

  -- The names of rules after a list has been set.
  set_variable-names :
      (suffix variable : String) (e : K.Expansion) (g : K.Grammar) (s : Root K)
      → name_of (set_variable_expansion sets suffix variable e g s) ≡ name_of s
  unfolding set_variable_expansion
  set_variable-names suffix variable e g s =
      elim (K.get_rule (name_of s) g (variable_key sets suffix variable))
        as (λ o.
          name_of (elim o as (λ _. Root K) [
            | none ↦ s
            | some r ↦ set_rule_expansion r (K.required_grouping e) s
          ])
          ≡ name_of s) [
            | none ↦ refl
            | some r ↦ λ i a. set_rule_expansion-name r (K.required_grouping e) s a i
          ]

  set_variable-eq :
      (suffix variable : String) (e : K.Expansion) (g : K.Grammar) (s : Root K) (r : ℕ)
      → K.get_rule (name_of s) g (variable_key sets suffix variable) ≡ some r
      → set_variable_expansion sets suffix variable e g s
        ≡ set_rule_expansion r (K.required_grouping e) s
  unfolding set_variable_expansion
  set_variable-eq suffix variable e g s r found =
      ap
        (λ o. elim o as (λ _. Root K) [
          | none ↦ s
          | some r ↦ set_rule_expansion r (K.required_grouping e) s
        ])
        found

  -- One rule of the core mode's grammar is found for a variable, and it is the only one of that name.
  pub record IsFound (c : CoreMode K) (variable : String) (r : ℕ) : Type 0 where
    pub found : K.get_rule (name_of c.root) c.grammar (variable_key sets c.suffix variable) ≡ some r
    pub only : (a : ℕ) → name_of c.root a ≡ variable_key sets c.suffix variable → a ≡ r
    pub made : r < c.root.next_rule

  found-Holds :
      (c : CoreMode K) (variable : String) (r : ℕ)
      → IsFound c variable r
      → Holds by_name (variable_key sets c.suffix variable) r (c.root.rules r).expansion c.root
  found-Holds c variable r f = record {
    named = by_name (name_of c.root) c.grammar (variable_key sets c.suffix variable) r f.found;
    only = f.only;
    made = f.made;
    value = refl;
  }

  -- What both lists hold after they have been set.
  abbrev Lists : (modes services : List String) (c : CoreMode K) (m v : ℕ) → Root K → Type 0
  Lists modes services c m v s =
      Holds by_name (variable_key sets c.suffix "modeList") m
        (K.required_grouping (names_set sets modes)) s
      × Holds by_name (variable_key sets c.suffix "serviceList") v
          (K.required_grouping (names_set sets services)) s

  set_lists-Lists :
      (modes services : List String) (c : CoreMode K) (m v : ℕ)
      → IsFound c "modeList" m
      → IsFound c "serviceList" v
      → Lists modes services c m v (set_lists sets modes services c)
  unfolding set_lists
  set_lists-Lists modes services c m v fm fv =
      let in_m = found-Holds c "modeList" m fm in
      let in_v = found-Holds c "serviceList" v fv in
      let apart : m ≢ v =
        λ e. lists-ne c.suffix (sym in_m.named ∙ ap (name_of c.root) e ∙ in_v.named) in
      let modes_e = names_set sets modes in
      let services_e = names_set sets services in
      let first = set_rule_expansion m (K.required_grouping modes_e) c.root in
      let m1 =
        set_rule_expansion-Holds by_name {e = K.required_grouping modes_e} m
          (K.required_grouping modes_e) c.root in_m (λ _. refl) (λ n. absurd (n refl)) in
      let v1 =
        set_rule_expansion-Holds by_name {e = (c.root.rules v).expansion} m
          (K.required_grouping modes_e) c.root in_v (λ e. absurd (apart (sym e))) (λ _. refl) in
      let still : K.get_rule (name_of first) c.grammar (variable_key sets c.suffix "serviceList")
          ≡ some v =
        ap (λ names. K.get_rule names c.grammar (variable_key sets c.suffix "serviceList"))
          (λ i a. set_rule_expansion-name m (K.required_grouping modes_e) c.root a i)
        ∙ fv.found in
      let both =
        ap (set_variable_expansion sets c.suffix "serviceList" services_e c.grammar)
          (set_variable-eq c.suffix "modeList" modes_e c.grammar c.root m fm.found)
        ∙ set_variable-eq c.suffix "serviceList" services_e c.grammar first v still in
      subst (Lists modes services c m v) (sym both) (
        set_rule_expansion-Holds by_name {e = K.required_grouping modes_e} v
            (K.required_grouping services_e) first m1 (λ e. absurd (apart e)) (λ _. refl),
        set_rule_expansion-Holds by_name {e = K.required_grouping services_e} v
            (K.required_grouping services_e) first v1 (λ _. refl) (λ n. absurd (n refl)),
      )

  -- If the core mode is started and the two variables of its grammar are found, each the only rule of
  -- its name: after an update the two variables hold exactly the alternatives of all registered modes
  -- and of all registered services, also behind the update of the root grammar, which shares the rules,
  -- and a running recognition service is given that root grammar, its search mode and then the order to
  -- apply them, if the rule that the library finds by a name has it.
  pub update_grammar_lem :
      (modes services : List String) (sphinx_runs : Bool) (c : CoreMode K) (m v : ℕ)
      → c.is_started ≡ true
      → IsFound c "modeList" m
      → IsFound c "serviceList" v
      → let next = update_grammar sets modes services sphinx_runs c in
        let root = next.0.root in
        ((root.rules m).expansion ≡ K.required_grouping (names_set sets modes))
        × ((root.rules v).expansion ≡ K.required_grouping (names_set sets services))
        × (next.1 ≡ (
            if sphinx_runs
            then set_jsgf root.root_grammar ∷ update_search_mode ∷ apply_updates ∷ []
            else []))
  unfolding update_grammar
  update_grammar_lem modes services sphinx_runs c m v up fm fv =
      let set = set_lists sets modes services c in
      let root = add_mode_to_root_grammar "core" c.grammar set in
      let (in_m, in_v) = set_lists-Lists modes services c m v fm fv in
      let m2 = add_mode-Holds by_name "core" c.grammar set (core-ne c.suffix "modeList") in_m in
      let v2 = add_mode-Holds by_name "core" c.grammar set (core-ne c.suffix "serviceList") in_v in
      let calls = set_jsgf root.root_grammar ∷ update_search_mode ∷ apply_updates ∷ [] in
      if_holds
        (λ (next : CoreMode K × List (Call K)).
          ((next.0.root.rules m).expansion ≡ K.required_grouping (names_set sets modes))
          × ((next.0.root.rules v).expansion ≡ K.required_grouping (names_set sets services))
          × (next.1 ≡ (
              if sphinx_runs
              then set_jsgf next.0.root.root_grammar ∷ update_search_mode ∷ apply_updates ∷ []
              else [])))
        c.is_started (record c { root = root }, (if sphinx_runs then calls else []))
        (c, warn_not_started ∷ []) (λ _. (m2.value, v2.value, refl))
        (λ down. absurd (ground (arith, up, down)))
