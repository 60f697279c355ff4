-- ===== src/RootGrammar.antt =====
-- Buckey::addModeToRootGrammar and removeModeFromRootGrammar of src/core/Buckey.cpp, and setVariable of
-- src/core/DynamicGrammar.cpp, over the library of grammars, which is a parameter. Rules are shared
-- objects: grammars hold their addresses, and a store holds their names and expansions.
pub mod Removal
pub mod Adding
pub mod Restored
pub mod CoreMode
pub mod Values
pub mod Updates
pub mod Modes
pub mod Listening
pub mod Stopped
mod Tests
use buckey.Common.{
  ℕ, zero, suc, ◌+◌, ◌-◌, ◌*◌, ◌/◌, ◌%◌, ◌^◌, ◌≤◌, ◌<◌, ◌≡◌, refl, sym, ap, ◌∙◌, subst, ◌≢◌, ◌↔◌,
  ◌⊎◌, inl, inr, Bool, true, false, not, ◌&&◌, ◌||◌, Option, none, some, List, [], ◌∷◌, ◌++◌, map,
  append-nil, append_assoc, arith, ltb, leb, ◌==◌, if◌then◌else◌, Bool-cases, Option-cases, length,
  get_elem?, set, take, drop, concat, length-append, drop-length-append, All, All-append,
  length-set, get_elem?_of_lt, lt_of_get_elem?, get_elem?-set_self, get_elem?-set_ne, All-set,
  All-get_elem?, String, if_holds, str_eq, str_eq_iff, str_eq_refl,
}
use buckey.Dispatch.{mode_tag_prefix}
use buckey.Registry.{◌&◌}

pub record Rule (X : Type 0) : Type 0 where
  pub rule_name : String
  pub expansion : X

-- The library: the rules of a grammar, the search for one by name, the addition of one and the removal
-- by name, for the names that the rules now have; and the expansions of a text and of a group.
pub record Jsgf : Type 1 where
  pub Grammar : Type 0
  pub Expansion : Type 0
  pub get_rules : Grammar → List ℕ
  pub get_rule : (ℕ → String) → Grammar → String → Option ℕ
  pub add_rule : Grammar → ℕ → Grammar
  pub remove_rule : (ℕ → String) → Grammar → String → Grammar
  pub token : String → Expansion
  pub required_grouping : Expansion → Expansion

abbrev pub tag_of : String → String
tag_of name = mode_tag_prefix & name

-- The first tag that is equal is removed.
abbrev pub remove_tag : String → List String → List String
remove_tag tag [] = []
remove_tag tag (t ∷ ts) = if str_eq t tag then ts else t ∷ remove_tag tag ts

-- The store, the next free address, the root grammar and the tags of its list of modes.
pub record Root (K : Jsgf) : Type 0 where
  pub rules : ℕ → Rule K.Expansion
  pub next_rule : ℕ
  pub root_grammar : K.Grammar
  pub mode_list : List String

abbrev pub write_rule : {X : Type 0} → ℕ → Rule X → (ℕ → Rule X) → ℕ → Rule X
write_rule a v rules b = if b == a then v else rules b

module _ {K : Jsgf} where
  open K use {
    Grammar, Expansion, get_rules, get_rule, add_rule, remove_rule, token, required_grouping,
  }

  abbrev pub name_of : Root K → ℕ → String
  name_of s a = (s.rules a).rule_name

  -- setRuleExpansion of the shared rule at an address.
  unfoldable pub set_rule_expansion : ℕ → Expansion → Root K → Root K
  set_rule_expansion a e s = record s {
    rules = write_rule a (record { rule_name = name_of s a; expansion = e }) s.rules;
  }

  -- The rule of the mode: the expansion of one that is there is set, else a new rule is made.
  unfoldable pub append_command : String → ℕ → Root K → Root K
  append_command name r s =
      let e = (s.rules r).expansion in
      elim (get_rule (name_of s) s.root_grammar name) [
        | some a ↦ set_rule_expansion a e s
        | none ↦ record s {
          rules = write_rule s.next_rule (record { rule_name = name; expansion = e }) s.rules;
          next_rule = s.next_rule + 1;
          root_grammar = add_rule s.root_grammar s.next_rule;
          mode_list = s.mode_list ++ tag_of name ∷ [];
        }
      ]

  -- A rule of the mode's grammar, which is shared if it is added.
  unfoldable pub append_rule : ℕ → Root K → Root K
  append_rule v s =
      if str_eq (name_of s v) "command"
      then s
      else elim (get_rule (name_of s) s.root_grammar (name_of s v)) [
        | some a ↦ set_rule_expansion a (s.rules v).expansion s
        | none ↦ record s { root_grammar = add_rule s.root_grammar v }
      ]

  unfoldable pub append_rules : List ℕ → Root K → Root K
  append_rules [] s = s
  append_rules (v ∷ vs) s = append_rules vs (append_rule v s)

  -- A mode's grammar without a rule <command> is left out, with a warning.
  unfoldable pub add_mode_to_root_grammar : String → Grammar → Root K → Root K
  add_mode_to_root_grammar name g s = elim (get_rule (name_of s) g "command") [
    | none ↦ s
    | some r ↦ append_rules (get_rules g) (append_command name r s)
  ]

  -- What is removed for a rule of the mode's grammar.
  abbrev pub removed_name : String → Root K → ℕ → String
  removed_name name s v = if str_eq (name_of s v) "command" then name else name_of s v

  unfoldable pub remove_rules : String → List ℕ → Root K → Root K
  remove_rules name [] s = s
  remove_rules name (v ∷ vs) s =
      remove_rules name vs
        (record s { root_grammar = remove_rule (name_of s) s.root_grammar (removed_name name s v) })

  unfoldable pub remove_mode_from_root_grammar : String → Grammar → Root K → Root K
  remove_mode_from_root_grammar name g s = elim (get_rule (name_of s) g "command") [
    | none ↦ s
    | some r ↦
        let s' = remove_rules name (get_rules g) s in
        record s' { mode_list = remove_tag (tag_of name) s'.mode_list }
  ]

  -- DynamicGrammar: a variable's rule is found under its name with the suffix of the grammar.
  unfoldable pub set_variable : (suffix variable value : String) → Grammar → Root K → Root K
  set_variable suffix variable value g s = elim (get_rule (name_of s) g ("$" & variable & suffix)) [
    | none ↦ s
    | some r ↦ set_rule_expansion r (required_grouping (token value)) s
  ]
