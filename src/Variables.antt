-- ===== src/Variables.antt =====
-- src/core/DynamicGrammar.cpp: the variables of a grammar when it is constructed, and the ids that its
-- suffix is made of. An expansion is what the library's object shows by its methods: a reference to a
-- rule, or one with children. A parsed grammar does not share them, so renaming is a new tree.
-- The suffix is that of the construction, with the name that the grammar then has.
pub mod Renaming
pub mod Missed
mod Tests
use buckey.Common.{
  ℕ, zero, suc, ◌+◌, ◌-◌, ◌*◌, ◌/◌, ◌%◌, ◌^◌, ◌≤◌, ◌<◌, ◌≡◌, refl, sym, ap, ◌∙◌, subst, ◌≢◌, ◌↔◌,
  ◌⊎◌, inl, inr, Bool, true, false, not, ◌&&◌, ◌||◌, Option, none, some, List, [], ◌∷◌, ◌++◌, map,
  append-nil, append_assoc, arith, ltb, leb, ◌==◌, if◌then◌else◌, Bool-cases, Option-cases, length,
  get_elem?, set, take, drop, concat, length-append, drop-length-append, All, All-append,
  length-set, get_elem?_of_lt, lt_of_get_elem?, get_elem?-set_self, get_elem?-set_ne, All-set,
  All-get_elem?, String, if_holds, str_eq, str_eq_iff, str_eq_refl,
}
use buckey.Dispatch.{string_starts_with}
use buckey.Events.{ulong_mod}
use buckey.Registry.{◌&◌}

-- A reference has its rule's name and no children; any other expansion has what hasChild says, and its children.
mutual
  pub data Expansion : Type 0 where
    reference : (rule_name : String) → Expansion
    node : (has_child : Bool) (children : Items) → Expansion

  pub data Items : Type 0 where
    nil : Items
    cons : Expansion → Items → Items

-- The reference to a variable gets the suffix, and is listed by its new name.
abbrev pub is_variable : String → Bool
is_variable n = string_starts_with n "$"

abbrev pub renamed : (suffix name : String) → String
renamed suffix n = if is_variable n then n & suffix else n

abbrev pub listed : (suffix name : String) → List String
listed suffix n = if is_variable n then (n & suffix) ∷ [] else []

unfoldable mutual
  -- The expansion behind the walk, and the variables that it has pushed.
  pub walkover_expansion : String → Expansion → Expansion × List String
  walkover_expansion suffix (reference n) = (reference (renamed suffix n), listed suffix n)
  walkover_expansion suffix (node has_child children) =
      let (walked, found) = walkover_items suffix children in (node has_child walked, found)

  pub walkover_items : String → Items → Items × List String
  walkover_items suffix nil = (nil, [])
  walkover_items suffix (cons e es) =
      let (first, found) = walkover_expansion suffix e in
      let (rest, more) = walkover_items suffix es in (cons first rest, found ++ more)

-- The second loop of the constructor, over the children of a rule's expansion.
unfoldable pub walk_children : String → Expansion → Expansion × List String
unfolding walkover_expansion
walk_children suffix (reference n) = (reference n, [])
walk_children suffix (node false children) = (node false children, [])
walk_children suffix (node true children) =
    let (walked, found) = walkover_items suffix children in (node true walked, found)

unfoldable pub walk_rule : String → Expansion → Expansion × List String
unfolding walk_children walkover_expansion
walk_rule suffix e =
    let (once, found) = walkover_expansion suffix e in
    let (twice, more) = walk_children suffix once in (twice, found ++ more)

unfoldable pub walk_rules :
    String → List (String × Expansion) → List (String × Expansion) × List String
unfolding walk_rule
walk_rules suffix [] = ([], [])
walk_rules suffix ((name, e) ∷ rules) =
    let (walked, found) = walk_rule suffix e in
    let (rest, more) = walk_rules suffix rules in ((name, walked) ∷ rest, found ++ more)

pub record Grammar : Type 0 where
  pub rules : List (String × Expansion)
  pub variables : List String
  pub suffix : String

-- The library: the expansions of a text and of a group, the place of the rule with a name, and the
-- addition of a rule.
pub record Library : Type 0 where
  pub token : String → Expansion
  pub required_grouping : Expansion → Expansion
  pub get_rule : List (String × Expansion) → String → Option ℕ
  pub add_rule : List (String × Expansion) → String × Expansion → List (String × Expansion)

-- The static next id, which is taken and counted up under a lock.
unfoldable pub take_id : ℕ → ℕ × ℕ
take_id next_id = (next_id, (next_id + 1) % ulong_mod)

unfoldable pub get_suffix : (to_string : ℕ → String) (name : String) (id : ℕ) → String
get_suffix to_string name id = "-" & name & to_string id

abbrev pub looked_for : (suffix name : String) → String
looked_for suffix name = "$" & name & suffix

module _ (K : Library) where
  open K use {token, required_grouping, get_rule, add_rule}

  -- A rule for each variable is added to those that were parsed.
  unfoldable pub add_variables : List String → List (String × Expansion) → List (String × Expansion)
  add_variables [] rules = rules
  add_variables (s ∷ ss) rules = add_variables ss (add_rule rules (s, token "default value"))

  -- The constructor, over the next id and the rules that were parsed.
  unfoldable pub new_grammar :
      (to_string : ℕ → String) (name : String) (next_id : ℕ)
      → List (String × Expansion)
      → Grammar × ℕ
  unfolding take_id get_suffix walk_rules add_variables
  new_grammar to_string name next_id parsed =
      let (id, next) = take_id next_id in
      let suffix = get_suffix to_string name id in
      let (walked, variables) = walk_rules suffix parsed in
      (
        record { rules = add_variables variables walked; variables = variables; suffix = suffix },
        next,
      )

  unfoldable pub set_variable : (name : String) → Expansion → Grammar → Grammar
  set_variable name value g = elim (get_rule g.rules (looked_for g.suffix name)) [
    | none ↦ g
    | some i ↦ elim (get_elem? g.rules i) [
      | none ↦ g
      | some (n, e) ↦ record g { rules = set g.rules i (n, required_grouping value) }
    ]
  ]

  -- There is no test for a rule that is not found; the name is given with its dollar sign.
  unfoldable pub get_variable : (name : String) → Grammar → Option ℕ
  get_variable name g = get_rule g.rules (name & g.suffix)

unfoldable pub list_variables : Grammar → List String
list_variables g = g.variables
