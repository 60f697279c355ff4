-- ===== src/Variables/Missed.antt =====
-- The name that setVariable of src/core/DynamicGrammar.cpp looks for, and those that the constructor gives.
use buckey.Common.{
  ◌≡◌, refl, sym, ap, ◌∙◌, subst, ◌≢◌, inl, inr, true, List, [], ◌∷◌, map, if◌then◌else◌,
  Bool-cases, All, String,
}
use text.Mathlib.TextLemmas.{
  append-nil as str_append-nil, append_assoc as str_append_assoc, append_cancel_left, cons-append,
  nil-append,
}
use buckey.Dispatch.{string_starts_with}
use buckey.Registry.{◌&◌}
use buckey.Registry.Saved.{to_chars}
use buckey.Variables.{reference, node, Items, is_variable, renamed, looked_for, walk_rule}
use buckey.Variables.Renaming.{
  references, item_references, with_names, references-with_names, walk_rule_lem, once_or_twice,
}

pub dollar-is_variable : (s : String) → is_variable ("$" & s) ≡ true
unfolding string_starts_with to_chars
dollar-is_variable s = ap is_variable (cons-append "$" "" s ∙ ap (String.◌∷◌ "$") (nil-append s))

-- A suffix that is not empty changes a name.
suffix-ne : (n suffix : String) → suffix ≢ "" → n & suffix ≢ n
suffix-ne n suffix h e = h (append_cancel_left n suffix "" (e ∙ sym (str_append-nil n)))

variable-renamed : (suffix name : String) → renamed suffix ("$" & name) ≡ looked_for suffix name
variable-renamed suffix name =
    ap (λ t. if t then ("$" & name) & suffix else "$" & name) (dollar-is_variable name)
    ∙ str_append_assoc "$" name suffix

variable-twice :
    (suffix name : String)
    → renamed suffix (renamed suffix ("$" & name)) ≡ looked_for suffix name & suffix
variable-twice suffix name =
    ap (renamed suffix) (variable-renamed suffix name)
    ∙ ap (λ t. if t then looked_for suffix name & suffix else looked_for suffix name)
        (dollar-is_variable (name & suffix))

-- A name in the source is the variable's own, or that of a rule.
abbrev pub IsOnly : String → String → Type 0
IsOnly name n = is_variable n ≡ true → n ≡ "$" & name

twice-ne :
    (suffix name n : String)
    → suffix ≢ ""
    → IsOnly name n
    → renamed suffix (renamed suffix n) ≢ looked_for suffix name
twice-ne suffix name n h only e = elim (Bool-cases (is_variable n)) [
  | inl v ↦ suffix-ne (looked_for suffix name) suffix h (
      sym (variable-twice suffix name)
      ∙ subst (λ m. renamed suffix (renamed suffix m) ≡ looked_for suffix name) (only v) e)
  | inr v ↦
      let kept : renamed suffix n ≡ n = rw v refl in
      let same : n ≡ looked_for suffix name = sym (ap (renamed suffix) kept ∙ kept) ∙ e in
      absurd (cc (v, same, dollar-is_variable (name & suffix)))
]

All-map :
    {A : Type 0} (P Q : A → Type 0) (f : A → A) (xs : List A)
    → ((a : A) → P a → Q (f a))
    → All P xs
    → All Q (map f xs)
All-map P Q f [] h a = tt
All-map P Q f (x ∷ xs) h a = (h x a.0, All-map P Q f xs h a.1)

-- If the only variable in a rule is "$" with a name, and the grammar's suffix is not empty: where the
-- rule's expansion is the reference itself, it refers behind the constructor to the rule whose name
-- setVariable looks for; where it is an expansion that says that it has children, nothing in it does,
-- so that no value of the variable is ever heard.
pub walk_rule-misses :
    (suffix name : String) (children : Items)
    → suffix ≢ ""
    → All (IsOnly name) (item_references children)
    → ((walk_rule suffix (reference ("$" & name))).0 ≡ reference (looked_for suffix name))
      × All (λ n. n ≢ looked_for suffix name) (references (walk_rule suffix (node true children)).0)
unfolding references with_names
walk_rule-misses suffix name children h only = (
  (walk_rule_lem suffix (reference ("$" & name))).0 ∙ ap reference (variable-renamed suffix name),
  subst (All (λ n. n ≢ looked_for suffix name))
      (sym (
        ap references (walk_rule_lem suffix (node true children)).0
        ∙ references-with_names (once_or_twice suffix (node true children)) (node true children)))
      (All-map (IsOnly name) (λ n. n ≢ looked_for suffix name)
        (once_or_twice suffix (node true children)) (item_references children)
        (λ n. twice-ne suffix name n h) only),
)
