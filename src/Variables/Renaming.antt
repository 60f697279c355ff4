-- ===== src/Variables/Renaming.antt =====
-- What the constructor of src/core/DynamicGrammar.cpp makes of the names of a parsed rule.
use buckey.Common.{
  ◌≡◌, refl, sym, ap, ◌∙◌, true, false, List, [], ◌∷◌, ◌++◌, map, append-nil, append_assoc, String,
}
use mathlib.Core.List.{map-append}
use buckey.Variables.{
  Expansion, reference, node, Items, nil, cons, renamed, listed, walkover_expansion, walkover_items,
  walk_children, walk_rule,
}

unfoldable mutual
  -- The names of the references, in their order.
  pub references : Expansion → List String
  references (reference n) = n ∷ []
  references (node has_child children) = item_references children

  pub item_references : Items → List String
  item_references nil = []
  item_references (cons e es) = references e ++ item_references es

unfoldable mutual
  -- The same expansion with other names.
  pub with_names : (String → String) → Expansion → Expansion
  with_names f (reference n) = reference (f n)
  with_names f (node has_child children) = node has_child (items_with_names f children)

  pub items_with_names : (String → String) → Items → Items
  items_with_names f nil = nil
  items_with_names f (cons e es) = cons (with_names f e) (items_with_names f es)

unfoldable pub all_listed : String → List String → List String
all_listed suffix [] = []
all_listed suffix (n ∷ ns) = listed suffix n ++ all_listed suffix ns

all_listed-append :
    (suffix : String) (xs ys : List String)
    → all_listed suffix (xs ++ ys) ≡ all_listed suffix xs ++ all_listed suffix ys
unfolding all_listed
all_listed-append suffix [] ys = refl
all_listed-append suffix (x ∷ xs) ys =
    ap (λ t. listed suffix x ++ t) (all_listed-append suffix xs ys)
    ∙ sym (append_assoc (listed suffix x) (all_listed suffix xs) (all_listed suffix ys))

all_listed-one : (suffix n : String) → all_listed suffix (n ∷ []) ≡ listed suffix n
unfolding all_listed
all_listed-one suffix n = append-nil (listed suffix n)

all_listed-nil : (suffix : String) → all_listed suffix [] ≡ []
unfolding all_listed
all_listed-nil suffix = refl

-- A walk renames every variable once, and lists the new names in order.
mutual
  unfolding walkover_expansion references with_names

  walkover_expansion_lem :
      (suffix : String) (e : Expansion)
      → (((walkover_expansion suffix e).0 ≡ with_names (renamed suffix) e)
          × ((walkover_expansion suffix e).1 ≡ all_listed suffix (references e)))
  walkover_expansion_lem suffix (reference n) = (refl, sym (all_listed-one suffix n))
  walkover_expansion_lem suffix (node has_child children) =
      let (same, found) = walkover_items_lem suffix children in (ap (node has_child) same, found)

  walkover_items_lem :
      (suffix : String) (es : Items)
      → (((walkover_items suffix es).0 ≡ items_with_names (renamed suffix) es)
          × ((walkover_items suffix es).1 ≡ all_listed suffix (item_references es)))
  walkover_items_lem suffix nil = (refl, sym (all_listed-nil suffix))
  walkover_items_lem suffix (cons e es) =
      let (first, found) = walkover_expansion_lem suffix e in
      let (rest, more) = walkover_items_lem suffix es in
      (
        λ i. cons (first i) (rest i),
        (λ i. found i ++ more i)
            ∙ sym (all_listed-append suffix (references e) (item_references es)),
      )

mutual
  unfolding references with_names

  pub references-with_names :
      (f : String → String) (e : Expansion) → references (with_names f e) ≡ map f (references e)
  references-with_names f (reference n) = refl
  references-with_names f (node has_child children) = items-with_names f children

  items-with_names :
      (f : String → String) (es : Items)
      → item_references (items_with_names f es) ≡ map f (item_references es)
  items-with_names f nil = refl
  items-with_names f (cons e es) =
      (λ i. references-with_names f e i ++ items-with_names f es i)
      ∙ sym (map-append f (references e) (item_references es))

mutual
  unfolding with_names

  with_names-twice :
      (f g : String → String) (e : Expansion)
      → with_names g (with_names f e) ≡ with_names (λ n. g (f n)) e
  with_names-twice f g (reference n) = refl
  with_names-twice f g (node has_child children) =
      ap (node has_child) (items_with_names-twice f g children)

  items_with_names-twice :
      (f g : String → String) (es : Items)
      → items_with_names g (items_with_names f es) ≡ items_with_names (λ n. g (f n)) es
  items_with_names-twice f g nil = refl
  items_with_names-twice f g (cons e es) =
      λ i. cons (with_names-twice f g e i) (items_with_names-twice f g es i)

-- A reference, or an expansion that says that it has no child, is walked once, and any other twice.
abbrev pub once_or_twice : String → Expansion → String → String
once_or_twice suffix (node true children) n = renamed suffix (renamed suffix n)
once_or_twice suffix (node false children) n = renamed suffix n
once_or_twice suffix (reference m) n = renamed suffix n

abbrev pub listed_again : String → Expansion → List String
listed_again suffix (node true children) =
    all_listed suffix (map (renamed suffix) (item_references children))
listed_again suffix (node false children) = []
listed_again suffix (reference m) = []

-- What a rule's expansion is behind both loops of the constructor: the same expansion with every
-- variable's name changed, once if the expansion is a reference or says that it has no child and twice
-- otherwise, and every name that a variable has had is listed, first those of the first walk.
pub walk_rule_lem :
    (suffix : String) (e : Expansion)
    → ((walk_rule suffix e).0 ≡ with_names (once_or_twice suffix e) e)
      × ((walk_rule suffix e).1 ≡ all_listed suffix (references e) ++ listed_again suffix e)
unfolding walk_rule walk_children with_names references
walk_rule_lem suffix (reference n) = (refl, ap (λ t. t ++ []) (sym (all_listed-one suffix n)))
walk_rule_lem suffix (node false children) =
    let (same, found) = walkover_items_lem suffix children in
    (ap (node false) same, ap (λ t. t ++ []) found)
walk_rule_lem suffix (node true children) =
    let (same, found) = walkover_items_lem suffix children in
    let (again, more) = walkover_items_lem suffix (walkover_items suffix children).0 in
    (
      ap (node true) (
          again
          ∙ ap (items_with_names (renamed suffix)) same
          ∙ items_with_names-twice (renamed suffix) (renamed suffix) children),
      λ i.
          found i
          ++ (more
                ∙ ap (λ es. all_listed suffix (item_references es)) same
                ∙ ap (all_listed suffix) (items-with_names (renamed suffix) children))
              i,
    )
