-- ===== src/Variables/Tests.antt =====
-- The rule of a core grammar with one variable.
use buckey.Common.{◌≡◌, refl, ◌≢◌, true, ◌++◌, arith, All, str_eq_iff}
use buckey.Dispatch.{string_starts_with}
use buckey.Registry.{◌&◌}
use buckey.Variables.{reference, node, Items, nil, cons, looked_for, walk_rule}
use buckey.Variables.Renaming.{
  references, with_names, all_listed, once_or_twice, listed_again, walk_rule_lem,
}
use buckey.Variables.Missed.{walk_rule-misses}

abbrev children : Items
children = cons (reference "mode-command") (cons (reference "$modeList") nil)

walk_rule_lem_example :
    ((walk_rule "-core1" (node true children)).0
      ≡ with_names (once_or_twice "-core1" (node true children)) (node true children))
    × ((walk_rule "-core1" (node true children)).1
        ≡ all_listed "-core1" (references (node true children))
          ++ listed_again "-core1" (node true children))
walk_rule_lem_example = walk_rule_lem "-core1" (node true children)

walk_rule-misses_example :
    ((walk_rule "-core1" (reference ("$" & "modeList"))).0
      ≡ reference (looked_for "-core1" "modeList"))
    × All
        (λ n. n ≢ looked_for "-core1" "modeList")
        (references (walk_rule "-core1" (node true children)).0)
unfolding references string_starts_with
walk_rule-misses_example =
    walk_rule-misses "-core1" "modeList" children
      (λ e. absurd (ground (arith, str_eq_iff "-core1" "", e)))
      ((λ h. absurd (cc)), ((λ h. refl), tt))
