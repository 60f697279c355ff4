-- ===== src/Filters/Tests.antt =====
-- Runs of the helpers on texts.
use buckey.Common.{
  ℕ, ◌≡◌, refl, ap, ◌∙◌, inr, true, false, some, List, [], ◌∷◌, ◌++◌, arith, ◌==◌, if◌then◌else◌,
  drop,
}
use buckey.Common.{ne→==-false}
use buckey.Filters.Rules.{
  Regex, quote, delimiter, HasNo, IsLawful, DictionaryLine, skipped, defines, written, load_rules,
  load_rules-written,
}
use buckey.Filters.{is_prefix, trim_string, find_from, string_ends_with}

-- "aba" ends with "a", which the first occurrence hides.
first_occurrence_hides : string_ends_with (97 ∷ 98 ∷ 97 ∷ []) (97 ∷ []) ≡ false
unfolding string_ends_with find_from
first_occurrence_hides = refl

-- A matcher of the delimiter that looks for the equals sign.
break_at : List ℕ → List ℕ × List ℕ
break_at [] = ([], [])
break_at (c ∷ s) = let rest = break_at s in if c == 61 then ([], s) else (c ∷ rest.0, rest.1)

init : List ℕ → List ℕ
init [] = []
init (c ∷ []) = []
init (c ∷ d ∷ s) = c ∷ init (d ∷ s)

abbrev plain : Regex
plain = record {
  Expr = List ℕ;
  compile = λ p. some p;
  split_string = λ s rgx. init (break_at s).0 ∷ drop 1 (break_at s).1 ∷ [];
  remove_first = λ s rgx. drop 1 s;
}

break_at-delimiter :
    (a b : List ℕ) → HasNo 61 a → break_at (a ++ (delimiter ++ b)) ≡ (a ++ quote ∷ [], quote ∷ b)
unfolding break_at
break_at-delimiter [] b h = refl
break_at-delimiter (c ∷ a) b h = rw (break_at-delimiter a b h.1, ne→==-false (h.0)) refl

init-append : (a : List ℕ) (c : ℕ) → init (a ++ c ∷ []) ≡ a
unfolding init
init-append [] c = refl
init-append (d ∷ []) c = refl
init-append (d ∷ e ∷ a) c = ap (λ t. d ∷ t) (init-append (e ∷ a) c)

plain-IsLawful : IsLawful plain
plain-IsLawful = record {
  splits = λ a b c h k.
      ap (λ (p : List ℕ × List ℕ). init p.0 ∷ drop 1 p.1 ∷ [])
        (break_at-delimiter a (b ++ c ∷ []) h)
      ∙ ap (λ t. t ∷ (b ++ c ∷ []) ∷ []) (init-append a quote);
  removes = λ a. refl;
}

comment_line : is_prefix (35 ∷ []) (trim_string (35 ∷ 32 ∷ 97 ∷ [])) ≡ true
unfolding trim_string
comment_line = refl

abbrev dictionary : List (DictionaryLine plain)
dictionary =
    skipped (35 ∷ 32 ∷ 97 ∷ []) (inr comment_line)
    ∷ defines (record {
      pattern = 97 ∷ 98 ∷ [];
      text = 99 ∷ [];
      expr = 97 ∷ 98 ∷ [];
      compiles = refl;
      plain_pattern = ((λ e. absurd (omega (arith, e))), ((λ e. absurd (omega (arith, e))), tt));
      plain_text = ((λ e. absurd (omega (arith, e))), tt);
    })
    ∷ []

load_rules-written_example :
    load_rules plain [] (written dictionary) ≡ some ((97 ∷ 98 ∷ [], 99 ∷ []) ∷ [])
load_rules-written_example = load_rules-written plain-IsLawful [] dictionary
