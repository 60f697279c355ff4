-- ===== src/Filters/Rules.antt =====
-- The dictionary of src/filters/PerWordSingleReplacementFilter.cpp: the constructor over the lines of its
-- file, and what std::regex does for StringHelper::splitString and replaceFirst as a parameter.
use buckey.Common.{
  ℕ, ◌≡◌, refl, sym, ap, ◌∙◌, ◌≢◌, ◌⊎◌, inl, inr, true, false, Option, none, some, List, [], ◌∷◌,
  ◌++◌, append-nil, append_assoc, arith, ◌==◌, if◌then◌else◌, length, All, All-append, if_holds,
}
use buckey.Filters.{is_prefix, is_space, ltrim, before_trimmed, rtrim, trim_string}

-- A regular expression from its text, or an error; the parts of a text between the matches of one; and
-- a text without the first match of one.
pub record Regex : Type 1 where
  pub Expr : Type 0
  pub compile : List ℕ → Option Expr
  pub split_string : List ℕ → (rgx : List ℕ) → List (List ℕ)
  pub remove_first : List ℕ → (rgx : List ℕ) → List ℕ

abbrev pub quote : ℕ
quote = 34

-- dictionaryDefinitionDelimiter
abbrev pub delimiter : List ℕ
delimiter = quote ∷ 61 ∷ quote ∷ []

abbrev pub hash : ℕ
hash = 35

-- The text without its last byte, which is undefined for the empty text.
unfoldable pub pop_back : List ℕ → Option (List ℕ)
pop_back [] = none
pop_back (c ∷ []) = some []
pop_back (c ∷ d ∷ s) = elim (pop_back (d ∷ s)) [ none ↦ none | some rest ↦ some (c ∷ rest) ]

module _ (X : Regex) where
  open X use {Expr, compile, split_string, remove_first}

  -- A rule is added if its text is an expression; an error is printed.
  abbrev with_rule : List (Expr × List ℕ) → Option Expr → List ℕ → List (Expr × List ℕ)
  with_rule rules none text = rules
  with_rule rules (some e) text = rules ++ (e, text) ∷ []

  -- What a definition gives by its parts; `none` is a read of a part that is not there, or pop_back on
  -- an empty text, which are undefined.
  unfoldable pub add_parts : List (Expr × List ℕ) → List (List ℕ) → Option (List (Expr × List ℕ))
  unfolding pop_back
  add_parts rules [] = none
  add_parts rules (p ∷ []) = none
  add_parts rules (p ∷ t ∷ parts) = elim (pop_back t) [
    | none ↦ none
    | some text ↦ some (with_rule rules (compile (remove_first p (quote ∷ []))) text)
  ]

  unfoldable pub read_line : List (Expr × List ℕ) → List ℕ → Option (List (Expr × List ℕ))
  unfolding add_parts trim_string
  read_line rules line =
      let trimmed = trim_string line in
      if length trimmed == 0
      then some rules
      else if is_prefix (hash ∷ []) trimmed
      then some rules
      else add_parts rules (split_string trimmed delimiter)

  -- The constructor's loop over the lines.
  unfoldable pub load_rules : List (Expr × List ℕ) → List (List ℕ) → Option (List (Expr × List ℕ))
  unfolding read_line
  load_rules rules [] = some rules
  load_rules rules (line ∷ lines) = elim (read_line rules line) [
    | none ↦ none
    | some more ↦ load_rules more lines
  ]

-- A definition as it stands in the file.
abbrev pub print_rule : (pattern text : List ℕ) → List ℕ
print_rule pattern text = quote ∷ pattern ++ (delimiter ++ (text ++ quote ∷ []))

abbrev pub HasNo : ℕ → List ℕ → Type 0
HasNo c = All (λ d. d ≢ c)

-- What std::regex promises for the two expressions that are used, which are plain texts.
pub record IsLawful (X : Regex) : Type 0 where
  pub splits :
      (a b : List ℕ) (c : ℕ)
      → HasNo 61 a
      → HasNo 61 (b ++ c ∷ [])
      → X.split_string (a ++ (delimiter ++ (b ++ c ∷ []))) delimiter ≡ a ∷ (b ++ c ∷ []) ∷ []
  pub removes : (a : List ℕ) → X.remove_first (quote ∷ a) (quote ∷ []) ≡ a

-- A definition of the dictionary whose expression is right and which has no equals sign within.
pub record Definition (X : Regex) : Type 0 where
  pub pattern : List ℕ
  pub text : List ℕ
  pub expr : X.Expr
  pub compiles : X.compile pattern ≡ some expr
  pub plain_pattern : HasNo 61 pattern
  pub plain_text : HasNo 61 text

pop_back-append : (s : List ℕ) (c : ℕ) → pop_back (s ++ c ∷ []) ≡ some s
unfolding pop_back
pop_back-append [] c = refl
pop_back-append (d ∷ []) c = refl
pop_back-append (d ∷ e ∷ s) c = rw (pop_back-append (e ∷ s) c, pop_back) refl

rtrim-append : (s : List ℕ) (c : ℕ) → is_space c ≡ false → rtrim (s ++ c ∷ []) ≡ s ++ c ∷ []
unfolding rtrim
rtrim-append [] c h = rw h refl
rtrim-append (d ∷ []) c h = rw (rtrim-append [] c h, rtrim) refl
rtrim-append (d ∷ e ∷ s) c h = ap (before_trimmed d) (rtrim-append (e ∷ s) c h)

module _ {X : Regex} (lawful : IsLawful X) where
  abbrev line_of : Definition X → List ℕ
  line_of d = print_rule d.pattern d.text

  abbrev rule_of : Definition X → X.Expr × List ℕ
  rule_of d = (d.expr, d.text)

  trim-line : (d : Definition X) → trim_string (line_of d) ≡ line_of d
  unfolding trim_string ltrim
  trim-line d =
      let body = quote ∷ (d.pattern ++ (delimiter ++ d.text)) in
      let whole : body ++ quote ∷ [] ≡ line_of d =
        ap (λ t. quote ∷ t) (append_assoc d.pattern (delimiter ++ d.text) (quote ∷ [])) in
      ap trim_string (sym whole) ∙ ap ltrim (rtrim-append body quote refl) ∙ whole

  parts-eq :
      (rules : List (X.Expr × List ℕ)) (d : Definition X)
      → add_parts X rules (X.split_string (line_of d) delimiter) ≡ some (rules ++ rule_of d ∷ [])
  unfolding add_parts
  parts-eq rules d =
      let rest = λ (e : Option X.Expr) (o : Option (List ℕ)).
        elim o as (λ _. Option (List (X.Expr × List ℕ))) [
          | none ↦ none
          | some text ↦ some (with_rule X rules e text)
        ] in
      ap (add_parts X rules) (
        lawful.splits (quote ∷ d.pattern) d.text quote
          ((λ e. absurd (omega (arith, e))), d.plain_pattern)
          (All-append (λ c. c ≢ 61) d.text (quote ∷ []) d.plain_text
            ((λ e. absurd (omega (arith, e))), tt)))
      ∙ (λ i. rest (X.compile (lawful.removes d.pattern i)) (pop_back-append d.text quote i))
      ∙ ap (λ e. rest e (some d.text)) d.compiles

  read_line-Definition :
      (rules : List (X.Expr × List ℕ)) (d : Definition X)
      → read_line X rules (line_of d) ≡ some (rules ++ rule_of d ∷ [])
  unfolding read_line
  read_line-Definition rules d =
      let after = some (rules ++ rule_of d ∷ []) in
      let go = λ (t : List ℕ).
        if length t == 0
        then some rules
        else if is_prefix (hash ∷ []) t
        then some rules
        else add_parts X rules (X.split_string t delimiter) in
      let P = λ (r : Option (List (X.Expr × List ℕ))). r ≡ after in
      let line = line_of d in
      let parts = add_parts X rules (X.split_string line delimiter) in
      let rest = if is_prefix (hash ∷ []) line then some rules else parts in
      ap go (trim-line d)
      ∙ if_holds P (length line == 0) (some rules) rest (λ e. absurd (ground (arith, e)))
          (λ _.
            if_holds P (is_prefix (hash ∷ []) line) (some rules) parts (λ e. absurd (cc e))
              (λ _. parts-eq rules d))

  read_line-skipped :
      (rules : List (X.Expr × List ℕ)) (line : List ℕ)
      → (length (trim_string line) ≡ 0) ⊎ (is_prefix (hash ∷ []) (trim_string line) ≡ true)
      → read_line X rules line ≡ some rules
  unfolding read_line
  read_line-skipped rules line (inl e) = ground (arith, e)
  read_line-skipped rules line (inr e) = ground (arith, e)

-- A line of a dictionary: one that is skipped, or a definition.
pub data DictionaryLine (X : Regex) : Type 0 where
  skipped :
      (line : List ℕ)
      → (length (trim_string line) ≡ 0) ⊎ (is_prefix (hash ∷ []) (trim_string line) ≡ true)
      → DictionaryLine X
  defines : Definition X → DictionaryLine X

abbrev pub written : {X : Regex} → List (DictionaryLine X) → List (List ℕ)
written [] = []
written (skipped line e ∷ ls) = line ∷ written ls
written (defines d ∷ ls) = print_rule d.pattern d.text ∷ written ls

abbrev pub defined : {X : Regex} → List (DictionaryLine X) → List (X.Expr × List ℕ)
defined [] = []
defined (skipped line e ∷ ls) = defined ls
defined (defines d ∷ ls) = (d.expr, d.text) ∷ defined ls

-- A dictionary of blank lines, lines that begin with a hash, and definitions as they are written, whose
-- patterns are expressions and have no equals sign, nor have their replacements: the constructor reads
-- from it exactly the definitions, in their order, each with its expression and its replacement, if
-- std::regex keeps its promises.
pub load_rules-written :
    {X : Regex} (lawful : IsLawful X) (rules : List (X.Expr × List ℕ))
    (ls : List (DictionaryLine X))
    → load_rules X rules (written ls) ≡ some (rules ++ defined ls)
unfolding load_rules
load_rules-written lawful rules [] = ap some (sym (append-nil rules))
load_rules-written {X} lawful rules (skipped line e ∷ ls) =
    ap
      (λ o. elim o as (λ _. Option (List (X.Expr × List ℕ))) [
        | none ↦ none
        | some more ↦ load_rules X more (written ls)
      ])
      (read_line-skipped lawful rules line e)
    ∙ load_rules-written lawful rules ls
load_rules-written {X} lawful rules (defines d ∷ ls) =
    ap
      (λ o. elim o as (λ _. Option (List (X.Expr × List ℕ))) [
        | none ↦ none
        | some more ↦ load_rules X more (written ls)
      ])
      (read_line-Definition lawful rules d)
    ∙ load_rules-written lawful (rules ++ (d.expr, d.text) ∷ []) ls
    ∙ ap some (append_assoc rules ((d.expr, d.text) ∷ []) (defined ls))
