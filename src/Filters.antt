-- ===== src/Filters.antt =====
-- src/filters/StringHelper.cpp, but for its regular expressions and concatenateStringVector, and
-- filterText of src/filters/PerWordSingleReplacementFilter.cpp, with std::regex_match as a parameter
-- and the words that splitString makes as an input. Texts are lists of bytes.
pub mod Trimming
pub mod Searching
pub mod Rules
mod Tests
use buckey.Common.{
  ℕ, zero, suc, ◌+◌, ◌-◌, ◌*◌, ◌/◌, ◌%◌, ◌^◌, ◌≤◌, ◌<◌, ◌≡◌, refl, sym, ap, ◌∙◌, subst, ◌≢◌, ◌↔◌,
  ◌⊎◌, inl, inr, Bool, true, false, not, ◌&&◌, ◌||◌, Option, none, some, List, [], ◌∷◌, ◌++◌, map,
  append-nil, append_assoc, arith, ltb, leb, ◌==◌, if◌then◌else◌, Bool-cases, Option-cases, length,
  get_elem?, set, take, drop, concat, length-append, drop-length-append, All, All-append, String,
  str_eq, str_eq_iff, str_eq_refl,
}

-- size_t
abbrev pub size_mod : ℕ
size_mod = 2 ^ 64

abbrev pub npos : ℕ
npos = size_mod - 1

abbrev pub is_prefix : List ℕ → List ℕ → Bool
is_prefix [] s = true
is_prefix (d ∷ test) [] = false
is_prefix (d ∷ test) (c ∷ s) = (c == d) && is_prefix test s

-- std::string::find, from index i on.
unfoldable pub find_from : ℕ → List ℕ → List ℕ → ℕ
find_from i [] test = if is_prefix test [] then i else npos
find_from i (c ∷ s) test =
    let later = find_from (i + 1) s test in if is_prefix test (c ∷ s) then i else later

unfoldable pub string_contains : List ℕ → List ℕ → Bool
unfolding find_from
string_contains part search = not (find_from 0 part search == npos)

-- The difference of two lengths wraps around.
unfoldable pub string_ends_with : List ℕ → List ℕ → Bool
unfolding find_from
string_ends_with s test =
    (find_from 0 s test == ((length s + size_mod - length test) % size_mod))
    && not (find_from 0 s test == npos)

-- isspace of the C locale.
abbrev pub is_space : ℕ → Bool
is_space c = (c == 32) || (leb 9 c && leb c 13)

unfoldable pub ltrim : List ℕ → List ℕ
ltrim [] = []
ltrim (c ∷ s) = let rest = ltrim s in if is_space c then rest else c ∷ s

-- What is in front of the last byte that is no space, and that byte.
abbrev pub before_trimmed : ℕ → List ℕ → List ℕ
before_trimmed c [] = if is_space c then [] else c ∷ []
before_trimmed c (d ∷ s) = c ∷ d ∷ s

unfoldable pub rtrim : List ℕ → List ℕ
rtrim [] = []
rtrim (c ∷ s) = before_trimmed c (rtrim s)

unfoldable pub trim_string : List ℕ → List ℕ
unfolding ltrim rtrim
trim_string s = ltrim (rtrim s)

module _ {R : Type 0} (regex_match : List ℕ → R → Bool) where
  -- A word, or what the first rule that matches it puts in its place.
  unfoldable pub replaced : List (R × List ℕ) → List ℕ → List ℕ
  replaced [] s = s
  replaced ((rule, text) ∷ rules) s =
      let later = replaced rules s in if regex_match s rule then text else later

  unfoldable pub filter_output : List (R × List ℕ) → List (List ℕ) → List ℕ
  unfolding replaced
  filter_output rules [] = []
  filter_output rules (s ∷ words) = replaced rules s ++ 32 ∷ filter_output rules words

  unfoldable pub filter_text : List (R × List ℕ) → List (List ℕ) → List ℕ
  unfolding filter_output trim_string
  filter_text rules words = trim_string (filter_output rules words)
