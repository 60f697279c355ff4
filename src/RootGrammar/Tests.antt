-- ===== src/RootGrammar/Tests.antt =====
-- A root grammar over lists of rules, to which a mode with one variable is added.
use buckey.Common.{
  ℕ, zero, suc, ◌≡◌, refl, sym, ap, ◌∙◌, ◌≢◌, inl, inr, true, false, Option, none, some, List, [],
  ◌∷◌, ◌++◌, arith, if◌then◌else◌, Bool-cases, All, String, str_eq, str_eq_iff,
}
use buckey.Events.{new_source}
use buckey.Events.Ids.{new_source-IsValid}
use buckey.Events.Listeners.{listeners}
use buckey.RootGrammar.Modes.{Host, start_sphinx, stop_sphinx}
use buckey.RootGrammar.Stopped.{stop_sphinx-start_sphinx}
use mathlib.Core.Bool.{false≢true}
use buckey.Registry.{◌&◌}
use buckey.RootGrammar.CoreMode.{
  Sets, CoreMode, names_set, update_grammar, set_jsgf, update_search_mode, apply_updates,
}
use buckey.RootGrammar.Values.{FindsByName}
use buckey.RootGrammar.Updates.{update_grammar_lem}
use buckey.RootGrammar.{Rule, Jsgf, Root, add_mode_to_root_grammar, remove_mode_from_root_grammar}
use buckey.RootGrammar.Removal.{without, Has, IsLawful}
use buckey.RootGrammar.Restored.{Restores, remove_mode-add_mode}

abbrev find : (ℕ → String) → List ℕ → String → Option ℕ
find names [] n = none
find names (a ∷ rest) n = let r = find names rest n in if str_eq (names a) n then some a else r

abbrev lists : Jsgf
lists = record {
  Grammar = List ℕ;
  Expansion = String;
  get_rules = λ g. g;
  get_rule = find;
  add_rule = λ g a. g ++ a ∷ [];
  remove_rule = λ names g n. without names n g;
  token = λ t. t;
  required_grouping = λ e. e;
}

find-Has :
    (names : ℕ → String) (g : List ℕ) (n : String) (a : ℕ) → find names g n ≡ some a → Has names n g
find-Has names [] n a e = cc
find-Has names (x ∷ xs) n a e = elim (Bool-cases (str_eq (names x) n)) [
  | inl f ↦ inl f
  | inr f ↦ inr (find-Has names xs n a (ground (arith, e, f)))
]

find-none :
    (names : ℕ → String) (g : List ℕ) (n : String)
    → find names g n ≡ none
    → All (λ a. str_eq (names a) n ≡ false) g
find-none names [] n e = tt
find-none names (x ∷ xs) n e = elim (Bool-cases (str_eq (names x) n)) [
  | inl f ↦ absurd (ground (arith, e, f))
  | inr f ↦ (f, find-none names xs n (ground (arith, e, f)))
]

lists-IsLawful : IsLawful lists
lists-IsLawful = record {
  rules_add = λ g a. refl;
  rules_remove = λ names g n. refl;
  rule_found = find-Has;
  rule_missed = find-none;
}

abbrev names : ℕ → Rule String
names zero = record { rule_name = "root"; expansion = "modes" }
names (suc zero) = record { rule_name = "command"; expansion = "say <$word-echo0>" }
names (suc (suc n)) = record { rule_name = "$word-echo0"; expansion = "default value" }

abbrev root : Root lists
root = record { rules = names; next_rule = 3; root_grammar = 0 ∷ []; mode_list = "mode-core" ∷ [] }

remove_mode-add_mode_example : Restores lists-IsLawful root (
    remove_mode_from_root_grammar {K = lists} "echo"
      (1 ∷ 2 ∷ [])
      (add_mode_to_root_grammar {K = lists} "echo" (1 ∷ 2 ∷ []) root))
remove_mode-add_mode_example =
    remove_mode-add_mode lists-IsLawful "echo" (1 ∷ 2 ∷ []) 1 root refl refl
      (omega arith, (omega arith, tt)) (omega arith, tt) ((refl, (refl, tt)), tt) (refl, tt)

find-name :
    (names : ℕ → String) (g : List ℕ) (n : String) (a : ℕ) → find names g n ≡ some a → names a ≡ n
find-name names [] n a e = cc
find-name names (x ∷ xs) n a e = elim (Bool-cases (str_eq (names x) n)) [
  | inl f ↦
      let same : x ≡ a = ground (arith, e, f) in ap names (sym same) ∙ (str_eq_iff (names x) n).0 f
  | inr f ↦ find-name names xs n a (ground (arith, e, f))
]

lists-FindsByName : FindsByName lists
lists-FindsByName = find-name

abbrev joined : List String → String
joined [] = ""
joined (s ∷ ss) = s & joined ss

abbrev texts : Sets lists
texts = record { alternative_set = joined; tag = λ e s. e }

abbrev core_names : ℕ → Rule String
core_names zero = record { rule_name = "root"; expansion = "buckey" }
core_names (suc zero) = record { rule_name = "command"; expansion = "<mode-command>" }
core_names (suc (suc zero)) = record { rule_name = "$modeList-core0"; expansion = "default value" }
core_names (suc (suc (suc zero))) = record {
  rule_name = "$serviceList-core0";
  expansion = "default value";
}
core_names (suc (suc (suc (suc n)))) = record { rule_name = ""; expansion = "" }

abbrev core : CoreMode lists
core = record {
  root = record { rules = core_names; next_rule = 4; root_grammar = 0 ∷ []; mode_list = [] };
  grammar = 1 ∷ 2 ∷ 3 ∷ [];
  suffix = "-core0";
  is_started = true;
}

differ : (s t : String) → str_eq s t ≡ false → s ≢ t
differ s t f e = false≢true (sym f ∙ (str_eq_iff s t).1 e)

only_modes : (a : ℕ) → (core_names a).rule_name ≡ "$modeList-core0" → a ≡ 2
only_modes zero e = absurd (differ "root" "$modeList-core0" refl e)
only_modes (suc zero) e = absurd (differ "command" "$modeList-core0" refl e)
only_modes (suc (suc zero)) e = refl
only_modes (suc (suc (suc zero))) e = absurd (differ "$serviceList-core0" "$modeList-core0" refl e)
only_modes (suc (suc (suc (suc n)))) e = absurd (differ "" "$modeList-core0" refl e)

only_services : (a : ℕ) → (core_names a).rule_name ≡ "$serviceList-core0" → a ≡ 3
only_services zero e = absurd (differ "root" "$serviceList-core0" refl e)
only_services (suc zero) e = absurd (differ "command" "$serviceList-core0" refl e)
only_services (suc (suc zero)) e = absurd (differ "$modeList-core0" "$serviceList-core0" refl e)
only_services (suc (suc (suc zero))) e = refl
only_services (suc (suc (suc (suc n)))) e = absurd (differ "" "$serviceList-core0" refl e)

update_grammar_lem_example :
    let next = update_grammar texts ("core" ∷ "echo" ∷ []) ("mimic" ∷ []) true core in
    let root = next.0.root in
    ((root.rules 2).expansion ≡ names_set texts ("core" ∷ "echo" ∷ []))
    × ((root.rules 3).expansion ≡ names_set texts ("mimic" ∷ []))
    × (next.1 ≡ set_jsgf root.root_grammar ∷ update_search_mode ∷ apply_updates ∷ [])
update_grammar_lem_example =
    update_grammar_lem lists-FindsByName texts ("core" ∷ "echo" ∷ []) ("mimic" ∷ []) true core 2 3
      refl (record { found = refl; only = only_modes; made = omega arith })
      (record { found = refl; only = only_services; made = omega arith })

abbrev host : Host lists ℕ (Unit {0})
host = record { root = root; source = new_source 0 }

stop_sphinx-start_sphinx_example :
    let (m, begun) = start_sphinx 10 20 30 (1 ∷ 2 ∷ []) host in
    let (left, ended) = stop_sphinx m begun in
    (left.is_started ≡ false)
    × Restores lists-IsLawful root ended.root
    × (listeners "onServiceEnableEvent" ended.source ≡ listeners "onServiceEnableEvent" host.source)
unfolding new_source
stop_sphinx-start_sphinx_example =
    stop_sphinx-start_sphinx lists-IsLawful 10 20 30 (1 ∷ 2 ∷ []) 1 host "onServiceEnableEvent"
      (record {
        command = refl;
        free = refl;
        made = (omega arith, (omega arith, tt));
        root_made = (omega arith, tt);
        clear = ((refl, (refl, tt)), tt);
        unlisted = (refl, tt);
      })
      (new_source-IsValid 0 host.source refl) (omega arith)
