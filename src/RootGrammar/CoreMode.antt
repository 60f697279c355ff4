-- ===== src/RootGrammar/CoreMode.antt =====
-- updateGrammar and initFinished of src/core/CoreMode.cpp, and setVariable of src/core/DynamicGrammar.cpp
-- with an expansion. The names are those that listModes and listServices give; what the speech services
-- are called with is a list of calls.
use buckey.Common.{Bool, none, some, List, [], ◌∷◌, ◌++◌, map, if◌then◌else◌, String}
use buckey.Registry.{◌&◌}
use buckey.RootGrammar.{Jsgf, Root, name_of, set_rule_expansion, add_mode_to_root_grammar}

-- The calls on the speech service, the recognition service and the sounds, and a warning.
pub data Call (K : Jsgf) : Type 0 where
  prepare_speech : String → Call K
  pause_recognition resume_recognition apply_updates : Call K
  set_jsgf : K.Grammar → Call K
  update_search_mode play_attention warn_not_started : Call K

-- The library's sets of alternatives, and a text that is tagged with itself.
pub record Sets (K : Jsgf) : Type 0 where
  pub alternative_set : List K.Expansion → K.Expansion
  pub tag : (token : K.Expansion) → String → K.Expansion

-- The core mode's grammar with its suffix, whether the mode is started, and what getServiceState finds
-- for "mimic" and for "sphinx" at each call.
pub record CoreMode (K : Jsgf) : Type 0 where
  pub root : Root K
  pub grammar : K.Grammar
  pub suffix : String
  pub is_started : Bool

pub record Readings : Type 0 where
  pub mimic_runs : Bool
  pub sphinx_runs_before : Bool
  pub sphinx_runs_within : Bool
  pub sphinx_runs_after : Bool

module _ {K : Jsgf} (sets : Sets K) where
  open sets use {alternative_set, tag}

  abbrev pub variable_key : (suffix variable : String) → String
  variable_key suffix variable = "$" & variable & suffix

  unfoldable pub set_variable_expansion :
      (suffix variable : String) → K.Expansion → K.Grammar → Root K → Root K
  set_variable_expansion suffix variable e g s =
      elim (K.get_rule (name_of s) g (variable_key suffix variable)) [
        | none ↦ s
        | some r ↦ set_rule_expansion r (K.required_grouping e) s
      ]

  -- An alternative for each name, tagged with it.
  abbrev pub names_set : List String → K.Expansion
  names_set names = alternative_set (map (λ s. tag (K.token s) s) names)

  unfoldable pub set_lists : (modes services : List String) → CoreMode K → Root K
  unfolding set_variable_expansion
  set_lists modes services c =
      set_variable_expansion c.suffix "serviceList" (names_set services) c.grammar
        (set_variable_expansion c.suffix "modeList" (names_set modes) c.grammar c.root)

  unfoldable pub update_grammar :
      (modes services : List String) (sphinx_runs : Bool) → CoreMode K → CoreMode K × List (Call K)
  update_grammar modes services sphinx_runs c =
      let root = add_mode_to_root_grammar "core" c.grammar (set_lists modes services c) in
      let updates = set_jsgf root.root_grammar ∷ update_search_mode ∷ apply_updates ∷ [] in
      if c.is_started
      then (record c { root = root }, (if sphinx_runs then updates else []))
      else (c, warn_not_started ∷ [])

  -- The texts that are prepared for one name.
  abbrev pub announcements : (kind : String) → List String → List (Call K)
  announcements kind [] = []
  announcements kind (s ∷ names) =
      prepare_speech ("Enabled " & s & kind)
      ∷ prepare_speech ("Disabled " & s & kind)
      ∷ prepare_speech ("Reloaded " & s & kind)
      ∷ announcements kind names

  abbrev pub phrases : List (Call K)
  phrases =
      prepare_speech "I'm sorry but you cannot disable the core mode"
      ∷ prepare_speech "OK"
      ∷ prepare_speech "Yes"
      ∷ prepare_speech "No"
      ∷ prepare_speech "Doing so now"
      ∷ prepare_speech "Alright"
      ∷ prepare_speech "Hello"
      ∷ prepare_speech "My name is buckey McAllister I am a personal assistant"
      ∷ []

  unfoldable pub init_finished :
      (modes services : List String) → Readings → CoreMode K → CoreMode K × List (Call K)
  init_finished modes services r c =
      let (next, updates) = update_grammar modes services r.sphinx_runs_within c in
      (
        next,
        (if r.mimic_runs
              then phrases ++ (announcements " mode" modes ++ announcements " service" services)
              else [])
            ++ (if r.sphinx_runs_before then pause_recognition ∷ [] else [])
            ++ updates
            ++ (if r.sphinx_runs_after then resume_recognition ∷ [] else [])
            ++ play_attention ∷ [],
      )
