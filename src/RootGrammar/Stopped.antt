-- ===== src/RootGrammar/Stopped.antt =====
-- What is left of a Sphinx mode that is started and stopped, in src/sphinx/SphinxMode.cpp.
use buckey.Common.{ℕ, ◌+◌, ◌<◌, ◌≡◌, refl, false, none, some, map, All, String, str_eq}
use buckey.Events.{ulong_mod}
use buckey.Events.Ids.{IsValid}
use buckey.Events.Listeners.{listeners}
use buckey.RootGrammar.{Jsgf, Root, name_of, removed_name, tag_of}
use buckey.RootGrammar.Removal.{IsClear, IsLawful}
use buckey.RootGrammar.Restored.{Restores, remove_mode-add_mode}
use buckey.RootGrammar.Modes.{Host, start_sphinx, stop_sphinx}
use buckey.RootGrammar.Listening.{listeners-stop_sphinx}

-- The grammar of a mode is new to the root grammar: it has a rule <command>, the root grammar finds none
-- under the mode's name and has no rule of that name or of a name in the mode's grammar, the mode is not
-- in the list, and the rules of both are in the store.
pub record IsNew {K : Jsgf} (name : String) (g : K.Grammar) (r : ℕ) (s : Root K) : Type 0 where
  pub command : K.get_rule (name_of s) g "command" ≡ some r
  pub free : K.get_rule (name_of s) s.root_grammar name ≡ none
  pub made : All (λ a. a < s.next_rule) (K.get_rules g)
  pub root_made : All (λ a. a < s.next_rule) (K.get_rules s.root_grammar)
  pub clear :
      All
        (IsClear (name_of s) (map (removed_name name s) (K.get_rules g)))
        (K.get_rules s.root_grammar)
  pub unlisted : All (λ t. str_eq t (tag_of name) ≡ false) s.mode_list

module _ {K : Jsgf} (lawful : IsLawful K) {H D : Type 0} where
  -- A Sphinx mode that is started and stopped is not started, and leaves the rules of the root grammar,
  -- its list of modes, and the listeners of every event as they were, if its grammar is new to the root
  -- grammar, in every event the ids of listeners grow and stay below the next id, three more fit into
  -- an unsigned long, and the library keeps its promises.
  pub stop_sphinx-start_sphinx :
      (enabled disabled changed : H) (read : K.Grammar) (r : ℕ) (b : Host K H D) (event : String)
      → IsNew "pyramid" read r b.root
      → IsValid b.source
      → b.source.next_id + 3 < ulong_mod
      → let (m, started) = start_sphinx enabled disabled changed read b in
        let (left, stopped) = stop_sphinx m started in
        (left.is_started ≡ false)
        × Restores lawful b.root stopped.root
        × (listeners event stopped.source ≡ listeners event b.source)
  unfolding start_sphinx stop_sphinx
  stop_sphinx-start_sphinx enabled disabled changed read r b event new v room = (
    refl,
    remove_mode-add_mode lawful "pyramid" read r b.root new.command new.free new.made new.root_made
        new.clear new.unlisted,
    listeners-stop_sphinx enabled disabled changed read b event v room,
  )
