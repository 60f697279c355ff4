-- ===== src/Recognizer/Prompts.antt =====
-- setJSGF and the two handlers of prompts in src/sphinx/SphinxService.cpp. The path of the temporary
-- file, to which the grammar is written, and that of confirm.gram are given.
use buckey.Common.{
  ℕ, Bool, true, false, Option, some, List, arith, if◌then◌else◌, String, if_holds, str_eq,
}
use buckey.Decoder.{PocketSphinx, update_jsgf}
use buckey.Decoder.Machine.{Returns}
use buckey.Recognizer.{Recognizer}
use buckey.Recognizer.Apply.{apply_updates}
use buckey.Recognizer.Words.{update_jsgf_path}
use buckey.Recognizer.Sound.{IsSound}
use buckey.Recognizer.Calls.{update_all-IsSound}
use buckey.Recognizer.Rounds.{apply_updates-IsSound}

module _ {L : PocketSphinx} where
  unfoldable pub set_jsgf : (temp_path : String) → Recognizer L → Recognizer L
  set_jsgf temp_path r = update_jsgf_path temp_path r

  -- The handlers, with the fuel and the array of applyUpdates.
  unfoldable pub on_enter_prompt :
      (type confirm_path : String) (fuel : ℕ) (junk : List ℕ)
      → Recognizer L
      → Option (Recognizer L × Bool)
  on_enter_prompt type confirm_path fuel junk r =
      let applied = apply_updates fuel junk (update_jsgf_path confirm_path r) in
      if str_eq type "confirm" then applied else some (r, true)

  unfoldable pub on_conversation_end :
      (temp_path : String) (fuel : ℕ) (junk : List ℕ) → Recognizer L → Option (Recognizer L × Bool)
  on_conversation_end temp_path fuel junk r = apply_updates fuel junk (set_jsgf temp_path r)

  update_jsgf_path-IsSound :
      (path : String) (r : Recognizer L) → IsSound r → IsSound (update_jsgf_path path r)
  unfolding update_jsgf
  update_jsgf_path-IsSound path r v =
      update_all-IsSound (update_jsgf path false) r (λ d l. ground arith) v

  pub on_enter_prompt-IsSound :
      (type confirm_path : String) (fuel : ℕ) (junk : List ℕ) (r : Recognizer L)
      → IsSound r
      → Returns (λ s. IsSound s.0) (on_enter_prompt type confirm_path fuel junk r)
  unfolding on_enter_prompt
  on_enter_prompt-IsSound type confirm_path fuel junk r v =
      if_holds (Returns (λ s. IsSound s.0)) (str_eq type "confirm")
        (apply_updates fuel junk (update_jsgf_path confirm_path r)) (some (r, true))
        (λ _.
          apply_updates-IsSound fuel junk (update_jsgf_path confirm_path r)
            (update_jsgf_path-IsSound confirm_path r v))
        (λ _. v)

  pub on_conversation_end-IsSound :
      (temp_path : String) (fuel : ℕ) (junk : List ℕ) (r : Recognizer L)
      → IsSound r
      → Returns (λ s. IsSound s.0) (on_conversation_end temp_path fuel junk r)
  unfolding on_conversation_end set_jsgf
  on_conversation_end-IsSound temp_path fuel junk r v =
      apply_updates-IsSound fuel junk (update_jsgf_path temp_path r)
        (update_jsgf_path-IsSound temp_path r v)
