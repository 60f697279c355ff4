-- ===== src/Dispatch/Tags.antt =====
-- Which mode gets a command.
use buckey.Common.{
  ◌≡◌, refl, ap, ◌∙◌, Bool, true, false, none, some, List, [], ◌∷◌, ◌++◌, append_assoc, All, String,
}
use buckey.Registry.{ModeState, Part, Entry}
use buckey.Dispatch.{
  mode_tag_prefix, string_starts_with, mode_name, handed, runs_past_end, find_started, pass_tags,
  pass_command,
}

abbrev pub is_mode_tag : String → Bool
is_mode_tag s = string_starts_with s mode_tag_prefix

module _ {W : Type 0} (M : Part ModeState W) where
  pass_tags-first :
      (es : List (Entry M)) (seen before : List String) (tag : String) (after : List String)
      (m : M.Self)
      → All (λ s. is_mode_tag s ≡ false) before
      → is_mode_tag tag ≡ true
      → find_started M (mode_name tag) es ≡ some m
      → pass_tags M es false seen (before ++ tag ∷ after) ≡ handed m (seen ++ (before ++ after))
  unfolding pass_tags
  pass_tags-first es seen [] tag after m h t f = rw (pass_tags, t, f) refl
  pass_tags-first es seen (s ∷ before) tag after m (n, h) t f =
      rw (pass_tags, n)
        (pass_tags-first es (seen ++ s ∷ []) before tag after m h t f
          ∙ ap (handed m) (append_assoc seen (s ∷ []) (before ++ after)))

  pass_tags-last :
      (es : List (Entry M)) (seen before : List String) (tag : String)
      → All (λ s. is_mode_tag s ≡ false) before
      → is_mode_tag tag ≡ true
      → find_started M (mode_name tag) es ≡ none
      → pass_tags M es false seen (before ++ tag ∷ []) ≡ runs_past_end
  unfolding pass_tags
  pass_tags-last es seen [] tag h t f = rw (pass_tags, t, f) refl
  pass_tags-last es seen (s ∷ before) tag (n, h) t f =
      rw (pass_tags, n) (pass_tags-last es (seen ++ s ∷ []) before tag h t f)

  -- A command goes to the mode that its first mode tag names, if that mode is registered and started,
  -- with all the other tags in their order.
  pub pass_command-first :
      (es : List (Entry M)) (before : List String) (tag : String) (after : List String) (m : M.Self)
      → All (λ s. is_mode_tag s ≡ false) before
      → is_mode_tag tag ≡ true
      → find_started M (mode_name tag) es ≡ some m
      → pass_command M es (some (before ++ tag ∷ after)) ≡ handed m (before ++ after)
  unfolding pass_command
  pass_command-first es before tag after m h t f = pass_tags-first es [] before tag after m h t f

  -- If the only mode tag is the last tag and its mode is not started, the loop runs past the end of the
  -- tags.
  pub pass_command-past_end :
      (es : List (Entry M)) (before : List String) (tag : String)
      → All (λ s. is_mode_tag s ≡ false) before
      → is_mode_tag tag ≡ true
      → find_started M (mode_name tag) es ≡ none
      → pass_command M es (some (before ++ tag ∷ [])) ≡ runs_past_end
  unfolding pass_command
  pass_command-past_end es before tag h t f = pass_tags-last es [] before tag h t f
