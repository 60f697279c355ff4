-- ===== src/Dispatch.antt =====
-- From inputs to modes in src/core/Buckey.cpp: the queue of inputs with passInput and watchInputQue,
-- promptConfirmation, which takes an input from it, and passCommand, which looks for the mode. Events
-- and what is written to the console are left out, and the match of a command against the root grammar
-- is the work of a library, so an input here.
pub mod Queue
pub mod Tags
pub mod Echo
mod Tests
use Prim.Native.Char.{Char, code}
use buckey.Common.{
  ℕ, zero, suc, ◌+◌, ◌-◌, ◌*◌, ◌/◌, ◌%◌, ◌^◌, ◌≤◌, ◌<◌, ◌≡◌, refl, sym, ap, ◌∙◌, subst, ◌≢◌, ◌↔◌,
  ◌⊎◌, inl, inr, Bool, true, false, not, ◌&&◌, ◌||◌, Option, none, some, List, [], ◌∷◌, ◌++◌, map,
  append-nil, append_assoc, arith, ltb, leb, ◌==◌, if◌then◌else◌, Bool-cases, Option-cases, length,
  get_elem?, set, take, drop, concat, length-append, drop-length-append, All, All-append, String,
  str_eq, str_eq_iff, str_eq_refl,
}
use buckey.Registry.{ModeState, started, Hub, Part, Entry}
use buckey.Registry.Listing.{same_mode_state}
use buckey.Registry.Saved.{to_chars, of_chars}

-- The queue, and the flags that its readers look at.
pub record Inbox : Type 0 where
  pub input_que : List String
  pub in_conversation : Bool
  pub killed : Bool

unfoldable pub pass_input : String → Inbox → Inbox
pass_input input b = record b { input_que = b.input_que ++ input ∷ [] }

-- The front of the queue, taken off.
unfoldable pub pop : Inbox → Inbox × Option String
pop b = elim b.input_que [ [] ↦ (b, none) | s ∷ rest ↦ (record b { input_que = rest }, some s) ]

-- One round of watchInputQue: the input that it hands to passCommand, if any.
unfoldable pub watch_round : Inbox → Inbox × Option String
unfolding pop
watch_round b = if b.killed then (b, none) else if b.in_conversation then (b, none) else pop b

-- A round of promptConfirmation that is in time: the input that it takes from the same queue, if any.
unfoldable pub prompt_take : Inbox → Inbox × Option String
unfolding pop
prompt_take b = if b.killed then (b, none) else pop b

-- What a round of the prompt's loop finds: whether the time is over, and the inputs that arrived.
pub record Look : Type 0 where
  pub late : Bool
  pub arrived : List String

pub data PromptResult : Type 0 where
  timed_out : PromptResult
  confirmed : Bool → PromptResult

arrive : List String → Inbox → Inbox
unfolding pass_input
arrive [] b = b
arrive (s ∷ ss) b = arrive ss (pass_input s b)

-- The result of a prompt from the input that was taken.
abbrev pub answer : String → PromptResult
answer result = confirmed (str_eq result "confirm")

-- What the round does with the front of the queue; `rest` is the loop from there on.
prompt_pop : Inbox × Option String → Inbox × Option PromptResult → Inbox × Option PromptResult
prompt_pop (b, some result) rest = (b, some (answer result))
prompt_pop (b, none) rest = rest

-- The loop of promptConfirmation, over what its rounds find; `none` is a loop that is still waiting. A
-- prompt that is ended by killed has an empty result.
pub prompt_confirmation : Inbox → List Look → Inbox × Option PromptResult
unfolding arrive pop prompt_pop
prompt_confirmation b [] = if b.killed then (b, some (answer "")) else (b, none)
prompt_confirmation b (l ∷ ls) =
    let now = arrive l.arrived b in
    let rest = prompt_confirmation now ls in
    if b.killed
    then (b, some (answer ""))
    else if l.late
    then (b, some timed_out)
    else prompt_pop (pop now) rest

-- MODE_TAG_PREFIX.
abbrev pub mode_tag_prefix : String
mode_tag_prefix = "-_buckey_mode_-"

-- Whether the text begins with another: `s.find(test) == 0`.
unfoldable pub chars_start_with : List Char → List Char → Bool
chars_start_with s [] = true
chars_start_with [] (d ∷ test) = false
chars_start_with (c ∷ s) (d ∷ test) = (code c == code d) && chars_start_with s test

unfoldable pub string_starts_with : String → String → Bool
unfolding chars_start_with to_chars
string_starts_with s test = chars_start_with (to_chars s) (to_chars test)

unfoldable pub mode_name : String → String
unfolding to_chars of_chars
mode_name s = of_chars (drop (length (to_chars mode_tag_prefix)) (to_chars s))

-- What passCommand does with the tags of a match: a mode gets the command with the tags that are left,
-- no mode does, or the loop runs past the end of the tags, which is undefined.
pub data Dispatch (A : Type 0) : Type 0 where
  handed : A → List String → Dispatch A
  nobody runs_past_end : Dispatch A

module _ {W : Type 0} (M : Part ModeState W) where
  -- The first mode with the name that is started.
  unfoldable pub find_started : String → List (Entry M) → Option M.Self
  find_started k [] = none
  find_started k ((on, m) ∷ es) =
      let rest = find_started k es in
      if str_eq (M.name m) k && same_mode_state (M.state m) started then some m else rest

  -- The loop over the tags, with those before the iterator. A mode's tag is erased, and if no mode takes
  -- the command, the step of the iterator passes over the tag that moved into its place, `skipping`.
  unfoldable pub pass_tags : List (Entry M) → Bool → List String → List String → Dispatch M.Self
  unfolding find_started string_starts_with mode_name
  pass_tags es skipping before [] = if skipping then runs_past_end else nobody
  pass_tags es skipping before (s ∷ after) =
      let passed = pass_tags es false (before ++ s ∷ []) after in
      let erased = pass_tags es true before after in
      let found : Dispatch M.Self = elim (find_started (mode_name s) es) [
        | none ↦ erased
        | some m ↦ handed m (before ++ after)
      ] in
      if skipping then passed else if string_starts_with s mode_tag_prefix then found else passed

  -- passCommand, with the tags of the match if there is one.
  unfoldable pub pass_command : List (Entry M) → Option (List String) → Dispatch M.Self
  unfolding pass_tags
  pass_command es none = nobody
  pass_command es (some tags) = pass_tags es false [] tags
