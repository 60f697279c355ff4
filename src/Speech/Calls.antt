-- ===== src/Speech/Calls.antt =====
-- The calls of src/tts/MimicTTSService.cpp in any order, but for start, and for
-- speakPreparedSpeech, which does not look at the state: each with its arguments, and speak with the
-- answers of the mixer. What is said is read from the history.
use buckey.Common.{
  ℕ, ◌+◌, ◌-◌, ◌≡◌, refl, ap, ◌∙◌, Bool, Option, none, some, List, [], ◌∷◌, ◌++◌, arith, ◌==◌,
  if◌then◌else◌, length, get_elem?, length-append, if_holds,
}
use buckey.Registry.{ReplyType}
use buckey.Speech.{
  Speaker, prepare_speech, prepare_list, speak, async_speak, stop_speaking, stop, handle_outputs,
}

-- lastSaid and wordsSaidAt; a read behind the end is undefined, `none`.
unfoldable pub words_said_at : ℕ → Speaker → Option (List ℕ)
words_said_at index s = get_elem? s.history index

unfoldable pub last_said : Speaker → Option (List ℕ)
unfolding words_said_at
last_said s = let size = length s.history in if size == 0 then none else words_said_at (size - 1) s

get_elem?_last : (xs : List (List ℕ)) (x : List ℕ) → get_elem? (xs ++ x ∷ []) (length xs) ≡ some x
get_elem?_last [] x = refl
get_elem?_last (y ∷ xs) x = get_elem?_last xs x

-- Behind words that are pushed on the history, they are what was said last.
pub last_said_lem :
    (s : Speaker) (past : List (List ℕ)) (words : List ℕ)
    → s.history ≡ past ++ words ∷ []
    → last_said s ≡ some words
unfolding last_said words_said_at
last_said_lem s past words h =
    let size : length s.history ≡ length past + 1 = ap length h ∙ length-append past (words ∷ []) in
    let before : length s.history - 1 ≡ length past = omega arith in
    let last : get_elem? s.history (length s.history - 1) ≡ some words =
      ap (λ xs. get_elem? xs (length s.history - 1)) h
      ∙ ap (λ n. get_elem? (past ++ words ∷ []) n) before
      ∙ get_elem?_last past words in
    if_holds (λ o. o ≡ some words) (length s.history == 0) none
      (get_elem? s.history (length s.history - 1)) (λ e. absurd (ground (arith, e))) (λ _. last)

pub data Call : Type 0 where
  prepares : List ℕ → Call
  prepares_list : List (List ℕ) → Call
  speaks : (first_channel second_channel : Bool) → List ℕ → Call
  requests : List ℕ → Call
  does_async_request : (first_channel second_channel : Bool) → List ℕ → Call
  stops_speaking : Call
  stops : Call
  outputs : List ℕ → ReplyType → Call

-- doAsyncRequest calls speak with the words of the request.
unfoldable pub perform : Call → Speaker → Option Speaker
unfolding prepare_speech prepare_list speak async_speak stop_speaking stop handle_outputs
perform (prepares words) s = some (prepare_speech words s)
perform (prepares_list inputs) s = some (prepare_list inputs s)
perform (speaks a b words) s = speak a b words s
perform (requests words) s = some (async_speak words s)
perform (does_async_request a b words) s = speak a b words s
perform stops_speaking s = stop_speaking s
perform stops s = stop s
perform (outputs message t) s = some (handle_outputs message t s)

unfoldable pub run_calls : List Call → Speaker → Option Speaker
unfolding perform
run_calls [] s = some s
run_calls (c ∷ calls) s = elim (perform c s) [ none ↦ none | some t ↦ run_calls calls t ]
