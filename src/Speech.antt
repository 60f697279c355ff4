-- ===== src/Speech.antt =====
-- src/tts/MimicTTSService.cpp: the speech that is prepared as audio files, and what is said. Words are
-- bytes, and an audio file stands for the number that it is named after (0.wav, 1.wav, ...). The
-- synthesiser and the mixer are not modelled but for what speak asks of them: whether the mixer has a
-- channel for a sample. One thread speaks at a time, so a wait for the end of speech that nobody ends
-- does not return, `none`.
pub mod Prepared
pub mod Playing
pub mod Calls
pub mod Silence
mod Tests
use buckey.Common.{
  ℕ, zero, suc, ◌+◌, ◌-◌, ◌*◌, ◌/◌, ◌%◌, ◌^◌, ◌≤◌, ◌<◌, ◌≡◌, refl, sym, ap, ◌∙◌, subst, ◌≢◌, ◌↔◌,
  ◌⊎◌, inl, inr, Bool, true, false, not, ◌&&◌, ◌||◌, Option, none, some, List, [], ◌∷◌, ◌++◌, map,
  append-nil, append_assoc, arith, ltb, leb, ◌==◌, if◌then◌else◌, Bool-cases, Option-cases, length,
  get_elem?, set, take, drop, concat, length-append, drop-length-append, All, All-append, String,
  str_eq, str_eq_iff, str_eq_refl,
}
use buckey.Socket.Client.{same_text}
use buckey.Registry.{
  ServiceState, running, starting, stopped, error, service_not_registered, ReplyType, conversation,
  status, prompt,
}

-- The events that the service triggers.
pub data SpeechEvent : Type 0 where
  speech_prepared : List ℕ → ℕ → SpeechEvent
  speech_start speech_end : SpeechEvent
  async_speech_request : List ℕ → SpeechEvent

pub record Speaker : Type 0 where
  pub prepared_audio : List (List ℕ × ℕ)
  pub last_audio_index : ℕ
  pub prepared_audio_list : List ℕ
  pub history : List (List ℕ)
  pub currently_speaking : Bool
  pub stop_request : Bool
  pub state : ServiceState
  pub listening : Bool
  pub events : List SpeechEvent

abbrev pub newline : ℕ
newline = 10

-- '#'
abbrev pub comment_sign : ℕ
comment_sign = 35

abbrev pub line_limit : ℕ
line_limit = 499

-- An unsigned int that counts.
abbrev pub next_index : ℕ → ℕ
next_index i = (i + 1) % 2 ^ 32

-- tolower of the C locale.
abbrev pub tolower : ℕ → ℕ
tolower c = if leb 65 c && leb c 90 then c + 32 else c

abbrev pub lower : List ℕ → List ℕ
lower = map tolower

-- The string in a buffer ends at the first NUL.
unfoldable pub c_str : List ℕ → List ℕ
c_str [] = []
c_str (c ∷ cs) = let rest = c ∷ c_str cs in if c == 0 then [] else rest

abbrev pub is_comment : List ℕ → Bool
is_comment [] = false
is_comment (c ∷ cs) = c == comment_sign

-- The loop over `getline(buff, 500)`, with the index and the bytes of the line read so far. It ends at
-- the end of the file, and at a line of more than 499 bytes; a last line without a newline counts.
unfoldable pub load_lines : ℕ → List ℕ → List ℕ → List (List ℕ × ℕ)
unfolding c_str
load_lines index line [] =
    if length line == 0 then [] else if is_comment line then [] else (c_str line, index) ∷ []
load_lines index line (c ∷ cs) =
    let skipped = load_lines index [] cs in
    let taken = (c_str line, index) ∷ load_lines (next_index index) [] cs in
    let longer = load_lines index (line ++ c ∷ []) cs in
    if c == newline
    then (if is_comment line then skipped else taken)
    else if length line == line_limit
    then []
    else longer

unfoldable pub load_prepared_audio_list : Speaker → Speaker
unfolding load_lines
load_prepared_audio_list s =
    let loaded = load_lines 0 [] s.prepared_audio_list in
    record s {
      prepared_audio = s.prepared_audio ++ loaded;
      last_audio_index = length loaded % 2 ^ 32;
    }

-- The loop for the words among the prepared ones.
unfoldable pub find_prepared : List ℕ → List (List ℕ × ℕ) → Option ℕ
unfolding same_text
find_prepared words [] = none
find_prepared words ((first, file) ∷ audio) =
    let rest = find_prepared words audio in if same_text first words then some file else rest

unfoldable pub prepare_speech : List ℕ → Speaker → Speaker
unfolding find_prepared
prepare_speech input s =
    let words = lower input in
    let line = words ++ newline ∷ [] in
    elim (find_prepared words s.prepared_audio) [
      | some file ↦ s
      | none ↦ record s {
        prepared_audio = s.prepared_audio ++ (line, s.last_audio_index) ∷ [];
        last_audio_index = next_index s.last_audio_index;
        prepared_audio_list = s.prepared_audio_list ++ line;
        events = s.events ++ speech_prepared line s.last_audio_index ∷ [];
      }
    ]

-- prepareList returns at the first words that are prepared already, and writes no newline.
unfoldable pub prepare_list : List (List ℕ) → Speaker → Speaker
unfolding find_prepared
prepare_list [] s = s
prepare_list (input ∷ inputs) s =
    let words = lower input in
    let rest = prepare_list inputs (record s {
      prepared_audio = s.prepared_audio ++ (words, s.last_audio_index) ∷ [];
      last_audio_index = next_index s.last_audio_index;
      prepared_audio_list = s.prepared_audio_list ++ words;
    }) in
    elim (find_prepared words s.prepared_audio) [ some file ↦ s | none ↦ rest ]

-- From the wait for the end of other speech to the sample's end: does not return if there is other
-- speech; false if the mixer has no channel.
unfoldable pub play : Bool → Speaker → Option (Speaker × Bool)
play has_channel s =
    let begun = record s { currently_speaking = true; events = s.events ++ speech_start ∷ [] } in
    let ended = record begun {
      currently_speaking = false;
      events = begun.events ++ speech_end ∷ [];
    } in
    if s.currently_speaking
    then none
    else if has_channel
    then some (ended, true)
    else some (begun, false)

unfoldable pub speak_prepared_speech : Bool → List ℕ → Speaker → Option (Speaker × Bool)
unfolding find_prepared play
speak_prepared_speech has_channel words s = elim (find_prepared words s.prepared_audio) [
  | none ↦ some (s, false)
  | some file ↦ play has_channel s
]

abbrev pub is_running : ServiceState → Bool
is_running running = true
is_running v = false

-- What speak does with what speakPreparedSpeech returned.
speak_unprepared : Bool → Option (Speaker × Bool) → Option Speaker
unfolding play
speak_unprepared has_channel none = none
speak_unprepared has_channel (some (s, true)) = some s
speak_unprepared has_channel (some (s, false)) = elim (play has_channel s) [
  | none ↦ none
  | some r ↦ some r.0
]

-- speak, with the answers of the mixer for the prepared sample and for the synthesised one.
unfoldable pub speak : Bool → Bool → List ℕ → Speaker → Option Speaker
unfolding speak_prepared_speech speak_unprepared
speak first_channel second_channel words s =
    if not s.stop_request && is_running s.state
    then speak_unprepared second_channel
        (speak_prepared_speech first_channel words (record s { history = s.history ++ words ∷ [] }))
    else some s

unfoldable pub async_speak : List ℕ → Speaker → Speaker
async_speak words s =
    if not s.stop_request && is_running s.state
    then record s { events = s.events ++ async_speech_request words ∷ [] }
    else s

unfoldable pub stop_speaking : Speaker → Option Speaker
stop_speaking s = if s.currently_speaking then none else some (record s { stop_request = true })

abbrev pub can_start : ServiceState → Bool
can_start running = false
can_start starting = false
can_start v = true

-- start, but for the library's own set-up.
unfoldable pub start : Speaker → Speaker
unfolding load_prepared_audio_list
start s =
    if can_start s.state
    then record (load_prepared_audio_list (record s { state = starting })) {
      stop_request = false;
      state = running;
      listening = true;
    }
    else s

-- stop of a running service; one that is starting is waited for, which nobody ends here.
unfoldable pub stop : Speaker → Option Speaker
unfolding stop_speaking
stop s = elim s.state [
  | running ↦ elim (stop_speaking s) [
    | none ↦ none
    | some t ↦ some (record t { state = stopped; listening = false })
  ]
  | starting ↦ none
  | _ ↦ some s
]

-- The listener to ONOUTPUT.
unfoldable pub handle_outputs : List ℕ → ReplyType → Speaker → Speaker
unfolding async_speak
handle_outputs message conversation s = async_speak message s
handle_outputs message status s = async_speak message s
handle_outputs message prompt s = async_speak message s
handle_outputs message t s = s
