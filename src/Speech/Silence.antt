-- ===== src/Speech/Silence.antt =====
-- A service that is stopped says nothing, whatever is called before it is started again.
use buckey.Common.{
  ℕ, ◌≡◌, refl, sym, ap, ◌∙◌, subst, Bool, true, false, not, ◌&&◌, Option, none, some, List, [],
  ◌∷◌, ◌++◌, arith, if◌then◌else◌,
}
use buckey.Registry.{running, stopped, conversation, status, prompt, console, alert, critical}
use buckey.Speech.{
  Speaker, SpeechEvent, speech_prepared, speech_start, speech_end, async_speech_request, newline,
  lower, next_index, is_running, find_prepared, prepare_speech, prepare_list, play,
  speak_prepared_speech, speak, async_speak, stop_speaking, stop, handle_outputs,
}
use buckey.Speech.Calls.{
  Call, prepares, prepares_list, speaks, requests, does_async_request, stops_speaking, stops,
  outputs, perform, run_calls,
}

-- The events about what is said, not what is prepared.
abbrev pub said : List SpeechEvent → List SpeechEvent
said [] = []
said (speech_prepared words file ∷ es) = said es
said (speech_start ∷ es) = speech_start ∷ said es
said (speech_end ∷ es) = speech_end ∷ said es
said (async_speech_request words ∷ es) = async_speech_request words ∷ said es

said-prepared :
    (es : List SpeechEvent) (words : List ℕ) (file : ℕ)
    → said (es ++ speech_prepared words file ∷ []) ≡ said es
said-prepared [] words file = refl
said-prepared (speech_prepared w f ∷ es) words file = said-prepared es words file
said-prepared (speech_start ∷ es) words file =
    ap (λ t. speech_start ∷ t) (said-prepared es words file)
said-prepared (speech_end ∷ es) words file = ap (λ t. speech_end ∷ t) (said-prepared es words file)
said-prepared (async_speech_request w ∷ es) words file =
    ap (λ t. async_speech_request w ∷ t) (said-prepared es words file)

-- The service is stopped and nobody is speaking; and it has said what s has.
pub record IsSilent (s t : Speaker) : Type 0 where
  pub stopping : t.stop_request ≡ true
  pub down : t.state ≡ stopped
  pub free : t.currently_speaking ≡ false
  pub same_history : t.history ≡ s.history
  pub same_said : said t.events ≡ said s.events

Silenced : Speaker → Option Speaker → Type 0
Silenced s o = (t : Speaker) × (o ≡ some t) × IsSilent s t

-- What is prepared and what is triggered about it is no matter.
keep :
    {s t : Speaker} {audio : List (List ℕ × ℕ)} {index : ℕ} {list : List ℕ} {es : List SpeechEvent}
    → said es ≡ said t.events
    → IsSilent s t
    → IsSilent s (record t {
      prepared_audio = audio;
      last_audio_index = index;
      prepared_audio_list = list;
      events = es;
    })
keep e q = record {
  stopping = q.stopping;
  down = q.down;
  free = q.free;
  same_history = q.same_history;
  same_said = e ∙ q.same_said;
}

prepare_speech-IsSilent :
    (words : List ℕ) (s t : Speaker) → IsSilent s t → IsSilent s (prepare_speech words t)
unfolding prepare_speech
prepare_speech-IsSilent words s t q =
    let line = lower words ++ newline ∷ [] in
    let made = record t {
      prepared_audio = t.prepared_audio ++ (line, t.last_audio_index) ∷ [];
      last_audio_index = next_index t.last_audio_index;
      prepared_audio_list = t.prepared_audio_list ++ line;
      events = t.events ++ speech_prepared line t.last_audio_index ∷ [];
    } in
    elim (find_prepared (lower words) t.prepared_audio)
      as (λ o. IsSilent s (elim o as (λ _. Speaker) [ some file ↦ t | none ↦ made ])) [
        | some file ↦ q
        | none ↦ keep (said-prepared t.events line t.last_audio_index) q
      ]

prepare_list-IsSilent :
    (inputs : List (List ℕ)) (s t : Speaker) → IsSilent s t → IsSilent s (prepare_list inputs t)
unfolding prepare_list
prepare_list-IsSilent [] s t q = q
prepare_list-IsSilent (input ∷ inputs) s t q =
    let more = record t {
      prepared_audio = t.prepared_audio ++ (lower input, t.last_audio_index) ∷ [];
      last_audio_index = next_index t.last_audio_index;
      prepared_audio_list = t.prepared_audio_list ++ lower input;
    } in
    let later = prepare_list-IsSilent inputs s more (keep refl q) in
    elim (find_prepared (lower input) t.prepared_audio)
      as (λ o.
        IsSilent s (elim o as (λ _. Speaker) [ some file ↦ t | none ↦ prepare_list inputs more ])) [
          | some file ↦ q
          | none ↦ later
        ]

speak-IsSilent :
    (a b : Bool) (words : List ℕ) (s t : Speaker) → IsSilent s t → Silenced s (speak a b words t)
unfolding Silenced speak
speak-IsSilent a b words s t q = (t, rw q.stopping refl, q)

async_speak-IsSilent :
    (words : List ℕ) (s t : Speaker) → IsSilent s t → IsSilent s (async_speak words t)
unfolding async_speak
async_speak-IsSilent words s t q =
    let asked = record t { events = t.events ++ async_speech_request words ∷ [] } in
    subst (λ u. IsSilent s u)
      (sym (ap (λ b. if not b && is_running t.state then asked else t) q.stopping)) q

perform-IsSilent : (c : Call) (s t : Speaker) → IsSilent s t → Silenced s (perform c t)
unfolding Silenced perform stop_speaking stop handle_outputs
perform-IsSilent (prepares words) s t q =
    (prepare_speech words t, refl, prepare_speech-IsSilent words s t q)
perform-IsSilent (prepares_list inputs) s t q =
    (prepare_list inputs t, refl, prepare_list-IsSilent inputs s t q)
perform-IsSilent (speaks a b words) s t q = speak-IsSilent a b words s t q
perform-IsSilent (requests words) s t q =
    (async_speak words t, refl, async_speak-IsSilent words s t q)
perform-IsSilent (does_async_request a b words) s t q = speak-IsSilent a b words s t q
perform-IsSilent stops_speaking s t q = (
  record t { stop_request = true },
  rw q.free refl,
  record {
    stopping = refl;
    down = q.down;
    free = q.free;
    same_history = q.same_history;
    same_said = q.same_said;
  },
)
perform-IsSilent stops s t q = (t, rw q.down refl, q)
perform-IsSilent (outputs message conversation) s t q =
    (async_speak message t, refl, async_speak-IsSilent message s t q)
perform-IsSilent (outputs message status) s t q =
    (async_speak message t, refl, async_speak-IsSilent message s t q)
perform-IsSilent (outputs message prompt) s t q =
    (async_speak message t, refl, async_speak-IsSilent message s t q)
perform-IsSilent (outputs message console) s t q = (t, refl, q)
perform-IsSilent (outputs message alert) s t q = (t, refl, q)
perform-IsSilent (outputs message critical) s t q = (t, refl, q)

run_calls-IsSilent :
    (calls : List Call) (s t : Speaker) → IsSilent s t → Silenced s (run_calls calls t)
unfolding Silenced run_calls
run_calls-IsSilent [] s t q = (t, refl, q)
run_calls-IsSilent (c ∷ calls) s t q =
    let (u, e, r) = perform-IsSilent c s t q in
    let (v, f, z) = run_calls-IsSilent calls s u r in
    (
      v,
      ap (λ o. elim o as (λ _. Option Speaker) [ none ↦ none | some w ↦ run_calls calls w ]) e ∙ f,
      z,
    )

-- What speakPreparedSpeech does for words that are prepared.
abbrev pub StillSpeaks : Speaker → Type 0
StillSpeaks t =
    (words : List ℕ) (file : ℕ)
    → find_prepared words t.prepared_audio ≡ some file
    → speak_prepared_speech true words t
      ≡ some (
        record t {
          currently_speaking = false;
          events = (t.events ++ speech_start ∷ []) ++ speech_end ∷ [];
        },
        true,
      )

still_speaks : (t : Speaker) → t.currently_speaking ≡ false → StillSpeaks t
unfolding speak_prepared_speech play
still_speaks t f words file h = ground (arith, h)

-- Once a running service that is not speaking is stopped, every call but start and
-- speakPreparedSpeech returns, in whatever order and with whatever answers of the mixer: nothing is
-- said or requested, the history stays, also for a request that was made before the stop and for
-- output, and the service stays stopped. speakPreparedSpeech alone does not look at the state: it still
-- says words that are prepared, if the mixer has a channel.
pub run_calls-stop :
    (calls : List Call) (s : Speaker)
    → s.state ≡ running
    → s.currently_speaking ≡ false
    → (t : Speaker) × (run_calls (stops ∷ calls) s ≡ some t) × IsSilent s t × StillSpeaks t
unfolding Silenced run_calls perform stop stop_speaking
run_calls-stop calls s r f =
    let t = record s { stop_request = true; state = stopped; listening = false } in
    let down : stop s ≡ some t = ground arith in
    let (u, e, q) =
      run_calls-IsSilent calls s t (record {
        stopping = refl;
        down = refl;
        free = f;
        same_history = refl;
        same_said = refl;
      }) in
    (
      u,
      ap (λ o. elim o as (λ _. Option Speaker) [ none ↦ none | some w ↦ run_calls calls w ]) down
          ∙ e,
      q,
      still_speaks u q.free,
    )
