-- ===== src/Speech/Playing.antt =====
-- What speak leaves behind.
use buckey.Common.{ℕ, ◌≡◌, Bool, true, false, none, some, List, [], ◌∷◌, ◌++◌, append_assoc, arith}
use buckey.Registry.{running}
use buckey.Speech.{
  Speaker, speech_start, speech_end, find_prepared, play, speak_prepared_speech, speak,
  stop_speaking, stop,
}

-- A running service that is not asked to stop and is not speaking speaks, if the mixer has a
-- channel: the words are the last of the history, exactly one start and one end of speech are
-- triggered, and nobody is speaking afterwards, so that the next words and stopSpeaking do not
-- wait.
pub speak-says :
    (words : List ℕ) (s : Speaker)
    → s.stop_request ≡ false
    → s.state ≡ running
    → s.currently_speaking ≡ false
    → speak true true words s
      ≡ some (record s {
        history = s.history ++ words ∷ [];
        currently_speaking = false;
        events = s.events ++ (speech_start ∷ speech_end ∷ []);
      })
unfolding speak speak_prepared_speech play
speak-says words s h r c =
    ground (arith, append_assoc s.events (speech_start ∷ []) (speech_end ∷ []))

-- If the mixer has no channel for words that are not prepared, a running service that is not asked
-- to stop and is not speaking returns from speak and still counts as speaking: from then on every
-- call of speak waits without end, and so do stopSpeaking and stop.
pub speak-wedges :
    (first : Bool) (words : List ℕ) (s : Speaker)
    → s.stop_request ≡ false
    → s.state ≡ running
    → s.currently_speaking ≡ false
    → find_prepared words s.prepared_audio ≡ none
    → (t : Speaker) × (speak first false words s ≡ some t)
      × ((a b : Bool) (later : List ℕ) → speak a b later t ≡ none)
      × (stop_speaking t ≡ none)
      × (stop t ≡ none)
unfolding speak speak_prepared_speech play stop_speaking stop
speak-wedges first words s h r c n = (
  record s {
    history = s.history ++ words ∷ [];
    currently_speaking = true;
    events = s.events ++ speech_start ∷ [];
  },
  ground arith,
  λ a b later. ground arith,
  ground arith,
  ground arith,
)
