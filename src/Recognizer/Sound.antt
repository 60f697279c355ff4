-- ===== src/Recognizer/Sound.antt =====
-- What holds of a recognizer between two steps of its threads, and that the parts of the loops in
-- src/sphinx/SphinxService.cpp keep it.
use buckey.Common.{
  ℕ, zero, suc, ◌+◌, ◌≤◌, ◌<◌, ◌≡◌, subst, Bool, true, false, not, ◌&&◌, Option, some, List, [],
  ◌∷◌, ◌++◌, arith, if◌then◌else◌, length, get_elem?, set, All, All-append, length-set, All-set,
  if_holds,
}
use buckey.Decoder.{PocketSphinx, Decoder, process_raw_audio}
use buckey.Decoder.Machine.{Returns}
use buckey.Recognizer.{
  Recognizer, SpeechEvent, is_error, trigger, on_decoder, announce_speech, announce_end,
  process_frames, hand_over, refresh, on_start_speech, on_end_speech,
}
use buckey.Recognizer.Speech.{
  IsSpoken, is_neutral, neutral-IsSpoken, start-IsSpoken, end-IsSpoken, silent-IsSpoken,
  killed_flag-IsSpoken,
}
use buckey.Recognizer.Valid.{
  IsLive, Returns-both, Returns-bind, Returns-get_elem?, not_ready-IsLive, process_raw_audio-IsLive,
}

module _ {L : PocketSphinx} where
  -- The current decoder is one of the vector, as are the first max_decoders and those of the hypothesis
  -- threads; all decoders have been initialised; and speech is announced in order.
  pub record Sound (ds : List (Decoder L)) (c max : ℕ) (threads : List ℕ) (es : List SpeechEvent)
      (in_utterance killed : Bool) : Type 0 where
    pub in_range : c < length ds
    pub max_in_range : max ≤ length ds
    pub live : All IsLive ds
    pub threads_in_range : All (λ i. i < length ds) threads
    pub spoken : IsSpoken es in_utterance killed

  abbrev pub IsSound : Recognizer L → Type 0
  IsSound r =
      Sound r.decoders r.current r.max_decoders r.hypothesis_threads r.events r.in_utterance
        r.events_killed

  pub trigger-IsSound :
      (e : SpeechEvent) (r : Recognizer L) → is_neutral e ≡ true → IsSound r → IsSound (trigger e r)
  unfolding trigger
  trigger-IsSound e r n v =
      if_holds IsSound r.events_killed r (record r { events = r.events ++ e ∷ [] }) (λ k. v)
        (λ k. record {
          in_range = v.in_range;
          max_in_range = v.max_in_range;
          live = v.live;
          threads_in_range = v.threads_in_range;
          spoken = neutral-IsSpoken e n v.spoken;
        })

  -- The vector after a call on one decoder that keeps it initialised.
  pub set-IsSound :
      (i : ℕ) (d : Decoder L) (r : Recognizer L)
      → IsLive d
      → IsSound r
      → IsSound (record r { decoders = set r.decoders i d })
  set-IsSound i d r h v = record {
    in_range = omega (arith, length-set r.decoders i d, v.in_range);
    max_in_range = omega (arith, length-set r.decoders i d, v.max_in_range);
    live = All-set IsLive r.decoders i d v.live h;
    threads_in_range = rw (length-set r.decoders i d) v.threads_in_range;
    spoken = v.spoken;
  }

  pub on_decoder-IsSound :
      (i : ℕ) (f : Decoder L → Option (Decoder L)) (r : Recognizer L)
      → i < length r.decoders
      → ((d : Decoder L) → IsLive d → Returns IsLive (f d))
      → IsSound r
      → Returns IsSound (on_decoder i f r)
  unfolding on_decoder
  on_decoder-IsSound i f r h k v =
      Returns-bind IsLive IsSound (get_elem? r.decoders i) _
        (Returns-get_elem? IsLive r.decoders i v.live h)
        (λ d l. Returns-bind IsLive IsSound (f d) _ (k d l) (λ d' l'. set-IsSound i d' r l' v))

  started-IsSound :
      (r : Recognizer L)
      → IsSound r
      → IsSound (record (trigger on_start_speech r) { in_utterance = true })
  unfolding trigger
  started-IsSound r v =
      if_holds (λ s. IsSound (record s { in_utterance = true })) r.events_killed r
        (record r { events = r.events ++ on_start_speech ∷ [] })
        (λ k. record {
          in_range = v.in_range;
          max_in_range = v.max_in_range;
          live = v.live;
          threads_in_range = v.threads_in_range;
          spoken = killed_flag-IsSpoken k true v.spoken;
        })
        (λ k. record {
          in_range = v.in_range;
          max_in_range = v.max_in_range;
          live = v.live;
          threads_in_range = v.threads_in_range;
          spoken = start-IsSpoken v.spoken;
        })

  pub announce_speech-IsSound : (r : Recognizer L) → IsSound r → IsSound (announce_speech r)
  unfolding announce_speech
  announce_speech-IsSound r v =
      if_holds IsSound (r.voice_detected && not r.in_utterance)
        (record (trigger on_start_speech r) { in_utterance = true }) r (λ h. started-IsSound r v)
        (λ h. v)

  pub silent-IsSound : (r : Recognizer L) → IsSound r → IsSound (record r { in_utterance = false })
  silent-IsSound r v = record {
    in_range = v.in_range;
    max_in_range = v.max_in_range;
    live = v.live;
    threads_in_range = v.threads_in_range;
    spoken = silent-IsSpoken v.spoken;
  }

  pub announce_end-IsSound :
      (r : Recognizer L) → r.in_utterance ≡ true → IsSound r → IsSound (announce_end r)
  unfolding announce_end trigger
  announce_end-IsSound r u v =
      if_holds (λ s. IsSound (record s { in_utterance = false })) r.events_killed r
        (record r { events = r.events ++ on_end_speech ∷ [] }) (λ k. silent-IsSound r v)
        (λ k. record {
          in_range = v.in_range;
          max_in_range = v.max_in_range;
          live = v.live;
          threads_in_range = v.threads_in_range;
          spoken = end-IsSpoken (
              subst (λ b. IsSpoken r.events b false) u
                (subst (IsSpoken r.events r.in_utterance) k v.spoken));
        })

  pub process_frames-IsSound :
      (fs : List ℕ) (r : Recognizer L)
      → IsSound r
      → Returns (λ d. is_error d.state ≡ false) (get_elem? r.decoders r.current)
      → Returns IsSound (process_frames fs r)
  unfolding process_frames
  process_frames-IsSound fs r v e =
      Returns-bind (λ d. IsLive d × (is_error d.state ≡ false)) IsSound
        (get_elem? r.decoders r.current) _
        (Returns-both IsLive (λ d. is_error d.state ≡ false) (get_elem? r.decoders r.current)
          (Returns-get_elem? IsLive r.decoders r.current v.live v.in_range) e)
        (λ d l.
          Returns-bind (λ h. IsLive h.0) IsSound (process_raw_audio fs d) _
            (process_raw_audio-IsLive fs d l.0 l.1)
            (λ h l'.
              announce_speech-IsSound
                (record r { decoders = set r.decoders r.current h.0; voice_detected = h.1 })
                (set-IsSound r.current h.0 r l' v)))

  thread-IsSound :
      (r : Recognizer L)
      → IsSound r
      → IsSound (record r { hypothesis_threads = r.hypothesis_threads ++ r.current ∷ [] })
  thread-IsSound r v = record {
    in_range = v.in_range;
    max_in_range = v.max_in_range;
    live = v.live;
    threads_in_range =
        All-append _ r.hypothesis_threads (r.current ∷ []) v.threads_in_range (v.in_range, tt);
    spoken = v.spoken;
  }

  pub hand_over-IsSound : (r : Recognizer L) → IsSound r → Returns IsSound (hand_over r)
  unfolding hand_over
  hand_over-IsSound r v =
      Returns-bind IsSound IsSound (on_decoder r.current (λ d. some (record d { ready = false })) r)
        _
        (on_decoder-IsSound r.current (λ d. some (record d { ready = false })) r v.in_range
          not_ready-IsLive v)
        (λ r' v'. thread-IsSound r' v')

  pub current-IsSound :
      (i : ℕ) (r : Recognizer L)
      → i < length r.decoders
      → IsSound r
      → IsSound (record r { current = i })
  current-IsSound i r h v = record {
    in_range = h;
    max_in_range = v.max_in_range;
    live = v.live;
    threads_in_range = v.threads_in_range;
    spoken = v.spoken;
  }

  pub refresh-IsSound :
      (n i : ℕ) (r : Recognizer L)
      → n + i ≤ length r.decoders
      → IsSound r
      → Returns IsSound (refresh n i r)
  unfolding refresh
  refresh-IsSound zero i r h v = v
  refresh-IsSound (suc n) i r h v =
      Returns-bind IsLive IsSound (get_elem? r.decoders i) _
        (Returns-get_elem? IsLive r.decoders i v.live (omega arith))
        (λ d l.
          refresh-IsSound n (i + 1) (if d.ready then record r { current = i } else r)
            (if_holds (λ s. n + (i + 1) ≤ length s.decoders) d.ready (record r { current = i }) r
              (λ _. omega arith) (λ _. omega arith))
            (if_holds IsSound d.ready (record r { current = i }) r
              (λ _. current-IsSound i r (omega arith) v) (λ _. v)))
