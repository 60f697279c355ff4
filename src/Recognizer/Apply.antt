-- ===== src/Recognizer/Apply.antt =====
-- applyUpdates of src/sphinx/SphinxService.cpp, for fewer than 2 ^ 16 decoders.
use buckey.Common.{
  ℕ, zero, suc, ◌+◌, Bool, true, false, not, Option, some, List, [], ◌∷◌, ◌++◌, ◌==◌, if◌then◌else◌,
  length, get_elem?, set, drop,
}
use buckey.Decoder.{PocketSphinx, Decoder, ◌>>=◌, reload_decoder, start_utterance, is_started}
use buckey.Recognizer.{Recognizer, each_decoder}

abbrev pub mem : ℕ → List ℕ → Bool
mem i [] = false
mem i (x ∷ xs) = if i == x then true else mem i xs

-- The array decodersDone: what was written, and behind it what was there, for it is not initialised.
pub record Progress (L : PocketSphinx) : Type 0 where
  pub decoders : List (Decoder L)
  pub current : ℕ
  pub decoders_done : List ℕ
  pub junk : List ℕ

abbrev pub first_done : ℕ → List ℕ → ℕ
first_done c [] = c
first_done c (x ∷ xs) = x

-- The index that the first turn selects, if there is a decoder.
abbrev pub first_index {ℓ} : {A : Type ℓ} → ℕ → List A → ℕ
first_index c [] = c
first_index c (x ∷ xs) = 0

module _ {L : PocketSphinx} where
  -- reloadDecoder and startUtterance.
  unfoldable pub renew : Decoder L → Option (Decoder L)
  renew d = start_utterance (reload_decoder d)

  unfoldable pub renew_at : ℕ → Progress L → Option (Progress L)
  renew_at i p = do
    d ← get_elem? p.decoders i
    d' ← renew d
    some (record p {
      decoders = set p.decoders i d';
      decoders_done = p.decoders_done ++ i ∷ [];
      junk = drop 1 p.junk;
    })

  -- The turn of one index; `in_utterance` is the service's flag.
  unfoldable pub turn : Bool → ℕ → Progress L → Option (Progress L)
  turn in_utterance i p =
      let renewed = renew_at i p in
      if mem i (p.decoders_done ++ p.junk)
      then some p
      else if i == p.current
      then (if in_utterance
          then some p
          else some (record p { current = first_done p.current p.decoders_done }))
      else (do d ← get_elem? p.decoders i; if is_started d.state then renewed else some p)

  unfoldable pub turns : Bool → (n i : ℕ) → Progress L → Option (Progress L)
  turns in_utterance zero i p = some p
  turns in_utterance (suc n) i p = do p' ← turn in_utterance i p; turns in_utterance n (i + 1) p'

  -- The loop on fuel: `some (p, false)` is a loop that has not ended.
  unfoldable pub rounds : Bool → ℕ → Progress L → Option (Progress L × Bool)
  rounds in_utterance zero p = some (p, length p.decoders_done == length p.decoders)
  rounds in_utterance (suc fuel) p =
      let again = (do
        p' ← turns in_utterance (length p.decoders) 0 p
        rounds in_utterance fuel p') in
      if length p.decoders_done == length p.decoders then some (p, true) else again

  -- Not recognizing: all decoders in their order.
  unfoldable pub renew_all : Recognizer L → Option (Recognizer L)
  unfolding each_decoder
  renew_all r = do
    ds ← each_decoder renew r.decoders
    some (record r { decoders = ds; current = first_index r.current ds })

  -- The call on fuel and with what the uninitialised array holds. It does not end while another holds the
  -- lock, which it takes and gives back.
  unfoldable pub apply_updates :
      (fuel : ℕ) (junk : List ℕ) → Recognizer L → Option (Recognizer L × Bool)
  apply_updates fuel junk r =
      let recognizing = (do
        (p, ended) ←
            rounds r.in_utterance fuel (record {
              decoders = r.decoders;
              current = r.current;
              decoders_done = [];
              junk = junk;
            })
        some (
          record r { decoders = p.decoders; current = p.current; update_locked = not ended },
          ended,
        )) in
      if r.update_locked
      then some (r, false)
      else if r.recognizing
      then recognizing
      else (do r' ← renew_all r; some (r', true))
