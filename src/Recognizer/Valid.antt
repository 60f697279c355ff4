-- ===== src/Recognizer/Valid.antt =====
-- What holds of a recognizer between two steps, and that the parts of the loops keep it.
use buckey.Common.{
  ℕ, zero, suc, ◌<◌, ◌≡◌, Bool, true, false, not, ◌&&◌, Option, none, some, List, [], ◌∷◌, arith,
  length, get_elem?, All,
}
use buckey.Decoder.{
  PocketSphinx, Decoder, ◌>>=◌, start_utterance, end_utterance, is_started, process_raw_audio,
  end_and_get_hypothesis, get_hypothesis, reload_decoder,
}
use buckey.Decoder.Machine.{needs_ps, Returns}
use buckey.Recognizer.{is_error, is_not_initialized}
use buckey.Recognizer.Apply.{renew}

abbrev is_none {ℓ} : {A : Type ℓ} → Option A → Bool
is_none none = true
is_none (some a) = false

module _ {A B : Type 0} (P : A → Type 0) (Q : B → Type 0) where
  pub Returns-bind :
      (o : Option A) (f : A → Option B)
      → Returns P o
      → ((a : A) → P a → Returns Q (f a))
      → Returns Q (o >>= f)
  Returns-bind none f h k = absurd h
  Returns-bind (some a) f h k = k a h

module _ {A : Type 0} (P Q : A → Type 0) where
  pub Returns-both : (o : Option A) → Returns P o → Returns Q o → Returns (λ a. P a × Q a) o
  Returns-both none h k = h
  Returns-both (some a) h k = (h, k)

  pub Returns-weaken : ((a : A) → P a → Q a) → (o : Option A) → Returns P o → Returns Q o
  Returns-weaken f none h = h
  Returns-weaken f (some a) h = f a h

module _ {A : Type 0} (P : A → Type 0) where
  pub Returns-get_elem? :
      (xs : List A) (i : ℕ) → All P xs → i < length xs → Returns P (get_elem? xs i)
  Returns-get_elem? [] i h l = absurd (omega arith)
  Returns-get_elem? (x ∷ xs) zero h l = h.0
  Returns-get_elem? (x ∷ xs) (suc i) h l = Returns-get_elem? xs i h.1 (omega arith)

module _ {L : PocketSphinx} where
  -- A decoder that has been initialised: it has a decoder of the library or is in error, and it is
  -- ready only in an utterance.
  pub record IsLive (d : Decoder L) : Type 0 where
    pub alive : (needs_ps d.state && is_none d.ps) ≡ false
    pub initialised : is_not_initialized d.state ≡ false
    pub ready_started : (d.ready && not (is_started d.state)) ≡ false

  pub start_utterance-IsLive : (d : Decoder L) → IsLive d → Returns IsLive (start_utterance d)
  unfolding start_utterance
  start_utterance-IsLive d v = ground arith

  pub end_utterance-IsLive : (d : Decoder L) → IsLive d → Returns IsLive (end_utterance d)
  unfolding end_utterance
  end_utterance-IsLive d v = ground arith

  pub not_ready-IsLive : (d : Decoder L) → IsLive d → IsLive (record d { ready = false })
  not_ready-IsLive d v = ground arith

  get_hypothesis-IsLive :
      (d : Decoder L)
      → IsLive d
      → is_started d.state ≡ false
      → Returns (λ r. IsLive r.0) (get_hypothesis d)
  unfolding get_hypothesis
  get_hypothesis-IsLive d v e = ground arith

  ended_not_started :
      (d : Decoder L)
      → IsLive d
      → Returns (λ d'. is_started d'.state ≡ false × IsLive d') (end_utterance d)
  unfolding end_utterance
  ended_not_started d v = ground arith

  pub end_and_get_hypothesis-IsLive :
      (d : Decoder L) → IsLive d → Returns (λ r. IsLive r.0) (end_and_get_hypothesis d)
  unfolding end_and_get_hypothesis
  end_and_get_hypothesis-IsLive d v =
      Returns-bind _ (λ r. IsLive r.0) (end_utterance d) _ (ended_not_started d v)
        (λ e h.
          Returns-bind _ (λ r. IsLive r.0) (get_hypothesis e) _ (get_hypothesis-IsLive e h.1 h.0)
            (λ g w.
              Returns-bind _ (λ r. IsLive r.0) (start_utterance g.0) _
                (start_utterance-IsLive g.0 w) (λ s x. x)))

  pub renew-IsLive : (d : Decoder L) → Returns IsLive (renew d)
  unfolding renew start_utterance reload_decoder
  renew-IsLive d = ground arith

  pub process_raw_audio-IsLive :
      (fs : List ℕ) (d : Decoder L)
      → IsLive d
      → is_error d.state ≡ false
      → Returns (λ r. IsLive r.0) (process_raw_audio fs d)
  unfolding process_raw_audio
  process_raw_audio-IsLive fs d v e = ground arith
