-- ===== src/Recognizer/Hypotheses.antt =====
-- endAndGetHypothesis of src/sphinx/SphinxService.cpp as a thread of its own, which runs at once.
use buckey.Common.{ℕ, zero, suc, Option, none, some, List, [], ◌∷◌, ◌++◌, get_elem?, set, String}
use buckey.Decoder.{PocketSphinx, end_and_get_hypothesis, ◌>>=◌}
use buckey.Recognizer.{Recognizer, trigger, on_hypothesis}

module _ {ℓ} {A : Type ℓ} where
  abbrev pub remove : List A → ℕ → List A
  remove [] i = []
  remove (x ∷ xs) zero = xs
  remove (x ∷ xs) (suc i) = x ∷ remove xs i

module _ {L : PocketSphinx} where
  -- What was heard is announced and passed on as an input of the program.
  unfoldable pub pass_hypothesis : Option String → Recognizer L → Recognizer L
  pass_hypothesis none r = r
  pass_hypothesis (some hyp) r = record (trigger (on_hypothesis hyp) r) {
    inputs = r.inputs ++ hyp ∷ [];
  }

  unfoldable pub finish_at : (k i : ℕ) → Recognizer L → Option (Recognizer L)
  unfolding pass_hypothesis
  finish_at k i r = do
    d ← get_elem? r.decoders i
    heard ← end_and_get_hypothesis d
    some (
        pass_hypothesis heard.1 (record r {
          decoders = set r.decoders i heard.0;
          hypothesis_threads = remove r.hypothesis_threads k;
        }))

  -- The hypothesis thread with number k runs and ends.
  unfoldable pub finish_thread : ℕ → Recognizer L → Option (Recognizer L)
  unfolding finish_at
  finish_thread k r = elim (get_elem? r.hypothesis_threads k) [
    | none ↦ some r
    | some i ↦ finish_at k i r
  ]
