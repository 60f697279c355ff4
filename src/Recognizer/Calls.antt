-- ===== src/Recognizer/Calls.antt =====
-- The hypothesis threads and the calls of src/sphinx/SphinxService.cpp keep a recognizer sound.
use buckey.Common.{
  ℕ, zero, suc, ◌-◌, ◌<◌, ◌≡◌, refl, sym, ap, subst, inl, inr, true, Option, none, some, List, [],
  ◌∷◌, map, arith, Option-cases, length, get_elem?, set, All, All-get_elem?, String,
}
use buckey.Decoder.{
  PocketSphinx, Decoder, ◌>>=◌, is_started, new_decoder, lm, end_and_get_hypothesis,
}
use buckey.Decoder.Machine.{Returns}
use buckey.Recognizer.{Recognizer, on_decoder, on_hypothesis, on_pause, on_resume}
use buckey.Recognizer.Hypotheses.{remove, pass_hypothesis, finish_at, finish_thread}
use buckey.Recognizer.Control.{pause_recognition, resume_recognition}
use buckey.Recognizer.Words.{add_to_current, add_turns, add_word, update_all}
use buckey.Recognizer.Sound.{IsSound, trigger-IsSound, set-IsSound, on_decoder-IsSound}
use buckey.Recognizer.Valid.{IsLive, Returns-bind, Returns-get_elem?, end_and_get_hypothesis-IsLive}

All-remove : {A : Type 0} (P : A → Type 0) (xs : List A) (i : ℕ) → All P xs → All P (remove xs i)
All-remove P [] i h = h
All-remove P (x ∷ xs) zero h = h.1
All-remove P (x ∷ xs) (suc i) h = (h.0, All-remove P xs i h.1)

All-map :
    {A : Type 0} (P : A → Type 0) (f : A → A) (xs : List A)
    → ((a : A) → P a → P (f a))
    → All P xs
    → All P (map f xs) × (length (map f xs) ≡ length xs)
All-map P f [] k h = (tt, refl)
All-map P f (x ∷ xs) k h = let (hs, e) = All-map P f xs k h.1 in ((k x h.0, hs), ap suc e)

module _ {L : PocketSphinx} where
  pass_hypothesis-IsSound :
      (h : Option String) (r : Recognizer L) → IsSound r → IsSound (pass_hypothesis h r)
  unfolding pass_hypothesis
  pass_hypothesis-IsSound none r v = v
  pass_hypothesis-IsSound (some h) r v = trigger-IsSound (on_hypothesis h) r refl v

  finish_at-IsSound :
      (k i : ℕ) (r : Recognizer L)
      → i < length r.decoders
      → IsSound r
      → Returns IsSound (finish_at k i r)
  unfolding finish_at
  finish_at-IsSound k i r h v =
      Returns-bind IsLive IsSound (get_elem? r.decoders i) _
        (Returns-get_elem? IsLive r.decoders i v.live h)
        (λ d l.
          Returns-bind (λ h. IsLive h.0) IsSound (end_and_get_hypothesis d) _
            (end_and_get_hypothesis-IsLive d l)
            (λ g l'.
              pass_hypothesis-IsSound g.1
                (record r {
                  decoders = set r.decoders i g.0;
                  hypothesis_threads = remove r.hypothesis_threads k;
                })
                (let w = set-IsSound i g.0 r l' v in
                  record {
                    in_range = w.in_range;
                    max_in_range = w.max_in_range;
                    live = w.live;
                    threads_in_range = All-remove _ r.hypothesis_threads k w.threads_in_range;
                    spoken = w.spoken;
                  })))

  pub finish_thread-IsSound :
      (k : ℕ) (r : Recognizer L) → IsSound r → Returns IsSound (finish_thread k r)
  unfolding finish_thread
  finish_thread-IsSound k r v =
      let finish : Option ℕ → Option (Recognizer L) =
        λ o. elim o [ none ↦ some r | some i ↦ finish_at k i r ] in
      elim (Option-cases (get_elem? r.hypothesis_threads k)) [
        | inl e ↦ subst (λ o. Returns IsSound (finish o)) (sym e) v
        | inr (i, e) ↦
            subst (λ o. Returns IsSound (finish o)) (sym e)
              (finish_at-IsSound k i r (All-get_elem? _ r.hypothesis_threads k v.threads_in_range e)
                v)
      ]

  pub pause_recognition-IsSound : (r : Recognizer L) → IsSound r → IsSound (pause_recognition r)
  unfolding pause_recognition
  pause_recognition-IsSound r v = trigger-IsSound on_pause (record r { paused = true }) refl v

  pub resume_recognition-IsSound : (r : Recognizer L) → IsSound r → IsSound (resume_recognition r)
  unfolding resume_recognition
  resume_recognition-IsSound r v = trigger-IsSound on_resume r refl v

  add_to_current-IsLive :
      (w p : String) (d : Decoder L) → IsLive d → Returns IsLive (add_to_current w p d)
  unfolding add_to_current buckey.Decoder.add_word
  add_to_current-IsLive w p d v = ground arith

  add_turns-IsSound :
      (w p : String) (n : ℕ) (r : Recognizer L) → IsSound r → Returns IsSound (add_turns w p n r)
  unfolding add_turns
  add_turns-IsSound w p zero r v = v
  add_turns-IsSound w p (suc n) r v =
      Returns-bind IsSound IsSound (on_decoder r.current (add_to_current w p) r) _
        (on_decoder-IsSound r.current (add_to_current w p) r v.in_range (add_to_current-IsLive w p)
          v)
        (add_turns-IsSound w p n)

  pub add_word-IsSound :
      (w p : String) (r : Recognizer L) → IsSound r → Returns IsSound (add_word w p r)
  unfolding add_word
  add_word-IsSound w p r v = add_turns-IsSound w p (r.max_decoders - 1) r v

  pub update_all-IsSound :
      (f : Decoder L → Decoder L) (r : Recognizer L)
      → ((d : Decoder L) → IsLive d → IsLive (f d))
      → IsSound r
      → IsSound (update_all f r)
  unfolding update_all
  update_all-IsSound f r k v =
      let (live, e) = All-map IsLive f r.decoders k v.live in
      record {
        in_range = omega (arith, v.in_range, e);
        max_in_range = omega (arith, v.max_in_range, e);
        live = live;
        threads_in_range = rw e v.threads_in_range;
        spoken = v.spoken;
      }
