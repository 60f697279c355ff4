-- ===== src/Recognizer/Rounds.antt =====
-- applyUpdates of src/sphinx/SphinxService.cpp keeps a recognizer sound.
use buckey.Common.{
  ℕ, zero, suc, ◌+◌, ◌≤◌, ◌<◌, ◌≡◌, refl, ◌∙◌, Bool, true, false, some, List, [], ◌∷◌, ◌++◌, arith,
  ◌==◌, length, get_elem?, All, All-append, length-set, All-set,
}
use buckey.Decoder.{PocketSphinx, is_started}
use buckey.Decoder.Machine.{Returns}
use buckey.Recognizer.{Recognizer, each_decoder}
use buckey.Recognizer.Apply.{
  mem, Progress, first_done, first_index, renew, renew_at, turn, turns, rounds, renew_all,
  apply_updates,
}
use buckey.Recognizer.Sound.{IsSound}
use buckey.Recognizer.Loops.{if_Returns, each_decoder-IsLive}
use buckey.Recognizer.Valid.{IsLive, Returns-bind, Returns-get_elem?, renew-IsLive}

first_done-lt : (n c : ℕ) (xs : List ℕ) → c < n → All (λ i. i < n) xs → first_done c xs < n
first_done-lt n c [] h k = h
first_done-lt n c (x ∷ xs) h k = k.0

first_index-lt : {A : Type 0} (c : ℕ) (xs : List A) → c < length xs → first_index c xs < length xs
first_index-lt c [] h = h
first_index-lt c (x ∷ xs) h = omega arith

module _ {L : PocketSphinx} where
  -- What the rounds of applyUpdates keep: as many decoders, all initialised, and indexes of theirs.
  record Kept (n : ℕ) (p : Progress L) : Type 0 where
    as_many : length p.decoders ≡ n
    kept_live : All IsLive p.decoders
    current_kept : p.current < n
    done_kept : All (λ i. i < n) p.decoders_done

  renew_at-Kept : (n i : ℕ) (p : Progress L) → i < n → Kept n p → Returns (Kept n) (renew_at i p)
  unfolding renew_at
  renew_at-Kept n i p h v =
      Returns-bind IsLive (Kept n) (get_elem? p.decoders i) _
        (Returns-get_elem? IsLive p.decoders i v.kept_live (omega (arith, v.as_many)))
        (λ d l. Returns-bind IsLive (Kept n) (renew d) _ (renew-IsLive d) (λ d' l'. record {
          as_many = length-set p.decoders i d' ∙ v.as_many;
          kept_live = All-set IsLive p.decoders i d' v.kept_live l';
          current_kept = v.current_kept;
          done_kept = All-append _ p.decoders_done (i ∷ []) v.done_kept (h, tt);
        }))

  turn-Kept :
      (u : Bool) (n i : ℕ) (p : Progress L) → i < n → Kept n p → Returns (Kept n) (turn u i p)
  unfolding turn
  turn-Kept u n i p h v =
      if_Returns (Kept n) (mem i (p.decoders_done ++ p.junk)) (some p) _ (λ _. v)
        (λ _.
          if_Returns (Kept n) (i == p.current) _ _
            (λ _.
              if_Returns (Kept n) u (some p) _ (λ _. v)
                (λ _. record {
                  as_many = v.as_many;
                  kept_live = v.kept_live;
                  current_kept =
                      first_done-lt n p.current p.decoders_done v.current_kept v.done_kept;
                  done_kept = v.done_kept;
                }))
            (λ _.
              Returns-bind IsLive (Kept n) (get_elem? p.decoders i) _
                (Returns-get_elem? IsLive p.decoders i v.kept_live (omega (arith, v.as_many)))
                (λ d l.
                  if_Returns (Kept n) (is_started d.state) (renew_at i p) (some p)
                    (λ _. renew_at-Kept n i p h v) (λ _. v))))

  turns-Kept :
      (u : Bool) (n m i : ℕ) (p : Progress L)
      → m + i ≤ n
      → Kept n p
      → Returns (Kept n) (turns u m i p)
  unfolding turns
  turns-Kept u n zero i p h v = v
  turns-Kept u n (suc m) i p h v =
      Returns-bind (Kept n) (Kept n) (turn u i p) _ (turn-Kept u n i p (omega arith) v)
        (λ p' v'. turns-Kept u n m (i + 1) p' (omega arith) v')

  rounds-Kept :
      (u : Bool) (n fuel : ℕ) (p : Progress L)
      → Kept n p
      → Returns (λ q. Kept n q.0) (rounds u fuel p)
  unfolding rounds
  rounds-Kept u n zero p v = v
  rounds-Kept u n (suc fuel) p v =
      if_Returns (λ q. Kept n q.0) (length p.decoders_done == length p.decoders) (some (p, true)) _
        (λ _. v)
        (λ _.
          Returns-bind (Kept n) (λ q. Kept n q.0) (turns u (length p.decoders) 0 p) _
            (turns-Kept u n (length p.decoders) 0 p (omega (arith, v.as_many)) v)
            (λ p' v'. rounds-Kept u n fuel p' v'))

  renew_all-IsSound : (r : Recognizer L) → IsSound r → Returns IsSound (renew_all r)
  unfolding renew_all
  renew_all-IsSound r v =
      Returns-bind _ IsSound (each_decoder renew r.decoders) _
        (each_decoder-IsLive renew r.decoders (λ d _. renew-IsLive d) v.live)
        (λ ds h. record {
          in_range = first_index-lt r.current ds (omega (arith, v.in_range, h.1));
          max_in_range = omega (arith, v.max_in_range, h.1);
          live = h.0;
          threads_in_range = rw h.1 v.threads_in_range;
          spoken = v.spoken;
        })

  pub apply_updates-IsSound :
      (fuel : ℕ) (junk : List ℕ) (r : Recognizer L)
      → IsSound r
      → Returns (λ s. IsSound s.0) (apply_updates fuel junk r)
  unfolding apply_updates
  apply_updates-IsSound fuel junk r v =
      let from : Progress L = record {
        decoders = r.decoders;
        current = r.current;
        decoders_done = [];
        junk = junk;
      } in
      if_Returns (λ s. IsSound s.0) r.update_locked (some (r, false)) _ (λ _. v)
        (λ _.
          if_Returns (λ s. IsSound s.0) r.recognizing _ _
            (λ _.
              Returns-bind (λ q. Kept (length r.decoders) q.0) (λ s. IsSound s.0)
                (rounds r.in_utterance fuel from) _
                (rounds-Kept r.in_utterance (length r.decoders) fuel from (record {
                  as_many = refl;
                  kept_live = v.live;
                  current_kept = v.in_range;
                  done_kept = tt;
                }))
                (λ q k. record {
                  in_range = omega (arith, k.as_many, k.current_kept);
                  max_in_range = omega (arith, k.as_many, v.max_in_range);
                  live = k.kept_live;
                  threads_in_range = rw k.as_many v.threads_in_range;
                  spoken = v.spoken;
                }))
            (λ _.
              Returns-bind IsSound (λ s. IsSound s.0) (renew_all r) _ (renew_all-IsSound r v)
                (λ r' w. w)))
