-- ===== src/Recognizer/Loops.antt =====
-- The parts that both loops in src/sphinx/SphinxService.cpp share keep a recognizer sound.
use buckey.Common.{
  ℕ, suc, ◌-◌, ◌≡◌, refl, sym, ap, subst, Bool, true, false, Option, some, List, [], ◌∷◌, ◌++◌,
  arith, if◌then◌else◌, length, get_elem?, All, get_elem?_of_lt, All-get_elem?, if_holds,
}
use buckey.Decoder.{PocketSphinx, Decoder, ◌>>=◌, start_utterance}
use buckey.Decoder.Machine.{Returns}
use buckey.Recognizer.{
  Recognizer, top, spinning, is_error, is_not_initialized, trigger, kill_threads, killing, exited,
  each_decoder, write_recording, try_next_decoder, try_decoders, refresh, begin, begun, on_ready,
  on_service_ready,
}
use buckey.Recognizer.Recovery.{try_decoders-not_ready, error_not_ready}
use buckey.Recognizer.Speech.{killed-IsSpoken}
use buckey.Recognizer.Sound.{IsSound, trigger-IsSound, refresh-IsSound}
use buckey.Recognizer.Valid.{IsLive, Returns-bind, Returns-get_elem?, start_utterance-IsLive}

-- A conditional of results, each with its test.
pub if_Returns :
    {A : Type 0} (P : A → Type 0) (b : Bool) (x y : Option A)
    → (b ≡ true → Returns P x)
    → (b ≡ false → Returns P y)
    → Returns P (if b then x else y)
if_Returns P b x y h k = if_holds (Returns P) b x y h k

module _ {L : PocketSphinx} where
  pub each_decoder-IsLive :
      (f : Decoder L → Option (Decoder L)) (ds : List (Decoder L))
      → ((d : Decoder L) → IsLive d → Returns IsLive (f d))
      → All IsLive ds
      → Returns (λ ds'. All IsLive ds' × (length ds' ≡ length ds)) (each_decoder f ds)
  unfolding each_decoder
  each_decoder-IsLive f [] k v = (tt, refl)
  each_decoder-IsLive f (d ∷ ds) k v = Returns-bind IsLive _ (f d) _ (k d v.0) (λ d' l.
      Returns-bind _ _ (each_decoder f ds) _ (each_decoder-IsLive f ds k v.1)
        (λ ds' ls. ((l, ls.0), ap suc ls.1)))

  pub kill_threads-IsSound : (r : Recognizer L) → IsSound r → IsSound (kill_threads r)
  unfolding kill_threads
  kill_threads-IsSound r v = record {
    in_range = v.in_range;
    max_in_range = v.max_in_range;
    live = v.live;
    threads_in_range = v.threads_in_range;
    spoken = killed-IsSpoken r.in_utterance v.spoken;
  }

  pub killing-IsSound :
      (next : Recognizer L → Option (Recognizer L)) (r : Recognizer L)
      → IsSound r
      → (IsSound (kill_threads r) → Returns IsSound (next (kill_threads r)))
      → Returns IsSound (killing next r)
  unfolding killing
  killing-IsSound next r v k =
      if_Returns IsSound r.events_killed (some (record r { phase = exited })) _ (λ _. v)
        (λ _. k (kill_threads-IsSound r v))

  pub write_recording-IsSound :
      (fs : List ℕ) (r : Recognizer L) → IsSound r → IsSound (write_recording fs r)
  unfolding write_recording
  write_recording-IsSound fs r v =
      if_holds IsSound r.is_recording (record r { recorded = r.recorded ++ fs }) r (λ _. v) (λ _. v)

  begun-IsSound : (b : Bool) (s : _) (r : Recognizer L) → IsSound r → IsSound (begun b s r)
  unfolding begun
  begun-IsSound b s r v =
      let ready = trigger on_ready (record r { recognizing = b }) in
      if_holds IsSound (is_not_initialized s) (record r { phase = spinning })
        (record (trigger on_service_ready (record ready { update_locked = false })) { phase = top })
        (λ _. v)
        (λ _.
          trigger-IsSound on_service_ready (record ready { update_locked = false }) refl
            (trigger-IsSound on_ready (record r { recognizing = b }) refl v))

  pub begin-IsSound : (b : Bool) (r : Recognizer L) → IsSound r → Returns IsSound (begin b r)
  unfolding begin
  begin-IsSound b r v =
      Returns-bind _ IsSound (each_decoder start_utterance r.decoders) _
        (each_decoder-IsLive start_utterance r.decoders start_utterance-IsLive v.live)
        (λ ds h.
          Returns-bind IsLive IsSound (get_elem? ds 0) _
            (Returns-get_elem? IsLive ds 0 h.0 (omega (arith, v.in_range, h.1)))
            (λ d l.
              begun-IsSound b d.state (record r { decoders = ds; current = 0 })
                (record {
                  in_range = omega (arith, v.in_range, h.1);
                  max_in_range = omega (arith, v.max_in_range, h.1);
                  live = h.0;
                  threads_in_range = rw h.1 v.threads_in_range;
                  spoken = v.spoken;
                })))

  -- What a loop does next with frames, after the check of the current decoder.
  pub checked-IsSound :
      (r : Recognizer L) (next : Recognizer L → Option (Recognizer L))
      (otherwise : Option (Recognizer L))
      → IsSound r
      → (Returns (λ d. is_error d.state ≡ false) (get_elem? r.decoders r.current)
          → Returns IsSound (next r))
      → Returns IsSound otherwise
      → Returns IsSound (do
        d ← get_elem? r.decoders r.current
        tried ← try_next_decoder r
        if is_error d.state then (if tried.1 then next tried.0 else otherwise) else next r)
  unfolding try_next_decoder
  checked-IsSound r next otherwise v h k =
      let (d, g) = get_elem?_of_lt r.decoders r.current v.in_range in
      let turns = r.max_decoders - 1 - r.current in
      subst
        (λ o. Returns IsSound (do
          d ← o
          tried ← (do d ← o; some (try_decoders d turns r.current r))
          if is_error d.state then (if tried.1 then next tried.0 else otherwise) else next r))
        (sym g)
        (if_Returns IsSound (is_error d.state) _ (next r)
          (λ e.
            subst (λ t. Returns IsSound (if t.1 then next t.0 else otherwise))
              (sym (
                try_decoders-not_ready d turns r.current r
                  (error_not_ready d (All-get_elem? IsLive r.decoders r.current v.live g) e)))
              k)
          (λ e. h (subst (Returns (λ d. is_error d.state ≡ false)) (sym g) e)))

  pub refreshed-IsSound :
      (r : Recognizer L)
      → IsSound r
      → Returns IsSound (do r' ← refresh r.max_decoders 0 r; some (record r' { phase = top }))
  refreshed-IsSound r v =
      Returns-bind IsSound IsSound (refresh r.max_decoders 0 r) _
        (refresh-IsSound r.max_decoders 0 r (omega (arith, v.max_in_range)) v) (λ r' v'. v')
