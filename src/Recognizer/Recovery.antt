-- ===== src/Recognizer/Recovery.antt =====
-- The search for another decoder in src/sphinx/SphinxService.cpp when the current one is in error.
use buckey.Common.{
  ℕ, zero, suc, ◌+◌, ◌%◌, ◌^◌, ◌≡◌, refl, ap, ◌∙◌, true, false, arith, if◌then◌else◌, String,
}
use buckey.Decoder.{◌>>=◌, PocketSphinx, Decoder}
use buckey.Recognizer.{Recognizer, returned, is_error, try_decoders}
use buckey.Recognizer.Control.{
  returns, start_continuous_device_recognition, start_press_to_speak_recognition,
}
use buckey.Recognizer.Valid.{IsLive}

module _ {L : PocketSphinx} where
  pub try_decoders-not_ready :
      (d : Decoder L) (n i : ℕ) (r : Recognizer L)
      → d.ready ≡ false
      → try_decoders d n i r ≡ (r, false)
  unfolding try_decoders
  try_decoders-not_ready d zero i r e = refl
  try_decoders-not_ready d (suc n) i r e =
      ap
        (λ b.
          if b
          then (record r { current = (r.current + i) % 2 ^ 16 }, true)
          else try_decoders d n (i + 1) r)
        e
      ∙ try_decoders-not_ready d n (i + 1) r e

  -- A live decoder in error is not ready.
  pub error_not_ready : (d : Decoder L) → IsLive d → is_error d.state ≡ true → d.ready ≡ false
  error_not_ready d v e = ground (arith, v.ready_started)

  -- What is left when the loop has returned early: events are no longer triggered, and a start of either
  -- loop returns at once without one.
  abbrev pub GaveUp : Recognizer L → Type 0
  GaveUp r =
      (r.phase ≡ returned)
      × (r.events_killed ≡ true)
      × ((name : String) → start_continuous_device_recognition name r ≡ returns r)
      × ((name : String) → start_press_to_speak_recognition name r ≡ returns r)
