-- ===== src/Sounds/Tests.antt =====
-- One sound that plays and ends.
use buckey.Common.{◌≡◌, refl, false, some, [], ◌∷◌}
use buckey.Sounds.{
  plays, finished, silent, sound_run, sound_step, play_sound_effect, forget,
  sound_effect_done_callback,
}

-- A sound that was started without waiting is counted for ever.
still_counted :
    (sound_run (plays (some 3) false ∷ finished 3 ∷ []) (silent 0)).sounds_playing_count ≡ 1
unfolding sound_run sound_step play_sound_effect sound_effect_done_callback forget
still_counted = refl
