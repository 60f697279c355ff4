-- ===== src/Sounds.antt =====
-- playSoundEffect and soundEffectDoneCallback of src/core/Buckey.cpp: how many sounds are playing, by
-- what the mixer library answers. The list of channels is only read and erased from.
mod Tests
use buckey.Common.{
  ℕ, zero, suc, ◌+◌, ◌-◌, ◌*◌, ◌/◌, ◌%◌, ◌^◌, ◌≤◌, ◌<◌, ◌≡◌, refl, sym, ap, ◌∙◌, subst, ◌≢◌, ◌↔◌,
  ◌⊎◌, inl, inr, Bool, true, false, not, ◌&&◌, ◌||◌, Option, none, some, List, [], ◌∷◌, ◌++◌, map,
  append-nil, append_assoc, arith, ltb, leb, ◌==◌, if◌then◌else◌, Bool-cases, Option-cases, length,
  get_elem?, set, take, drop, concat, length-append, drop-length-append, All, All-append,
  length-set, get_elem?_of_lt, lt_of_get_elem?, get_elem?-set_self, get_elem?-set_ne, All-set,
  All-get_elem?, String, if_holds, str_eq, str_eq_iff, str_eq_refl,
}

pub record Sounds : Type 0 where
  pub sounds_playing_count : ℕ
  pub sound_effect_channels : List ℕ

-- Counts are of 16 bits.
abbrev pub count_down : ℕ → ℕ
count_down n = (n + (2 ^ 16 - 1)) % 2 ^ 16

-- The mixer gives a channel or none. A synchronous call waits until the channel is not playing.
unfoldable pub play_sound_effect : Option ℕ → (sync : Bool) → Sounds → Sounds × Bool
play_sound_effect none sync s = (s, false)
play_sound_effect (some channel) sync s =
    let up = (s.sounds_playing_count + 1) % 2 ^ 16 in
    (record s { sounds_playing_count = if sync then count_down up else up }, true)

-- The loop over the channels; behind an erased one the next is skipped.
unfoldable pub forget : ℕ → List ℕ → ℕ → List ℕ × ℕ
forget channel [] count = ([], count)
forget channel (c ∷ []) count = if c == channel then ([], count_down count) else (c ∷ [], count)
forget channel (c ∷ d ∷ cs) count =
    let skipped = forget channel cs (count_down count) in
    let rest = forget channel (d ∷ cs) count in
    if c == channel then (d ∷ skipped.0, skipped.1) else (c ∷ rest.0, rest.1)

unfoldable pub sound_effect_done_callback : ℕ → Sounds → Sounds
sound_effect_done_callback channel s =
    let left = forget channel s.sound_effect_channels s.sounds_playing_count in
    record { sounds_playing_count = left.1; sound_effect_channels = left.0 }

-- What happens to the sounds: a call with the mixer's answer, or a channel that has finished.
pub data SoundStep : Type 0 where
  plays : Option ℕ → (sync : Bool) → SoundStep
  finished : ℕ → SoundStep

unfoldable pub sound_step : SoundStep → Sounds → Sounds
sound_step (plays channel sync) s = (play_sound_effect channel sync s).0
sound_step (finished channel) s = sound_effect_done_callback channel s

unfoldable pub sound_run : List SoundStep → Sounds → Sounds
sound_run [] s = s
sound_run (c ∷ cs) s = sound_run cs (sound_step c s)

abbrev pub silent : ℕ → Sounds
silent n = record { sounds_playing_count = n; sound_effect_channels = [] }

-- The sounds that were started without waiting for their end.
abbrev pub async_count : List SoundStep → ℕ
async_count [] = 0
async_count (plays (some channel) false ∷ cs) = async_count cs + 1
async_count (c ∷ cs) = async_count cs

at_rest : (n : ℕ) → n < 2 ^ 16 → n ≡ (n + 0) % 2 ^ 16
at_rest n h = omega arith

up_and_down : (n : ℕ) → n < 2 ^ 16 → count_down ((n + 1) % 2 ^ 16) ≡ n
up_and_down n h = omega arith

one_more : (n a : ℕ) → ((n + 1) % 2 ^ 16 + a) % 2 ^ 16 ≡ (n + (a + 1)) % 2 ^ 16
one_more n a = omega arith

sound_run-count :
    (cs : List SoundStep) (n : ℕ)
    → n < 2 ^ 16
    → sound_run cs (record { sounds_playing_count = n; sound_effect_channels = [] })
      ≡ record { sounds_playing_count = (n + async_count cs) % 2 ^ 16; sound_effect_channels = [] }
unfolding sound_run sound_step play_sound_effect sound_effect_done_callback forget
sound_run-count [] n h =
    λ i. record { sounds_playing_count = at_rest n h i; sound_effect_channels = [] }
sound_run-count (plays none sync ∷ cs) n h = sound_run-count cs n h
sound_run-count (plays (some channel) true ∷ cs) n h =
    ap (λ m. sound_run cs (record { sounds_playing_count = m; sound_effect_channels = [] }))
      (up_and_down n h)
    ∙ sound_run-count cs n h
sound_run-count (plays (some channel) false ∷ cs) n h =
    sound_run-count cs ((n + 1) % 2 ^ 16) (omega arith)
    ∙ ap (λ m. record { sounds_playing_count = m; sound_effect_channels = [] })
        (one_more n (async_count cs))
sound_run-count (finished channel ∷ cs) n h = sound_run-count cs n h

-- Whatever sounds are played and finish, the count of playing sounds is what it held at first, since
-- the constructor sets nothing, and one more for each sound that was started without waiting, modulo
-- 2 ^ 16: the end of such a sound is never counted.
pub sound_run-leaks :
    (cs : List SoundStep) (n : ℕ)
    → n < 2 ^ 16
    → (sound_run cs (silent n)).sounds_playing_count ≡ (n + async_count cs) % 2 ^ 16
sound_run-leaks cs n h = ap (λ (s : Sounds). s.sounds_playing_count) (sound_run-count cs n h)
