-- ===== src/Recognizer/Speech.antt =====
-- The order in which the loops of src/sphinx/SphinxService.cpp announce speech.
use buckey.Common.{
  ◌≡◌, refl, sym, ◌∙◌, subst, inl, inr, Bool, true, false, not, ◌&&◌, Option, none, some, List, [],
  ◌∷◌, ◌++◌, arith, if◌then◌else◌, Option-cases,
}
use buckey.Recognizer.{
  SpeechEvent, on_start_speech, on_end_speech, on_pause, on_resume, on_ready, on_service_ready,
  on_hypothesis,
}

-- Whether an end of speech is still owed, and none if an end came that no start had announced.
abbrev next : Bool → SpeechEvent → Option Bool
next b on_start_speech = some true
next b on_end_speech = if b then some false else none
next b e = some b

abbrev pub follow : Bool → List SpeechEvent → Option Bool
follow b [] = some b
follow b (e ∷ es) = elim (next b e) [ none ↦ none | some b' ↦ follow b' es ]

abbrev pub is_neutral : SpeechEvent → Bool
is_neutral on_start_speech = false
is_neutral on_end_speech = false
is_neutral e = true

-- Every end of speech was announced by a start, and a start has announced the utterance that the
-- flag tells of, as long as events are triggered.
pub record IsSpoken (es : List SpeechEvent) (in_utterance killed : Bool) : Type 0 where
  pub owed : Bool
  pub followed : follow false es ≡ some owed
  pub announced : (in_utterance && not killed && not owed) ≡ false

none-some {ℓ} : {A : Type ℓ} {a : A} → none ≡ some a → ⊥
none-some e = cc

follow-append :
    (b : Bool) (es : List SpeechEvent) (e : SpeechEvent) {c : Bool}
    → follow b es ≡ some c
    → follow b (es ++ e ∷ []) ≡ elim (next c e) [ none ↦ none | some c' ↦ some c' ]
follow-append b [] e h = ground arith
follow-append b (d ∷ es) e h = elim (Option-cases (next b d)) [
  | inl n ↦ absurd (none-some (rw (n, follow) at h))
  | inr (b', n) ↦ rw (n, follow) (follow-append b' es e (rw (n, follow) at h))
]

next-is_neutral : (b : Bool) (e : SpeechEvent) → is_neutral e ≡ true → next b e ≡ some b
next-is_neutral b on_start_speech h = cc
next-is_neutral b on_end_speech h = cc
next-is_neutral b on_pause h = refl
next-is_neutral b on_resume h = refl
next-is_neutral b on_ready h = refl
next-is_neutral b on_service_ready h = refl
next-is_neutral b (on_hypothesis t) h = refl

module _ {es : List SpeechEvent} {u k : Bool} where
  pub neutral-IsSpoken :
      (e : SpeechEvent) → is_neutral e ≡ true → IsSpoken es u k → IsSpoken (es ++ e ∷ []) u k
  neutral-IsSpoken e h s = record {
    owed = s.owed;
    followed = follow-append false es e s.followed ∙ rw (next-is_neutral s.owed e h) refl;
    announced = s.announced;
  }

  pub start-IsSpoken : IsSpoken es u k → IsSpoken (es ++ on_start_speech ∷ []) true k
  start-IsSpoken s = record {
    owed = true;
    followed = follow-append false es on_start_speech s.followed;
    announced = ground arith;
  }

  pub silent-IsSpoken : IsSpoken es u k → IsSpoken es false k
  silent-IsSpoken s = record { owed = s.owed; followed = s.followed; announced = refl }

  -- Events that are not triggered owe nothing.
  pub killed-IsSpoken : (v : Bool) → IsSpoken es u k → IsSpoken es v true
  killed-IsSpoken v s = record { owed = s.owed; followed = s.followed; announced = ground arith }

pub end-IsSpoken :
    {es : List SpeechEvent} {k : Bool}
    → IsSpoken es true false
    → IsSpoken (es ++ on_end_speech ∷ []) false k
end-IsSpoken {es} s = record {
  owed = false;
  followed = follow-append false es on_end_speech s.followed ∙ ground (arith, s.announced);
  announced = refl;
}

-- The same where the flag says so.
pub killed_flag-IsSpoken :
    {es : List SpeechEvent} {u k : Bool} → k ≡ true → (v : Bool) → IsSpoken es u k → IsSpoken es v k
killed_flag-IsSpoken {es} e v s = subst (IsSpoken es v) (sym e) (killed-IsSpoken v s)
