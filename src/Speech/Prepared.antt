-- ===== src/Speech/Prepared.antt =====
-- The list of prepared audio: what prepareSpeech writes is what the next start reads.
use buckey.Common.{
  ℕ, ◌+◌, ◌^◌, ◌≤◌, ◌<◌, ◌≡◌, refl, sym, ap, ◌∙◌, subst, ◌≢◌, true, false, none, List, [], ◌∷◌,
  ◌++◌, map, append-nil, append_assoc, arith, if◌then◌else◌, length, length-append, All, All-append,
}
use buckey.Socket.Client.{same_text}
use buckey.Speech.{
  Speaker, newline, line_limit, lower, c_str, is_comment, load_lines, find_prepared, prepare_speech,
  next_index, speech_prepared,
}

-- Words that are a line of the list: at most 499 bytes, no newline and no NUL, and not a comment.
pub record IsEntry (words : List ℕ) : Type 0 where
  pub no_newline : All (λ c. c ≢ newline) words
  pub no_nul : All (λ c. c ≢ 0) words
  pub fits : length words ≤ line_limit
  pub no_comment : is_comment words ≡ false

-- The words with the numbers from i on.
unfoldable pub numbered : ℕ → List (List ℕ) → List (List ℕ × ℕ)
numbered i [] = []
numbered i (words ∷ rest) = (words, i) ∷ numbered (i + 1) rest

unfoldable pub prepare_all : List (List ℕ) → Speaker → Speaker
prepare_all [] s = s
prepare_all (words ∷ rest) s = prepare_all rest (prepare_speech words s)

abbrev pub line_of : List ℕ → List ℕ
line_of words = words ++ newline ∷ []

-- The lines of a list.
unfoldable pub lines : List (List ℕ) → List ℕ
lines [] = []
lines (words ∷ rest) = words ++ newline ∷ lines rest

c_str-NoNul : (s : List ℕ) → All (λ c. c ≢ 0) s → c_str s ≡ s
unfolding c_str
c_str-NoNul [] h = refl
c_str-NoNul (c ∷ s) (h, hs) = ground (arith, c_str-NoNul s hs)

load_lines-line :
    (i : ℕ) (line words rest : List ℕ)
    → All (λ c. c ≢ newline) words
    → length line + length words ≤ line_limit
    → load_lines i line (words ++ newline ∷ rest) ≡ (
        if is_comment (line ++ words)
        then load_lines i [] rest
        else (c_str (line ++ words), i) ∷ load_lines (next_index i) [] rest)
unfolding load_lines
load_lines-line i line [] rest h b = ground (arith, append-nil line)
load_lines-line i line (c ∷ words) rest (h, hs) b = ground (
  arith,
  append_assoc line (c ∷ []) words,
  length-append line (c ∷ []),
  load_lines-line i (line ++ c ∷ []) words rest hs,
)

load_lines-lines :
    (ws : List (List ℕ)) (i : ℕ)
    → All IsEntry ws
    → i + length ws < 2 ^ 32
    → load_lines i [] (lines ws) ≡ numbered i ws
unfolding lines numbered
load_lines-lines [] i h b = unfold load_lines in refl
load_lines-lines (w ∷ ws) i (h, hs) b = ground (
  arith,
  load_lines-line i [] w (lines ws) h.no_newline,
  c_str-NoNul w h.no_nul,
  h.fits,
  h.no_comment,
  load_lines-lines ws (i + 1) hs,
)

-- Words that were prepared in this run: their newline is part of them.
abbrev Terminated : List ℕ × ℕ → Type 0
Terminated audio = (words : List ℕ) × (audio.0 ≡ line_of words)

same_text-line :
    (words text : List ℕ) → All (λ c. c ≢ newline) text → same_text (line_of words) text ≡ false
unfolding same_text
same_text-line [] [] h = refl
same_text-line (c ∷ words) [] h = refl
same_text-line [] (d ∷ text) (h, hs) = ground arith
same_text-line (c ∷ words) (d ∷ text) (h, hs) = ground (arith, same_text-line words text hs)

find_prepared-none :
    (words : List ℕ) (audio : List (List ℕ × ℕ))
    → All (λ c. c ≢ newline) words
    → All Terminated audio
    → find_prepared words audio ≡ none
unfolding find_prepared
find_prepared-none words [] h t = refl
find_prepared-none words ((first, file) ∷ audio) h ((w, e), t) =
    rw (e, same_text-line w words h) (find_prepared-none words audio h t)

-- What the service holds after preparing, from what it held.
record Prepared (ws : List (List ℕ)) (s t : Speaker) : Type 0 where
  pub in_memory :
      t.prepared_audio ≡ s.prepared_audio ++ numbered s.last_audio_index (map line_of ws)
  pub on_disk : t.prepared_audio_list ≡ s.prepared_audio_list ++ lines ws

-- What prepareSpeech makes of words that it takes for new.
abbrev added : List ℕ → Speaker → Speaker
added words s = record s {
  prepared_audio = s.prepared_audio ++ (line_of words, s.last_audio_index) ∷ [];
  last_audio_index = next_index s.last_audio_index;
  prepared_audio_list = s.prepared_audio_list ++ line_of words;
  events = s.events ++ speech_prepared (line_of words) s.last_audio_index ∷ [];
}

prepare_speech-added :
    (w : List ℕ) (s : Speaker)
    → All (λ c. c ≢ newline) (lower w)
    → All Terminated s.prepared_audio
    → prepare_speech w s ≡ added (lower w) s
unfolding prepare_speech
prepare_speech-added w s h t =
    rw (prepare_speech, find_prepared-none (lower w) s.prepared_audio h t) refl

added-Terminated :
    (w : List ℕ) (s : Speaker)
    → All Terminated s.prepared_audio
    → All Terminated (added w s).prepared_audio
added-Terminated w s t = All-append Terminated s.prepared_audio _ t ((w, refl), tt)

prepare_all-Prepared :
    (ws : List (List ℕ)) (s : Speaker)
    → All IsEntry (map lower ws)
    → All Terminated s.prepared_audio
    → s.last_audio_index + length ws < 2 ^ 32
    → Prepared (map lower ws) s (prepare_all ws s)
unfolding prepare_all numbered lines
prepare_all-Prepared [] s h t b = record {
  in_memory = sym (append-nil _);
  on_disk = sym (append-nil _);
}
prepare_all-Prepared (w ∷ ws) s (h, hs) t b =
    let one = added (lower w) s in
    let rest = prepare_all-Prepared ws one hs (added-Terminated (lower w) s t) (omega arith) in
    let next : next_index s.last_audio_index ≡ s.last_audio_index + 1 = omega arith in
    rw (prepare_speech-added w s h.no_newline t) (record {
      in_memory =
          subst
            (λ i.
              (prepare_all ws one).prepared_audio
              ≡ s.prepared_audio
                ++ (line_of (lower w), s.last_audio_index)
                  ∷ numbered i (map line_of (map lower ws)))
            next (rest.in_memory ∙ append_assoc s.prepared_audio _ _);
      on_disk =
          rest.on_disk
          ∙ (append_assoc s.prepared_audio_list (line_of (lower w)) _
              ∙ ap (λ l. s.prepared_audio_list ++ l) (append_assoc (lower w) (newline ∷ []) _));
    })

load_lines-header :
    (header rest : List ℕ)
    → All (λ c. c ≢ newline) header
    → length header ≤ line_limit
    → is_comment header ≡ true
    → load_lines 0 [] (header ++ newline ∷ rest) ≡ load_lines 0 [] rest
load_lines-header header rest h b e = rw (load_lines-line 0 [] header rest h (omega arith), e) refl

length-lower : (ws : List (List ℕ)) → length (map lower ws) ≡ length ws
length-lower [] = refl
length-lower (w ∷ ws) = ground (arith, length-lower ws)

-- From a new list, which holds one comment line: whatever words are prepared, the next start reads them
-- in lower case and in order, each with the number of its audio file; and while the service runs, its
-- own list has each of them with a newline at the end, the ones prepared before as well. The words in
-- lower case are of at most 499 bytes, with no newline, no NUL and no '#' in front, and fewer than 2^32.
pub load-prepare_all :
    (ws : List (List ℕ)) (header : List ℕ) (s : Speaker)
    → All (λ c. c ≢ newline) header
    → length header ≤ line_limit
    → is_comment header ≡ true
    → s.prepared_audio_list ≡ line_of header
    → s.prepared_audio ≡ []
    → s.last_audio_index ≡ 0
    → All IsEntry (map lower ws)
    → length ws < 2 ^ 32
    → ((prepare_all ws s).prepared_audio ≡ numbered 0 (map line_of (map lower ws)))
      × (load_lines 0 [] (prepare_all ws s).prepared_audio_list ≡ numbered 0 (map lower ws))
load-prepare_all ws header s h b e list none_prepared at_zero hs l =
    let done =
      prepare_all-Prepared ws s hs (subst (All Terminated) (sym none_prepared) tt) (omega arith) in
    (
      done.in_memory ∙ rw (none_prepared, at_zero) refl,
      rw (done.on_disk, list, append_assoc header (newline ∷ []) (lines (map lower ws)))
          (load_lines-header header (lines (map lower ws)) h b e
            ∙ load_lines-lines (map lower ws) 0 hs (omega (arith, length-lower ws))),
    )
