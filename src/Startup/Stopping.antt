-- ===== src/Startup/Stopping.antt =====
-- When the loops of src/main.cpp that read commands end, and what they pass on until then.
use buckey.Common.{
  ◌≡◌, refl, sym, ap, ◌∙◌, subst, inl, inr, Bool, true, false, ◌||◌, List, [], ◌∷◌, ◌++◌,
  append-nil, append_assoc, if◌then◌else◌, Bool-cases, String, if_holds,
}
use buckey.Startup.Loops.{Assistant, Turn, goes_on, turn, command_loop}
use buckey.Startup.Turns.{any_stops, read_line, turn-Turned, turn-daemon, false-true}

-- The lines that are read before a stop, and whether there is one.
abbrev pub lines_until_stop : List Turn → List String
lines_until_stop [] = []
lines_until_stop (t ∷ ts) =
    let rest = lines_until_stop ts in
    if any_stops t.waiting
    then []
    else read_line t.line ++ (if any_stops t.behind then [] else rest)

abbrev pub has_stop : List Turn → Bool
has_stop [] = false
has_stop (t ∷ ts) = any_stops t.waiting || any_stops t.behind || has_stop ts

abbrev pub all_lines : List Turn → List String
all_lines [] = []
all_lines (t ∷ ts) = read_line t.line ++ all_lines ts

-- A loop that a stop has reached ends at its test.
command_loop-killed :
    (ts : List Turn) (b : Assistant) → b.killed ≡ true → command_loop false ts b ≡ (b, true)
unfolding command_loop goes_on
command_loop-killed [] b k = rw k refl
command_loop-killed (t ∷ ts) b k = rw k refl

-- In the foreground the loop of main ends if and only if a signal that stops the program or a command
-- quit arrives in one of its turns, and it passes on as inputs exactly the lines that are not empty and
-- were read before, in their order, if it starts with running set and killed not set.
pub command_loop-foreground :
    (ts : List Turn) (b : Assistant)
    → b.running ≡ true
    → b.killed ≡ false
    → ((command_loop false ts b).1 ≡ has_stop ts)
      × ((command_loop false ts b).0.inputs ≡ b.inputs ++ lines_until_stop ts)
unfolding command_loop goes_on
command_loop-foreground [] b up live = rw (up, live) (refl, sym (append-nil b.inputs))
command_loop-foreground (t ∷ ts) b up live =
    let next = turn false t b in
    let turned = turn-Turned t b live in
    let P = λ (r : Assistant × Bool).
      (r.1 ≡ has_stop (t ∷ ts)) × (r.0.inputs ≡ b.inputs ++ lines_until_stop (t ∷ ts)) in
    let rest = command_loop false ts next.0 in
    if_holds P (goes_on false b) (if next.1 then next else rest) (b, true)
      (λ _.
        if_holds P next.1 next rest
          (λ out. elim (Bool-cases (any_stops t.waiting)) [
            | inl w ↦ (rw w out, turned.inputs ∙ rw w refl)
            | inr w ↦ false-true out (turned.goes w)
          ])
          (λ stays. elim (Bool-cases (any_stops t.waiting)) [
            | inl w ↦
                subst P (sym (command_loop-killed ts next.0 (turned.killed stays ∙ rw w refl)))
                  (rw w refl, turned.inputs ∙ rw w refl)
            | inr w ↦ elim (Bool-cases (any_stops t.behind)) [
              | inl h ↦
                  subst P
                    (sym (command_loop-killed ts next.0 (turned.killed stays ∙ rw (w, h) refl)))
                    (
                      rw (w, h) refl,
                      turned.inputs ∙ rw (w, h) (ap (λ l. b.inputs ++ l) (sym (append-nil _))),
                    )
              | inr h ↦
                  let (ends, passed) =
                    command_loop-foreground ts next.0 (turned.running ∙ up)
                      (turned.killed stays ∙ rw (w, h) refl) in
                  (
                    ends ∙ rw (w, h) refl,
                    passed
                        ∙ ap (λ l. l ++ lines_until_stop ts) turned.inputs
                        ∙ rw (w, h)
                            (append_assoc b.inputs (read_line t.line) (lines_until_stop ts)),
                  )
            ]
          ]))
      (λ e. false-true (rw (up, live) refl) e)

-- In a daemon the loop never ends: it looks at running, which only the destructor behind the loop
-- clears. Whatever arrives, all lines that are not empty are passed on as commands, if it starts with
-- running set.
pub command_loop-daemon :
    (ts : List Turn) (b : Assistant)
    → b.running ≡ true
    → ((command_loop true ts b).1 ≡ false)
      × ((command_loop true ts b).0.commands ≡ b.commands ++ all_lines ts)
unfolding command_loop goes_on
command_loop-daemon [] b up = rw up (refl, sym (append-nil b.commands))
command_loop-daemon (t ∷ ts) b up =
    let next = turn true t b in
    let (goes, running, commands) = turn-daemon t b up in
    let P =
      λ (r : Assistant × Bool). (r.1 ≡ false) × (r.0.commands ≡ b.commands ++ all_lines (t ∷ ts)) in
    let (ends, passed) = command_loop-daemon ts next.0 running in
    if_holds P b.running (if next.1 then next else command_loop true ts next.0) (b, true)
      (λ _.
        if_holds P next.1 next (command_loop true ts next.0) (λ out. false-true out goes)
          (λ _. (
            ends,
            passed
                ∙ ap (λ l. l ++ all_lines ts) commands
                ∙ append_assoc b.commands (read_line t.line) (all_lines ts),
          )))
      (λ e. false-true up e)
