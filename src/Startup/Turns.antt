-- ===== src/Startup/Turns.antt =====
-- One turn of the loops of src/main.cpp that read commands.
use buckey.Common.{
  ◌≡◌, refl, sym, ap, ◌∙◌, inl, inr, Bool, true, false, ◌||◌, Option, none, some, List, [], ◌∷◌,
  ◌++◌, append-nil, arith, if◌then◌else◌, Bool-cases, String, if_holds, str_eq,
}
use buckey.Startup.Loops.{
  signals, sigtstp, sighup, sigquit, sigterm, unknown_signal, quits, Event, Assistant, arrive,
  arrive_all, Turn, pass_line, takes_line, turn,
}

-- Whether one of the events stops the program in the foreground.
abbrev pub stops : Event → Bool
stops (signals sighup) = false
stops (signals unknown_signal) = false
stops (signals s) = true
stops quits = true

abbrev pub any_stops : List Event → Bool
any_stops [] = false
any_stops (e ∷ es) = stops e || any_stops es

abbrev pub read_line : Option String → List String
read_line none = []
read_line (some s) = if str_eq s "" then [] else s ∷ []

-- What events leave in the foreground, and in a daemon.
pub record Stopped (stopped : Bool) (b b' : Assistant) : Type 0 where
  pub running : b'.running ≡ b.running
  pub inputs : b'.inputs ≡ b.inputs
  pub killed : b'.killed ≡ (b.killed || stopped)

pub record Kept (b b' : Assistant) : Type 0 where
  pub running : b'.running ≡ b.running
  pub commands : b'.commands ≡ b.commands

or-false : (a : Bool) → a ≡ (a || false)
or-false true = refl
or-false false = refl

or-true : (a : Bool) → true ≡ (a || true)
or-true true = refl
or-true false = refl

or_assoc : (a b c : Bool) → ((a || b) || c) ≡ (a || (b || c))
or_assoc true b c = refl
or_assoc false b c = refl

arrive-Stopped : (e : Event) (b : Assistant) → Stopped (stops e) b (arrive false e b)
unfolding arrive
arrive-Stopped (signals sighup) b = record { running = refl; inputs = refl; killed = or-false _ }
arrive-Stopped (signals sigquit) b = record { running = refl; inputs = refl; killed = or-true _ }
arrive-Stopped (signals sigtstp) b = record { running = refl; inputs = refl; killed = or-true _ }
arrive-Stopped (signals sigterm) b = record { running = refl; inputs = refl; killed = or-true _ }
arrive-Stopped (signals unknown_signal) b = record {
  running = refl;
  inputs = refl;
  killed = or-false _;
}
arrive-Stopped quits b = record { running = refl; inputs = refl; killed = or-true _ }

arrive_all-Stopped :
    (es : List Event) (b : Assistant) → Stopped (any_stops es) b (arrive_all false es b)
unfolding arrive_all
arrive_all-Stopped [] b = record { running = refl; inputs = refl; killed = or-false _ }
arrive_all-Stopped (e ∷ es) b =
    let one = arrive-Stopped e b in
    let rest = arrive_all-Stopped es (arrive false e b) in
    record {
      running = rest.running ∙ one.running;
      inputs = rest.inputs ∙ one.inputs;
      killed =
          rest.killed
          ∙ ap (λ t. t || any_stops es) one.killed
          ∙ or_assoc b.killed (stops e) (any_stops es);
    }

arrive-Kept : (e : Event) (b : Assistant) → Kept b (arrive true e b)
unfolding arrive
arrive-Kept (signals sighup) b = record { running = refl; commands = refl }
arrive-Kept (signals sigquit) b = record { running = refl; commands = refl }
arrive-Kept (signals sigtstp) b = record { running = refl; commands = refl }
arrive-Kept (signals sigterm) b = record { running = refl; commands = refl }
arrive-Kept (signals unknown_signal) b = record { running = refl; commands = refl }
arrive-Kept quits b = record { running = refl; commands = refl }

arrive_all-Kept : (es : List Event) (b : Assistant) → Kept b (arrive_all true es b)
unfolding arrive_all
arrive_all-Kept [] b = record { running = refl; commands = refl }
arrive_all-Kept (e ∷ es) b =
    let one = arrive-Kept e b in
    let rest = arrive_all-Kept es (arrive true e b) in
    record { running = rest.running ∙ one.running; commands = rest.commands ∙ one.commands }

-- One turn in the foreground.
pub record Turned (t : Turn) (b : Assistant) (next : Assistant × Bool) : Type 0 where
  pub running : next.0.running ≡ b.running
  pub inputs : next.0.inputs ≡ b.inputs ++ (if any_stops t.waiting then [] else read_line t.line)
  pub goes : any_stops t.waiting ≡ false → next.1 ≡ false
  pub killed : next.1 ≡ false → next.0.killed ≡ (any_stops t.waiting || any_stops t.behind)

pass_line-inputs :
    (s : String) (b : Assistant) → (pass_line false s b).inputs ≡ b.inputs ++ read_line (some s)
unfolding pass_line
pass_line-inputs s b = elim (Bool-cases (str_eq s "")) [
  | inl e ↦ rw e (sym (append-nil b.inputs))
  | inr e ↦ rw e refl
]

pass_line-flags :
    (s : String) (b : Assistant)
    → ((pass_line false s b).running ≡ b.running) × ((pass_line false s b).killed ≡ b.killed)
unfolding pass_line
pass_line-flags s b = elim (Bool-cases (str_eq s "")) [
  | inl e ↦ rw e (refl, refl)
  | inr e ↦ rw e (refl, refl)
]

pub false-true {ℓ} : {P : Type ℓ} {a : Bool} → a ≡ true → a ≡ false → P
false-true p q = absurd (cc)

turn-quiet :
    (w h : List Event) (b : Assistant)
    → b.killed ≡ false
    → Turned
        (record { waiting = w; line = none; behind = h })
        b
        (turn false (record { waiting = w; line = none; behind = h }) b)
unfolding turn
turn-quiet w h b live =
    let before = arrive_all-Stopped w b in
    let after = arrive_all-Stopped h (arrive_all false w b) in
    record {
      running = after.running ∙ before.running;
      inputs =
          after.inputs
          ∙ before.inputs
          ∙ sym (append-nil b.inputs)
          ∙ if_holds (λ t. b.inputs ++ [] ≡ b.inputs ++ t) (any_stops w) [] [] (λ _. refl)
              (λ _. refl);
      goes = λ _. refl;
      killed = λ _.
          after.killed
          ∙ ap (λ t. t || any_stops h) (before.killed ∙ ap (λ t. t || any_stops w) live);
    }

turn-line :
    (w h : List Event) (s : String) (b : Assistant)
    → b.killed ≡ false
    → Turned
        (record { waiting = w; line = some s; behind = h })
        b
        (turn false (record { waiting = w; line = some s; behind = h }) b)
unfolding turn takes_line
turn-line w h s b live =
    let now = arrive_all false w b in
    let before = arrive_all-Stopped w b in
    let dead : now.killed ≡ any_stops w = before.killed ∙ ap (λ t. t || any_stops w) live in
    let passed = pass_line false s now in
    let after = arrive_all-Stopped h passed in
    let (running, killed) = pass_line-flags s now in
    let T : Turn = record { waiting = w; line = some s; behind = h } in
    if_holds (Turned T b) (takes_line false now) (arrive_all false h passed, false) (now, true)
      (λ e.
        let calm : any_stops w ≡ false = ground (arith, e, dead) in
        record {
          running = after.running ∙ running ∙ before.running;
          inputs =
              after.inputs
              ∙ pass_line-inputs s now
              ∙ ap (λ t. t ++ read_line (some s)) before.inputs
              ∙ rw calm refl;
          goes = λ _. refl;
          killed = λ _. after.killed ∙ ap (λ t. t || any_stops h) (killed ∙ dead);
        })
      (λ e.
        let stop : any_stops w ≡ true = ground (arith, e, dead) in
        record {
          running = before.running;
          inputs = before.inputs ∙ sym (append-nil b.inputs) ∙ rw stop refl;
          goes = λ f. false-true stop f;
          killed = λ f. false-true refl f;
        })

pub turn-Turned : (t : Turn) (b : Assistant) → b.killed ≡ false → Turned t b (turn false t b)
turn-Turned t b live =
    elim t.line as (λ l. Turned (record t { line = l }) b (turn false (record t { line = l }) b)) [
      | none ↦ turn-quiet t.waiting t.behind b live
      | some s ↦ turn-line t.waiting t.behind s b live
    ]

pass_line-commands :
    (s : String) (b : Assistant)
    → ((pass_line true s b).running ≡ b.running)
      × ((pass_line true s b).commands ≡ b.commands ++ read_line (some s))
unfolding pass_line
pass_line-commands s b = elim (Bool-cases (str_eq s "")) [
  | inl e ↦ rw e (refl, sym (append-nil b.commands))
  | inr e ↦ rw e (refl, refl)
]

-- One turn in a daemon does not break, and passes its line.
abbrev pub Daemonic : Turn → Assistant → Assistant × Bool → Type 0
Daemonic t b next =
    (next.1 ≡ false) × (next.0.running ≡ true) × (next.0.commands ≡ b.commands ++ read_line t.line)

pub turn-daemon : (t : Turn) (b : Assistant) → b.running ≡ true → Daemonic t b (turn true t b)
unfolding turn takes_line
turn-daemon t b up =
    let now = arrive_all true t.waiting b in
    let before = arrive_all-Kept t.waiting b in
    elim t.line as (λ l. Daemonic (record t { line = l }) b (turn true (record t { line = l }) b)) [
      | none ↦
          let after = arrive_all-Kept t.behind now in
          (
            refl,
            after.running ∙ before.running ∙ up,
            after.commands ∙ before.commands ∙ sym (append-nil b.commands),
          )
      | some s ↦
          let passed = pass_line true s now in
          let after = arrive_all-Kept t.behind passed in
          let (running, commands) = pass_line-commands s now in
          if_holds (Daemonic (record t { line = some s }) b) now.running
            (arrive_all true t.behind passed, false) (now, true)
            (λ _. (
              refl,
              after.running ∙ running ∙ before.running ∙ up,
              after.commands ∙ commands ∙ ap (λ l. l ++ read_line (some s)) before.commands,
            ))
            (λ e. false-true (before.running ∙ up) e)
    ]
