-- ===== src/Startup/Precedence.antt =====
-- The options of src/main.cpp: what a command line asks for, and the option -i, which getopt is not told of.
use buckey.Common.{
  ℕ, ◌≡◌, refl, sym, ap, ◌∙◌, subst, ◌≢◌, ◌⊎◌, inl, inr, Bool, true, false, not, ◌&&◌, ◌||◌, Option,
  none, List, [], ◌∷◌, arith, ◌==◌, if◌then◌else◌, Bool-cases, Option-cases, All, String,
}
use buckey.Startup.{
  Disk, Getopt, Arg, Options, Machine, main_with, main, read_options, no_options, chosen, refused,
  left, bad_option, option_letters, choose, Choice,
}

-- The letters before a colon have a value.
abbrev pub is_option : ℕ → List ℕ → Bool
is_option c [] = false
is_option c (l ∷ ls) = (c == l && not (c == b':')) || is_option c ls

abbrev pub wants_value : ℕ → List ℕ → Bool
wants_value c [] = false
wants_value c (l ∷ []) = false
wants_value c (l ∷ m ∷ ls) = (c == l && m == b':') || wants_value c (m ∷ ls)

-- What getopt promises: it returns the letter of an option that it was told of, with its value if it
-- wants one, and else a question mark.
pub record IsGetopt (getopt : Getopt) : Type 0 where
  pub known :
      (ls : List ℕ) (a : Arg)
      → is_option a.letter ls ≡ true
      → (wants_value a.letter ls ≡ true → a.value ≢ none)
      → getopt ls a ≡ a.letter
  pub valueless :
      (ls : List ℕ) (a : Arg) → wants_value a.letter ls ≡ true → a.value ≡ none → getopt ls a ≡ b'?'
  pub unknown : (ls : List ℕ) (a : Arg) → is_option a.letter ls ≡ false → getopt ls a ≡ b'?'

abbrev pub given : ℕ → List Arg → Bool
given c [] = false
given c (a ∷ args) = a.letter == c || given c args

-- The letter is that of an option, and it has a value if it wants one.
abbrev pub IsGood : Arg → Type 0
IsGood a =
    (is_option a.letter option_letters ≡ true)
    × (wants_value a.letter option_letters ≡ true → a.value ≢ none)

-- The last command that is given.
abbrev pub last_command : Option String → List Arg → Option String
last_command before [] = before
last_command before (a ∷ args) = last_command (if a.letter == b'c' then a.value else before) args

abbrev pub asked : Options → List Arg → Options
asked o args = record {
  make_daemon = o.make_daemon || given b'd' args;
  show_help = o.show_help || given b'h' args;
  show_version = o.show_version || given b'v' args;
  show_status = o.show_status || given b's' args;
  execute_command = o.execute_command || given b'c' args;
  execute_input = o.execute_input;
  command = last_command o.command args;
}

option-cases :
    (c : ℕ)
    → is_option c option_letters ≡ true
    → (c ≡ b'd') ⊎ (c ≡ b'h') ⊎ (c ≡ b'v') ⊎ (c ≡ b's') ⊎ (c ≡ b'c')
option-cases c h = ground arith

-- The options behind an argument that is good.
abbrev Chooses : ℕ → Option String → List Arg → Options → Type 0
Chooses c v args o =
    (o' : Options) × (choose c v o ≡ chosen o')
    × (asked o (record { letter = c; value = v } ∷ args) ≡ asked o' args)

or-true : (a b : Bool) → (a || (true || b)) ≡ (true || b)
or-true true b = refl
or-true false b = refl

or-false : (a : Bool) → a ≡ (a || false)
or-false true = refl
or-false false = refl

choose-good :
    (c : ℕ) (v : Option String) (args : List Arg) (o : Options)
    → is_option c option_letters ≡ true
    → Chooses c v args o
unfolding choose
choose-good c v args o h = elim (option-cases c h) [
  | inl e ↦
      subst (λ c. Chooses c v args o) (sym e)
        (
          record o { make_daemon = true },
          refl,
          ap (λ t. record (asked o args) { make_daemon = t })
              (or-true o.make_daemon (given b'd' args)),
        )
  | inr (inl e) ↦
      subst (λ c. Chooses c v args o) (sym e)
        (
          record o { show_help = true },
          refl,
          ap (λ t. record (asked o args) { show_help = t }) (or-true o.show_help (given b'h' args)),
        )
  | inr (inr (inl e)) ↦
      subst (λ c. Chooses c v args o) (sym e)
        (
          record o { show_version = true },
          refl,
          ap (λ t. record (asked o args) { show_version = t })
              (or-true o.show_version (given b'v' args)),
        )
  | inr (inr (inr (inl e))) ↦
      subst (λ c. Chooses c v args o) (sym e)
        (
          record o { show_status = true },
          refl,
          ap (λ t. record (asked o args) { show_status = t })
              (or-true o.show_status (given b's' args)),
        )
  | inr (inr (inr (inr e))) ↦
      subst (λ c. Chooses c v args o) (sym e)
        (
          record o { execute_command = true; command = v },
          refl,
          ap (λ t. record (asked (record o { command = v }) args) { execute_command = t })
              (or-true o.execute_command (given b'c' args)),
        )
]

module _ {getopt : Getopt} (lawful : IsGetopt getopt) where
  read_options-good :
      (args : List Arg) (o : Options)
      → All IsGood args
      → read_options getopt args o ≡ chosen (asked o args)
  unfolding read_options
  read_options-good [] o h = λ i. chosen (record {
    make_daemon = or-false o.make_daemon i;
    show_help = or-false o.show_help i;
    show_version = or-false o.show_version i;
    show_status = or-false o.show_status i;
    execute_command = or-false o.execute_command i;
    execute_input = o.execute_input;
    command = o.command;
  })
  read_options-good (a ∷ args) o h =
      let (o', chooses, same) = choose-good a.letter a.value args o h.0.0 in
      let go = λ (c : Choice). elim c as (λ _. Choice) [
        | chosen o' ↦ read_options getopt args o'
        | refused ↦ refused
        | left ↦ left
      ] in
      ap (λ c. go (choose c a.value o)) (lawful.known option_letters a h.0.0 h.0.1)
      ∙ ap go chooses
      ∙ read_options-good args o' h.1
      ∙ ap chosen (sym same)

  -- The answer of getopt is a letter that the program knows, or a question mark.
  choose-not-left :
      (a : Arg) (o : Options)
      → ((o' : Options) × (choose (getopt option_letters a) a.value o ≡ chosen o'))
        ⊎ (choose (getopt option_letters a) a.value o ≡ refused)
  unfolding choose
  choose-not-left a o =
      let Q = λ (c : ℕ).
        ((o' : Options) × (choose c a.value o ≡ chosen o')) ⊎ (choose c a.value o ≡ refused) in
      elim (Bool-cases (is_option a.letter option_letters)) [
        | inr e ↦ subst Q (sym (lawful.unknown option_letters a e)) (inr refl)
        | inl e ↦ elim (Bool-cases (wants_value a.letter option_letters)) [
          | inl w ↦ elim (Option-cases a.value) [
            | inl n ↦ subst Q (sym (lawful.valueless option_letters a w n)) (inr refl)
            | inr (v, n) ↦
                subst Q (sym (lawful.known option_letters a e (λ _ m. absurd (cc)))) (
                  let (o', chooses, same) = choose-good a.letter a.value [] o e in
                  inl (o', chooses))
          ]
          | inr w ↦
              subst Q (sym (lawful.known option_letters a e (λ f. absurd (cc))))
                (let (o', chooses, same) = choose-good a.letter a.value [] o e in inl (o', chooses))
        ]
      ]

  read_options-input :
      (args : List Arg) (o : Options)
      → given b'i' args ≡ true
      → read_options getopt args o ≡ refused
  unfolding read_options choose
  read_options-input [] o h = absurd (cc)
  read_options-input (a ∷ args) o h =
      let go = λ (c : Choice). elim c as (λ _. Choice) [
        | chosen o' ↦ read_options getopt args o'
        | refused ↦ refused
        | left ↦ left
      ] in
      elim (Bool-cases (a.letter == b'i')) [
        | inl e ↦
            let other : is_option a.letter option_letters ≡ false = ground (arith, e) in
            ap (λ c. go (choose c a.value o)) (lawful.unknown option_letters a other)
        | inr e ↦
            let later : given b'i' args ≡ true = subst (λ t. (t || given b'i' args) ≡ true) e h in
            elim (choose-not-left a o) [
              | inl (o', c) ↦ ap go c ∙ read_options-input args o' later
              | inr c ↦ ap go c
            ]
      ]

  module _ (K : Disk) where
    -- If every option is one that getopt is told of, with a value for -c, then main goes by whether each
    -- letter is given, in whatever order and how often, and by the last value of -c, if getopt keeps its
    -- promises.
    pub main-good :
        (default : String) (m : Machine) (args : List Arg) (fs : K.Files)
        → All IsGood args
        → main K getopt default m args fs ≡ main_with K default m (asked no_options args) fs
    unfolding main
    main-good default m args fs h = rw (read_options-good args no_options h, main) refl

    -- A command line with the option -i, which the usage text offers, is refused as one with an unknown
    -- option, whatever else is on it, and no file is touched, if getopt keeps its promises.
    pub main-input_refused :
        (default : String) (m : Machine) (args : List Arg) (fs : K.Files)
        → given b'i' args ≡ true
        → main K getopt default m args fs ≡ (bad_option, fs)
    unfolding main
    main-input_refused default m args fs h = rw (read_options-input args no_options h, main) refl
