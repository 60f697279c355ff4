-- ===== src/Console/Commands/Protected.antt =====
-- What the spoken and typed commands of src/core/CoreMode.cpp can do to the mode that understands
-- them, and which command ends the program.
use buckey.Common.{
  ◌≡◌, refl, sym, ◌∙◌, subst, inl, inr, Bool, true, false, ◌||◌, Option, none, some, List, ◌∷◌,
  arith, if◌then◌else◌, Bool-cases, String, str_eq, str_eq_iff,
}
use buckey.Registry.{
  ServiceState, ModeState, started, Hub, Part, KeepsName, Entry, find, Core, conversation,
}
use buckey.Registry.Entries.{KeepsEntryName, changed, find-act_on}
use buckey.Registry.Services.{
  on_service, enable_service, start_service, reload_service, disable_service, stop_service,
}
use buckey.Registry.Modes.{
  on_mode, start_mode, stop_mode, enable_mode, disable_mode, reload_mode, get_mode_state,
  found_mode_state, starting_mode, stopping_mode, enabling_mode, disabling_mode,
  starting_mode-keeps, stopping_mode-keeps, enabling_mode-keeps, disabling_mode-keeps,
}
use buckey.Registry.Reload.{Restarts}
use buckey.Registry.Reload.Modes.{stop_mode-Startable, start_mode-makes, same_modes-Started}
use buckey.Console.{Desk, reply, request_stop, obey, obey_rest, input}
use buckey.Console.Replies.{reply-modes, reply-killed}
use buckey.Console.Commands.{Closed, obey-keeps}

module _ {H X : Type 0} (M : Part ModeState (Hub H X)) where
  changed-started :
      (f : Entry M → Hub H X → Entry M × Hub H X) (h : Hub H X)
      → ((e : Entry M) (h : Hub H X) → M.state e.1 ≡ started → M.state (f e h).0.1 ≡ started)
      → (o : Option (Entry M)) → found_mode_state M o ≡ started
      → found_mode_state M (changed M f h o) ≡ started
  changed-started f h stay none e = cc
  changed-started f h stay (some e) q = stay e h q

  starting_mode-started :
      (e : Entry M) (h : Hub H X)
      → M.state e.1 ≡ started
      → M.state (starting_mode M e h).0.1 ≡ started
  unfolding starting_mode
  starting_mode-started (on, m) h q = ground arith

  enabling_mode-started :
      (e : Entry M) (h : Hub H X)
      → M.state e.1 ≡ started
      → M.state (enabling_mode M e h).0.1 ≡ started
  unfolding enabling_mode
  enabling_mode-started (on, m) h q = ground arith

module _ {H X : Type 0} {S : Part ServiceState (Hub H X)} {M : Part ModeState (Hub H X)} where
  -- Operations on another mode.
  on_mode-other :
      (f : Entry M → Hub H X → Entry M × Hub H X) (k j : String) (b : Core H X S M)
      → KeepsEntryName M f
      → str_eq k j ≡ false
      → get_mode_state j (on_mode k f b) ≡ get_mode_state j b
  unfolding on_mode get_mode_state
  on_mode-other f k j b keeps e = rw (find-act_on M k j f b.modes b.hub keeps, e) refl

  -- An operation that leaves a started mode started.
  on_mode-started :
      (f : Entry M → Hub H X → Entry M × Hub H X) (k j : String) (b : Core H X S M)
      → KeepsEntryName M f
      → ((e : Entry M) (h : Hub H X) → M.state e.1 ≡ started → M.state (f e h).0.1 ≡ started)
      → get_mode_state j b ≡ started
      → get_mode_state j (on_mode k f b) ≡ started
  unfolding on_mode get_mode_state
  on_mode-started f k j b keeps stay h =
      rw (find-act_on M k j f b.modes b.hub keeps)
        (elim (str_eq k j)
          as (λ t.
            found_mode_state M
              (if t then changed M f b.hub (find M j b.modes) else find M j b.modes)
            ≡ started) [ true ↦ changed-started M f b.hub stay (find M j b.modes) h | false ↦ h ])

module _ {H X : Type 0} {S : Part ServiceState (Hub H X)} {M : Part ModeState (Hub H X)}
    (K : KeepsName M) (R : Restarts S M) where
  abbrev CoreUp : Desk H X S M → Type 0
  CoreUp b = get_mode_state "core" b.core ≡ started

  reload_mode-started :
      (k : String) (b : Core H X S M)
      → get_mode_state "core" b ≡ started
      → get_mode_state "core" (reload_mode k b) ≡ started
  unfolding reload_mode start_mode stop_mode
  reload_mode-started k b h = elim (Bool-cases (str_eq k "core")) [
    | inl q ↦
        subst (λ i. get_mode_state "core" (start_mode i (stop_mode i b)) ≡ started)
          (sym ((str_eq_iff k "core").0 q))
          (start_mode-makes K R "core" (stop_mode "core" b)
            (stop_mode-Startable K R "core" "core" b (inl h)))
    | inr q ↦
        on_mode-other (starting_mode M) k "core" (stop_mode k b) (starting_mode-keeps K) q
        ∙ (on_mode-other (stopping_mode M) k "core" b (stopping_mode-keeps K) q ∙ h)
  ]

  enable_mode-started :
      (k : String) (b : Core H X S M)
      → get_mode_state "core" b ≡ started
      → get_mode_state "core" (enable_mode k b) ≡ started
  unfolding enable_mode
  enable_mode-started k b h =
      on_mode-started (enabling_mode M) k "core" b (enabling_mode-keeps K) (enabling_mode-started M)
        h

  start_mode-started :
      (k : String) (b : Core H X S M)
      → get_mode_state "core" b ≡ started
      → get_mode_state "core" (start_mode k b) ≡ started
  unfolding start_mode
  start_mode-started k b h =
      on_mode-started (starting_mode M) k "core" b (starting_mode-keeps K) (starting_mode-started M)
        h

  CoreUp-Closed : Closed {S = S} {M = M} (λ b. get_mode_state "core" b.core ≡ started)
  unfolding on_service on_mode start_service reload_service enable_service stop_service
      disable_service stop_mode disable_mode
  CoreUp-Closed = record {
    replies = λ m t b h. same_modes-Started K R "core" b.core _ (reply-modes m t b) h;
    starts_mode = λ k b h. start_mode-started k b.core h;
    reloads_mode = λ k b h. reload_mode-started k b.core h;
    enables_mode = λ k b h. enable_mode-started k b.core h;
    stops_mode =
        λ k b e h. on_mode-other (stopping_mode M) k "core" b.core (stopping_mode-keeps K) e ∙ h;
    disables_mode =
        λ k b e h. on_mode-other (disabling_mode M) k "core" b.core (disabling_mode-keeps K) e ∙ h;
    starts_service = λ k b h. same_modes-Started K R "core" b.core _ refl h;
    reloads_service = λ k b h. same_modes-Started K R "core" b.core _ refl h;
    enables_service = λ k b h. same_modes-Started K R "core" b.core _ refl h;
    stops_service = λ k b h. same_modes-Started K R "core" b.core _ refl h;
    disables_service = λ k b h. same_modes-Started K R "core" b.core _ refl h;
  }

  -- No command takes the mode core down: a command of three tags or more is carried out, and if the
  -- mode core is started, it is started afterwards, whatever the tags say. No method of a mode renames
  -- it, start brings a mode into the state STARTED, and stop into STOPPED.
  pub input-core_stays :
      (action kind target : String) (tags : List String) (b : Desk H X S M)
      → get_mode_state "core" b.core ≡ started
      → (c : Desk H X S M) × (input (action ∷ kind ∷ target ∷ tags) b ≡ some c)
        × (get_mode_state "core" c.core ≡ started)
  unfolding input obey_rest request_stop
  input-core_stays action kind target tags b h = elim (Bool-cases (str_eq action "quit")) [
    | inl q ↦ (
      request_stop (reply "Goodbye" conversation b),
      rw q refl,
      CoreUp-Closed.replies "Goodbye" conversation b h,
    )
    | inr q ↦
        (obey action kind target b, rw q refl, obey-keeps _ CoreUp-Closed action kind target b h)
  ]

module _ {H X : Type 0} {S : Part ServiceState (Hub H X)} {M : Part ModeState (Hub H X)} where
  killed-Closed : (v : Bool) → Closed {S = S} {M = M} (λ b. b.killed ≡ v)
  killed-Closed v = record {
    replies = λ m t b h. reply-killed m t b ∙ h;
    starts_mode = λ k b h. h;
    reloads_mode = λ k b h. h;
    enables_mode = λ k b h. h;
    stops_mode = λ k b e h. h;
    disables_mode = λ k b e h. h;
    starts_service = λ k b h. h;
    reloads_service = λ k b h. h;
    enables_service = λ k b h. h;
    stops_service = λ k b h. h;
    disables_service = λ k b h. h;
  }

  -- The action quit sets the flag killed, and no other command of three tags or more
  -- does: it leaves the flag killed as it was.
  pub input-killed :
      (action kind target : String) (tags : List String) (b : Desk H X S M)
      → (c : Desk H X S M) × (input (action ∷ kind ∷ target ∷ tags) b ≡ some c)
        × (c.killed ≡ (str_eq action "quit" || b.killed))
  unfolding input obey_rest request_stop
  input-killed action kind target tags b = elim (Bool-cases (str_eq action "quit")) [
    | inl q ↦ (request_stop (reply "Goodbye" conversation b), rw q refl, rw q refl)
    | inr q ↦ (
      obey action kind target b,
      rw q refl,
      rw q (obey-keeps _ (killed-Closed b.killed) action kind target b refl),
    )
  ]
