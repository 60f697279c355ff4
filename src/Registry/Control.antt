-- ===== src/Registry/Control.antt =====
-- What enabling, starting, reloading, disabling and stopping a service do to the list of services.
use buckey.Common.{
  ◌≡◌, refl, inl, inr, Bool, true, false, Option, none, some, arith, if◌then◌else◌, Option-cases,
  String, str_eq,
}
use buckey.Registry.{ServiceState, ModeState, Hub, Part, KeepsName, Entry, find, act_on, Core}
use buckey.Registry.Entries.{names, KeepsEntryName, names-act_on, changed, find-act_on, hub-act_on}
use buckey.Registry.Services.{
  enabling, starting_up, reloading, disabling, stopping, on_service, enable_service, start_service,
  reload_service, disable_service, stop_service, enabling-keeps, starting_up-keeps, reloading-keeps,
  disabling-keeps, stopping-keeps,
}

-- The five operations on a registered service.
pub data Operation : Type 0 where
  enables starts reloads disables stops : Operation

-- What an operation makes of the flag "enabled on startup".
abbrev pub flag_after : Operation → Bool → Bool
flag_after enables on = true
flag_after disables on = false
flag_after op on = on

abbrev pub map_flag : (Bool → Bool) → Option Bool → Option Bool
map_flag f none = none
map_flag f (some on) = some (f on)

module _ {H X : Type 0} {S : Part ServiceState (Hub H X)} {M : Part ModeState (Hub H X)} where
  unfoldable pub perform : Operation → String → Core H X S M → Core H X S M
  perform enables k b = enable_service k b
  perform starts k b = start_service k b
  perform reloads k b = reload_service k b
  perform disables k b = disable_service k b
  perform stops k b = stop_service k b

  -- The flag of the first service with the name.
  pub flag : String → Core H X S M → Option Bool
  flag j b = elim (find S j b.services) [ none ↦ none | some (on, _) ↦ some on ]

  -- What an operation on the service k leaves as it was, and what it makes of the flags.
  pub record Performed (op : Operation) (k : String) (b c : Core H X S M) : Type 0 where
    pub same_names : names S c.services ≡ names S b.services
    pub same_modes : c.modes ≡ b.modes
    pub flags :
        (j : String)
        → flag j c ≡ (if str_eq k j then map_flag (flag_after op) (flag j b) else flag j b)
    pub others : (j : String) → str_eq k j ≡ false → find S j c.services ≡ find S j b.services
    pub unknown : find S k b.services ≡ none → c.hub ≡ b.hub

  module _ (f : Entry S → Hub H X → Entry S × Hub H X) (op : Operation) (keeps : KeepsEntryName S f)
      (sets : (e : Entry S) (h : Hub H X) → (f e h).0.0 ≡ flag_after op e.0) where
    flag-changed :
        (k j : String) (b : Core H X S M)
        → find S j (act_on S k f b.services b.hub).0
          ≡ (if str_eq k j then changed S f b.hub (find S j b.services) else find S j b.services)
        → flag j (on_service k f b)
          ≡ (if str_eq k j then map_flag (flag_after op) (flag j b) else flag j b)
    unfolding on_service flag
    flag-changed k j b e = elim (Option-cases (find S j b.services)) [
      | inl q ↦ rw (e, q, flag) (ground arith)
      | inr ((on, s), q) ↦ rw (e, q, flag) (ground (arith, sets (on, s) b.hub))
    ]

    on_service-Performed : (k : String) (b : Core H X S M) → Performed op k b (on_service k f b)
    unfolding on_service flag
    on_service-Performed k b = record {
      same_names = names-act_on S k f b.services b.hub keeps;
      same_modes = refl;
      flags = λ j. flag-changed k j b (find-act_on S k j f b.services b.hub keeps);
      others = λ j e. rw (find-act_on S k j f b.services b.hub keeps) (ground arith);
      unknown = λ e. rw (hub-act_on S k f b.services b.hub) (ground arith);
    }

  -- Each of the five operations changes at most the service of that name: the names, the modes and the
  -- other services stay, the flag becomes true by enabling, false by disabling and stays by the others,
  -- and if there is no such service nothing happens, no line of the log and no event either. No method
  -- of a service renames it.
  pub perform-Performed :
      (K : KeepsName S) (op : Operation) (k : String) (b : Core H X S M)
      → Performed op k b (perform op k b)
  unfolding perform enable_service start_service reload_service disable_service stop_service
  perform-Performed K enables k b =
      on_service-Performed (enabling S) enables (enabling-keeps K) (λ e h. refl) k b
  perform-Performed K starts k b =
      on_service-Performed (starting_up S) starts (starting_up-keeps K) (λ e h. refl) k b
  perform-Performed K reloads k b =
      on_service-Performed (reloading S) reloads (reloading-keeps K) (λ e h. refl) k b
  perform-Performed K disables k b =
      on_service-Performed (disabling S) disables (disabling-keeps K) (λ e h. refl) k b
  perform-Performed K stops k b =
      on_service-Performed (stopping S) stops (stopping-keeps K) (λ e h. refl) k b
