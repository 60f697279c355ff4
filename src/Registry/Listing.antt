-- ===== src/Registry/Listing.antt =====
-- The list methods of src/core/Buckey.cpp, which push names into an output vector.
use mathlib.Core.List.{Perm, perm_middle}
use mathlib.Core.List.Perm
use buckey.Common.{inl, inr, Bool, true, false, not, List, [], ◌∷◌, ◌++◌, Bool-cases, String}
use buckey.Registry.{
  ServiceState, running, starting, stopped, error, service_not_registered, ModeState, started,
  not_loaded, Hub, Part, Entry, names_where, Core,
}

abbrev pub same_service_state : ServiceState → ServiceState → Bool
same_service_state running running = true
same_service_state starting starting = true
same_service_state stopped stopped = true
same_service_state error error = true
same_service_state service_not_registered service_not_registered = true
same_service_state _ _ = false

abbrev pub same_mode_state : ModeState → ModeState → Bool
same_mode_state started started = true
same_mode_state stopped stopped = true
same_mode_state error error = true
same_mode_state not_loaded not_loaded = true
same_mode_state _ _ = false

module _ {H X : Type 0} {S : Part ServiceState (Hub H X)} {M : Part ModeState (Hub H X)} where
  unfoldable pub list_enabled_services : List String → Core H X S M → List String
  list_enabled_services output b = output ++ names_where S (λ e. e.0) b.services

  unfoldable pub list_disabled_services : List String → Core H X S M → List String
  list_disabled_services output b = output ++ names_where S (λ e. not e.0) b.services

  unfoldable pub list_services : List String → Core H X S M → List String
  list_services output b = output ++ names_where S (λ e. true) b.services

  unfoldable pub list_services_in_state : List String → ServiceState → Core H X S M → List String
  list_services_in_state output v b =
      output ++ names_where S (λ e. same_service_state (S.state e.1) v) b.services

  unfoldable pub list_enabled_modes : List String → Core H X S M → List String
  list_enabled_modes output b = output ++ names_where M (λ e. e.0) b.modes

  unfoldable pub list_disabled_modes : List String → Core H X S M → List String
  list_disabled_modes output b = output ++ names_where M (λ e. not e.0) b.modes

  unfoldable pub list_modes : List String → Core H X S M → List String
  list_modes output b = output ++ names_where M (λ e. true) b.modes

  unfoldable pub list_modes_in_state : List String → ModeState → Core H X S M → List String
  list_modes_in_state output v b =
      output ++ names_where M (λ e. same_mode_state (M.state e.1) v) b.modes

module _ {State W : Type 0} (P : Part State W) where
  names_where-perm :
      (p : Entry P → Bool) (es : List (Entry P))
      → Perm
          (names_where P p es ++ names_where P (λ e. not (p e)) es)
          (names_where P (λ e. true) es)
  unfolding names_where
  names_where-perm p [] = Perm.nil
  names_where-perm p (e ∷ es) = elim (Bool-cases (p e)) [
    | inl q ↦ rw (q, names_where) (Perm.cons _ (names_where-perm p es))
    | inr q ↦
        rw (q, names_where)
          (Perm.trans (perm_middle (names_where P p es) (names_where P (λ e. not (p e)) es))
            (Perm.cons _ (names_where-perm p es)))
  ]

module _ {H X : Type 0} {S : Part ServiceState (Hub H X)} {M : Part ModeState (Hub H X)} where
  -- The enabled services and the disabled ones together are the registered services, each as often,
  -- and the same of the modes.
  pub list_enabled-perm :
      (b : Core H X S M)
      → Perm (list_enabled_services [] b ++ list_disabled_services [] b) (list_services [] b)
        × Perm (list_enabled_modes [] b ++ list_disabled_modes [] b) (list_modes [] b)
  unfolding list_enabled_services list_disabled_services list_services list_enabled_modes
      list_disabled_modes list_modes
  list_enabled-perm b =
      (names_where-perm S (λ e. e.0) b.services, names_where-perm M (λ e. e.0) b.modes)
