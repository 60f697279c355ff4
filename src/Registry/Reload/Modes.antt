-- ===== src/Registry/Reload/Modes.antt =====
-- Buckey::reload of src/core/Buckey.cpp on the modes.
use buckey.Common.{
  ◌≡◌, refl, ◌⊎◌, inl, inr, true, false, Option, none, some, [], arith, if◌then◌else◌, Option-cases,
  String, str_eq, str_eq_refl,
}
use buckey.Registry.{
  ◌&◌, ServiceState, running, ModeState, started, stopped, Hub, log_info, Part, KeepsName, Entry,
  find, Core,
}
use buckey.Registry.Entries.{changed, find-act_on}
use buckey.Registry.Services.{start_service, stop_service}
use buckey.Registry.Modes.{
  found_mode_state, starting_mode, stopping_mode, start_mode, stop_mode, starting_mode-keeps,
  stopping_mode-keeps, get_mode_state,
}
use buckey.Registry.Listing.{list_services_in_state, list_modes_in_state, same_mode_state}
use buckey.Registry.Reload.{Restarts, reload, each_keeps, each_reaches, among, among-names_where}

module _ {H X : Type 0} {S : Part ServiceState (Hub H X)} {M : Part ModeState (Hub H X)}
    (KM : KeepsName M) (R : Restarts S M) (j : String) where
  abbrev pub Started : Core H X S M → Type 0
  Started b = get_mode_state j b ≡ started

  abbrev pub Startable : Core H X S M → Type 0
  Startable b = (get_mode_state j b ≡ started) ⊎ (get_mode_state j b ≡ stopped)

  starting_mode-Started :
      (e : Entry M) (h : Hub H X)
      → (M.state e.1 ≡ started) ⊎ (M.state e.1 ≡ stopped)
      → M.state (starting_mode M e h).0.1 ≡ started
  unfolding starting_mode
  starting_mode-Started (on, m) h q =
      ground (arith, R.mode_starts m (log_info ("Starting mode " & M.name m) h))

  stopping_mode-Startable :
      (e : Entry M) (h : Hub H X)
      → (M.state e.1 ≡ started) ⊎ (M.state e.1 ≡ stopped)
      → M.state (stopping_mode M e h).0.1 ≡ stopped
  unfolding stopping_mode
  stopping_mode-Startable (on, m) h q =
      ground (arith, R.mode_stops m (log_info ("Stopping mode " & M.name m) h))

  abbrev Up : Option (Entry M) → Type 0
  Up o = (found_mode_state M o ≡ started) ⊎ (found_mode_state M o ≡ stopped)

  starting_mode-changed :
      (o : Option (Entry M)) (h : Hub H X)
      → Up o
      → found_mode_state M (changed M (starting_mode M) h o) ≡ started
  starting_mode-changed none h (inl q) = cc
  starting_mode-changed none h (inr q) = cc
  starting_mode-changed (some e) h u = starting_mode-Started e h u

  stopping_mode-changed :
      (o : Option (Entry M)) (h : Hub H X) → Up o → Up (changed M (stopping_mode M) h o)
  stopping_mode-changed none h (inl q) = cc
  stopping_mode-changed none h (inr q) = cc
  stopping_mode-changed (some e) h u = inr (stopping_mode-Startable e h u)

  start_mode-Startable : (k : String) (b : Core H X S M) → Startable b → Startable (start_mode k b)
  unfolding start_mode get_mode_state
  start_mode-Startable k b h =
      rw (find-act_on M k j (starting_mode M) b.modes b.hub (starting_mode-keeps KM))
        (elim (str_eq k j)
          as (λ t. Up (
            if t then changed M (starting_mode M) b.hub (find M j b.modes) else find M j b.modes)) [
              | true ↦ inl (starting_mode-changed (find M j b.modes) b.hub h)
              | false ↦ h
            ])

  pub stop_mode-Startable :
      (k : String) (b : Core H X S M) → Startable b → Startable (stop_mode k b)
  unfolding stop_mode get_mode_state
  stop_mode-Startable k b h =
      rw (find-act_on M k j (stopping_mode M) b.modes b.hub (stopping_mode-keeps KM))
        (elim (str_eq k j)
          as (λ t. Up (
            if t then changed M (stopping_mode M) b.hub (find M j b.modes) else find M j b.modes)) [
              | true ↦ stopping_mode-changed (find M j b.modes) b.hub h
              | false ↦ h
            ])

  pub start_mode-makes : (b : Core H X S M) → Startable b → Started (start_mode j b)
  unfolding start_mode get_mode_state
  start_mode-makes b h =
      rw (find-act_on M j j (starting_mode M) b.modes b.hub (starting_mode-keeps KM), str_eq_refl j)
        (starting_mode-changed (find M j b.modes) b.hub h)

  start_mode-stays : (k : String) (b : Core H X S M) → Started b → Started (start_mode k b)
  unfolding start_mode get_mode_state
  start_mode-stays k b h =
      rw (find-act_on M k j (starting_mode M) b.modes b.hub (starting_mode-keeps KM))
        (elim (str_eq k j)
          as (λ t.
            found_mode_state M
              (if t then changed M (starting_mode M) b.hub (find M j b.modes) else find M j b.modes)
            ≡ started) [
              | true ↦ starting_mode-changed (find M j b.modes) b.hub (inl h)
              | false ↦ h
            ])

  Started-among : (b : Core H X S M) → Started b → among j (list_modes_in_state [] started b) ≡ true
  unfolding get_mode_state list_modes_in_state
  Started-among b h = elim (Option-cases (find M j b.modes)) [
    | inl q ↦ ground arith
    | inr (e, q) ↦
        among-names_where M (λ e. same_mode_state (M.state e.1) started) j b.modes e q
          (ground arith)
  ]

  pub same_modes-Started : (b c : Core H X S M) → c.modes ≡ b.modes → Started b → Started c
  unfolding get_mode_state
  same_modes-Started b c e h = rw e h

  same_modes-Startable : (b c : Core H X S M) → c.modes ≡ b.modes → Startable b → Startable c
  unfolding get_mode_state
  same_modes-Startable b c e h = rw e h

  services_start-Startable :
      (k : String) (b : Core H X S M) → Startable b → Startable (start_service k b)
  unfolding start_service
  services_start-Startable k b h = same_modes-Startable b _ refl h

  services_stop-Startable :
      (k : String) (b : Core H X S M) → Startable b → Startable (stop_service k b)
  unfolding stop_service
  services_stop-Startable k b h = same_modes-Startable b _ refl h

  -- A mode that is started before a reload is started after it, if start brings a mode into the state
  -- STARTED, stop brings it into STOPPED, and no method of a mode renames it.
  pub reload-Started :
      (b : Core H X S M) → get_mode_state j b ≡ started → get_mode_state j (reload b) ≡ started
  unfolding reload
  reload-Started b0 h0 =
      let b = record b0 {
        hub = log_info "Asked to reload, reloading all running services and modes..." b0.hub;
      } in
      let h : Started b = same_modes-Started b0 b refl h0 in
      let services = list_services_in_state [] running b in
      let modes = list_modes_in_state [] started b in
      let stopped_modes = each_keeps stop_mode Startable stop_mode-Startable modes b (inl h) in
      let stopped_all =
        each_keeps stop_service Startable services_stop-Startable services _ stopped_modes in
      let started_services =
        each_keeps start_service Startable services_start-Startable services _ stopped_all in
      each_reaches start_mode Startable Started j start_mode-Startable start_mode-makes
        start_mode-stays modes _ started_services (Started-among b h)
