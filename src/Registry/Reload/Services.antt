-- ===== src/Registry/Reload/Services.antt =====
-- Buckey::reload of src/core/Buckey.cpp on the services.
use buckey.Common.{
  ◌≡◌, refl, inl, inr, true, false, Option, none, some, [], arith, if◌then◌else◌, Option-cases,
  String, str_eq, str_eq_refl,
}
use buckey.Registry.{
  ServiceState, running, ModeState, started, Hub, log_info, Part, KeepsName, Entry, find, Core,
}
use buckey.Registry.Entries.{changed, find-act_on}
use buckey.Registry.Services.{
  found_state, starting_up, stopping, start_service, stop_service, starting_up-keeps,
  stopping-keeps, get_service_state,
}
use buckey.Registry.Modes.{start_mode, stop_mode}
use buckey.Registry.Listing.{list_services_in_state, list_modes_in_state, same_service_state}
use buckey.Registry.Reload.{
  Restarts, reload, each_keeps, each_reaches, is_none, among, among-names_where,
}

module _ {H X : Type 0} {S : Part ServiceState (Hub H X)} {M : Part ModeState (Hub H X)}
    (KS : KeepsName S) (R : Restarts S M) (j : String) where
  abbrev Known : Core H X S M → Type 0
  Known b = is_none (find S j b.services) ≡ false

  abbrev Runs : Core H X S M → Type 0
  Runs b = get_service_state j b ≡ running

  stop_service-Known : (k : String) (b : Core H X S M) → Known b → Known (stop_service k b)
  unfolding stop_service
  stop_service-Known k b h =
      ground (arith, find-act_on S k j (stopping S) b.services b.hub (stopping-keeps KS))

  start_service-Known : (k : String) (b : Core H X S M) → Known b → Known (start_service k b)
  unfolding start_service
  start_service-Known k b h =
      ground (arith, find-act_on S k j (starting_up S) b.services b.hub (starting_up-keeps KS))

  starting_up-Runs :
      (o : Option (Entry S)) (h : Hub H X)
      → is_none o ≡ false
      → found_state S (changed S (starting_up S) h o) ≡ running
  starting_up-Runs none h q = cc
  starting_up-Runs (some (on, s)) h q = R.service_runs s _

  start_service-Runs : (b : Core H X S M) → Known b → Runs (start_service j b)
  unfolding start_service get_service_state
  start_service-Runs b h =
      rw (find-act_on S j j (starting_up S) b.services b.hub (starting_up-keeps KS), str_eq_refl j)
        (starting_up-Runs (find S j b.services) b.hub h)

  Runs-Known : (b : Core H X S M) → Runs b → Known b
  unfolding get_service_state
  Runs-Known b h = ground arith

  start_service-stays : (k : String) (b : Core H X S M) → Runs b → Runs (start_service k b)
  unfolding start_service get_service_state
  start_service-stays k b h =
      rw (find-act_on S k j (starting_up S) b.services b.hub (starting_up-keeps KS))
        (elim (str_eq k j)
          as (λ t.
            found_state S (
              if t
              then changed S (starting_up S) b.hub (find S j b.services)
              else find S j b.services)
            ≡ running) [
              | true ↦ starting_up-Runs (find S j b.services) b.hub (Runs-Known b h)
              | false ↦ h
            ])

  Runs-among : (b : Core H X S M) → Runs b → among j (list_services_in_state [] running b) ≡ true
  unfolding get_service_state list_services_in_state
  Runs-among b h = elim (Option-cases (find S j b.services)) [
    | inl q ↦ ground arith
    | inr (e, q) ↦
        among-names_where S (λ e. same_service_state (S.state e.1) running) j b.services e q
          (ground arith)
  ]

  same_services-Runs : (b c : Core H X S M) → c.services ≡ b.services → Runs b → Runs c
  unfolding get_service_state
  same_services-Runs b c e h = rw e h

  modes_start-Runs : (k : String) (b : Core H X S M) → Runs b → Runs (start_mode k b)
  unfolding start_mode
  modes_start-Runs k b h = same_services-Runs b _ refl h

  modes_stop-Known : (k : String) (b : Core H X S M) → Known b → Known (stop_mode k b)
  unfolding stop_mode
  modes_stop-Known k b h = h

  -- A service that runs before a reload runs after it, if start brings a service into the state
  -- RUNNING and no method of a service renames it.
  pub reload-Runs :
      (b : Core H X S M)
      → get_service_state j b ≡ running
      → get_service_state j (reload b) ≡ running
  unfolding reload
  reload-Runs b0 h0 =
      let b = record b0 {
        hub = log_info "Asked to reload, reloading all running services and modes..." b0.hub;
      } in
      let h : Runs b = same_services-Runs b0 b refl h0 in
      let services = list_services_in_state [] running b in
      let modes = list_modes_in_state [] started b in
      let stopped_modes = each_keeps stop_mode Known modes_stop-Known modes b (Runs-Known b h) in
      let stopped_all = each_keeps stop_service Known stop_service-Known services _ stopped_modes in
      each_keeps start_mode Runs modes_start-Runs modes _ (
        each_reaches start_service Known Runs j start_service-Known start_service-Runs
          start_service-stays services _ stopped_all (Runs-among b h))
