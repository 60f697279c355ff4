-- ===== src/Registry/Shutdown.antt =====
-- The destructor of Buckey in src/core/Buckey.cpp on its services and modes: what it saves, and what it
-- stops. Joining threads, closing handles and freeing objects are left out.
use buckey.Common.{◌≡◌, refl, sym, ap, Bool, false, List, [], ◌∷◌, ◌++◌, if◌then◌else◌, if_holds}
use Prim.Native.Char.{Char}
use buckey.Registry.{
  ServiceState, running, ModeState, started, ◌&◌, Hub, Part, Entry, names_where, Core,
}
use buckey.Registry.Listing.{
  list_services_in_state, list_modes_in_state, list_enabled_services, list_enabled_modes,
  same_service_state, same_mode_state,
}
use buckey.Registry.Saved.{write_names, save_services, save_modes}

module _ {State W : Type 0} (P : Part State W) (up : State → Bool) where
  -- Every object that is up is stopped, in order.
  unfoldable pub stop_started : List (Entry P) → W → List (Entry P) × W
  stop_started [] w = ([], w)
  stop_started ((on, s) ∷ es) w =
      let (s', w') = if up (P.state s) then P.stop s w else (s, w) in
      let (rest, last) = stop_started es w' in ((on, s') ∷ rest, last)

  -- stop takes an object down and does not rename it.
  abbrev pub Stops : Type 0
  Stops =
      (s : P.Self) (w : W)
      → (up (P.state (P.stop s w).0) ≡ false) × (P.name (P.stop s w).0 ≡ P.name s)

  stopped-one :
      (stops : Stops) (s : P.Self) (w : W)
      → (up (P.state (if up (P.state s) then P.stop s w else (s, w)).0) ≡ false)
        × (P.name (if up (P.state s) then P.stop s w else (s, w)).0 ≡ P.name s)
  stopped-one stops s w =
      if_holds (λ (r : P.Self × W). (up (P.state r.0) ≡ false) × (P.name r.0 ≡ P.name s))
        (up (P.state s)) (P.stop s w) (s, w) (λ _. stops s w) (λ e. (e, refl))

  pub stopped-down :
      (stops : Stops) (es : List (Entry P)) (w : W)
      → names_where P (λ e. up (P.state e.1)) (stop_started es w).0 ≡ []
  unfolding stop_started names_where
  stopped-down stops [] w = refl
  stopped-down stops ((on, s) ∷ es) w =
      rw ((stopped-one stops s w).0)
        (stopped-down stops es (if up (P.state s) then P.stop s w else (s, w)).1)

  pub stopped-flags :
      (stops : Stops) (es : List (Entry P)) (w : W)
      → names_where P (λ e. e.0) (stop_started es w).0 ≡ names_where P (λ e. e.0) es
  unfolding stop_started names_where
  stopped-flags stops [] w = refl
  stopped-flags stops ((on, s) ∷ es) w = λ i.
      if on
      then (stopped-one stops s w).1 i
        ∷ stopped-flags stops es (if up (P.state s) then P.stop s w else (s, w)).1 i
      else stopped-flags stops es (if up (P.state s) then P.stop s w else (s, w)).1 i

abbrev pub is_running : ServiceState → Bool
is_running v = same_service_state v running

abbrev pub is_started : ModeState → Bool
is_started v = same_mode_state v started

module _ {H X : Type 0} {S : Part ServiceState (Hub H X)} {M : Part ModeState (Hub H X)} where
  -- The two files, and what is left. The files are written before anything is stopped.
  unfoldable pub shutdown : Char → Core H X S M → (List Char × List Char) × Core H X S M
  unfolding stop_started
  shutdown nl b =
      let hub = record b.hub {
        log = b.hub.log ++ ("DEBUG: " & "Received kill request. Deconstructing." & "\n") ∷ [];
      } in
      let (modes, between) = stop_started M is_started b.modes hub in
      let (services, last) = stop_started S is_running b.services between in
      (
        (save_services nl b, save_modes nl b),
        record { services = services; modes = modes; hub = last },
      )

  -- Behind the destructor no service runs and no mode is started, what is enabled is what was enabled,
  -- in the same order, and the two files list exactly that, if stop takes each service and each mode
  -- down and does not rename it.
  pub shutdown-quiet :
      (nl : Char) (b : Core H X S M)
      → Stops S is_running
      → Stops M is_started
      → let (files, left) = shutdown nl b in
        (list_services_in_state [] running left ≡ [])
        × (list_modes_in_state [] started left ≡ [])
        × (list_enabled_services [] left ≡ list_enabled_services [] b)
        × (list_enabled_modes [] left ≡ list_enabled_modes [] b)
        × (files.0 ≡ write_names nl (list_enabled_services [] left))
        × (files.1 ≡ write_names nl (list_enabled_modes [] left))
  unfolding shutdown save_services save_modes list_services_in_state list_modes_in_state
      list_enabled_services list_enabled_modes
  shutdown-quiet nl b ss ms =
      let hub = record b.hub {
        log = b.hub.log ++ ("DEBUG: " & "Received kill request. Deconstructing." & "\n") ∷ [];
      } in
      let between = (stop_started M is_started b.modes hub).1 in
      let services = stopped-flags S is_running ss b.services between in
      let modes = stopped-flags M is_started ms b.modes hub in
      (
        stopped-down S is_running ss b.services between,
        stopped-down M is_started ms b.modes hub,
        services,
        modes,
        ap (write_names nl) (sym services),
        ap (write_names nl) (sym modes),
      )
