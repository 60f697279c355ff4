-- ===== src/Registry/Reload.antt =====
-- Buckey::reload of src/core/Buckey.cpp: all running services and modes are stopped and started again.
pub mod Services
pub mod Modes
use buckey.Common.{
  ℕ, zero, suc, ◌+◌, ◌-◌, ◌*◌, ◌/◌, ◌%◌, ◌^◌, ◌≤◌, ◌<◌, ◌≡◌, refl, sym, ap, ◌∙◌, subst, ◌≢◌, ◌↔◌,
  ◌⊎◌, inl, inr, Bool, true, false, not, ◌&&◌, ◌||◌, Option, none, some, List, [], ◌∷◌, ◌++◌, map,
  append-nil, append_assoc, arith, ltb, leb, ◌==◌, if◌then◌else◌, Bool-cases, Option-cases, length,
  get_elem?, set, take, drop, concat, length-append, drop-length-append, All, All-append, String,
  str_eq, str_eq_iff, str_eq_refl,
}
use buckey.Registry.{
  ◌&◌, ServiceState, running, ModeState, started, stopped, Hub, log_info, Part, Entry, find,
  names_where, Core,
}
use buckey.Registry.Services.{start_service, stop_service}
use buckey.Registry.Modes.{start_mode, stop_mode}
use buckey.Registry.Listing.{list_services_in_state, list_modes_in_state}

module _ {H X : Type 0} {S : Part ServiceState (Hub H X)} {M : Part ModeState (Hub H X)} where
  -- A loop over names.
  unfoldable pub each :
      (String → Core H X S M → Core H X S M) → List String → Core H X S M → Core H X S M
  each f [] b = b
  each f (k ∷ ks) b = each f ks (f k b)

  unfoldable pub reload : Core H X S M → Core H X S M
  unfolding each
  reload b0 =
      let b = record b0 {
        hub = log_info "Asked to reload, reloading all running services and modes..." b0.hub;
      } in
      let modes_running = list_modes_in_state [] started b in
      let services_running = list_services_in_state [] running b in
      each start_mode modes_running (
        each start_service services_running
          (each stop_service services_running (each stop_mode modes_running b)))

-- The conventions of the classes: start brings an object up, and stop takes a mode down.
pub record Restarts {H X : Type 0} (S : Part ServiceState (Hub H X)) (M : Part ModeState (Hub H X))
    : Type 0 where
  pub service_runs : (s : S.Self) (h : Hub H X) → S.state (S.start s h).0 ≡ running
  pub mode_starts : (m : M.Self) (h : Hub H X) → M.state (M.start m h).0 ≡ started
  pub mode_stops : (m : M.Self) (h : Hub H X) → M.state (M.stop m h).0 ≡ stopped

abbrev pub is_none {ℓ} : {A : Type ℓ} → Option A → Bool
is_none none = true
is_none (some a) = false

abbrev pub among : String → List String → Bool
among j [] = false
among j (k ∷ ks) = str_eq k j || among j ks

module _ {H X : Type 0} {S : Part ServiceState (Hub H X)} {M : Part ModeState (Hub H X)} where
  -- A loop that leaves a property alone.
  pub each_keeps :
      (f : String → Core H X S M → Core H X S M) (P : Core H X S M → Type 0)
      → ((k : String) (b : Core H X S M) → P b → P (f k b))
      → (ks : List String) (b : Core H X S M) → P b
      → P (each f ks b)
  unfolding each
  each_keeps f P keep [] b h = h
  each_keeps f P keep (k ∷ ks) b h = each_keeps f P keep ks (f k b) (keep k b h)

  -- A loop that reaches a name brings about what the body does at that name.
  pub each_reaches :
      (f : String → Core H X S M → Core H X S M) (P Q : Core H X S M → Type 0) (j : String)
      → ((k : String) (b : Core H X S M) → P b → P (f k b))
      → ((b : Core H X S M) → P b → Q (f j b))
      → ((k : String) (b : Core H X S M) → Q b → Q (f k b))
      → (ks : List String) (b : Core H X S M) → P b
      → among j ks ≡ true
      → Q (each f ks b)
  unfolding each
  each_reaches f P Q j keep make stay [] b h e = cc
  each_reaches f P Q j keep make stay (k ∷ ks) b h e = elim (Bool-cases (str_eq k j)) [
    | inl q ↦
        each_keeps f Q stay ks (f k b)
          (subst (λ i. Q (f i b)) (sym ((str_eq_iff k j).0 q)) (make b h))
    | inr q ↦ each_reaches f P Q j keep make stay ks (f k b) (keep k b h) (rw q at e)
  ]

pub among-names_where :
    {State W : Type 0} (P : Part State W) (p : Entry P → Bool) (j : String) (es : List (Entry P))
    (e : Entry P)
    → find P j es ≡ some e
    → p e ≡ true
    → among j (names_where P p es) ≡ true
unfolding find names_where
among-names_where P p j [] e f h = cc
among-names_where P p j ((on, s) ∷ es) e f h = ground (arith, among-names_where P p j es e)
