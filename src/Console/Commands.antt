-- ===== src/Console/Commands.antt =====
-- What the branches of CoreMode::input can change, as a rule for properties that every change keeps.
pub mod Protected
use buckey.Common.{
  ℕ, zero, suc, ◌+◌, ◌-◌, ◌*◌, ◌/◌, ◌%◌, ◌^◌, ◌≤◌, ◌<◌, ◌≡◌, refl, sym, ap, ◌∙◌, subst, ◌≢◌, ◌↔◌,
  ◌⊎◌, inl, inr, Bool, true, false, not, ◌&&◌, ◌||◌, Option, none, some, List, [], ◌∷◌, ◌++◌, map,
  append-nil, append_assoc, arith, ltb, leb, ◌==◌, if◌then◌else◌, Bool-cases, Option-cases, length,
  get_elem?, set, take, drop, concat, length-append, drop-length-append, All, All-append, String,
  str_eq, str_eq_iff, str_eq_refl,
}
use buckey.Registry.{
  ServiceState, ModeState, started, stopped, Hub, log_info, Part, KeepsName, Entry, find, Core,
  ReplyType, ◌&◌, conversation,
}
use buckey.Registry.Entries.{KeepsEntryName, changed, find-act_on}
use buckey.Registry.Services.{
  enable_service, start_service, reload_service, disable_service, stop_service,
}
use buckey.Registry.Modes.{
  on_mode, start_mode, stop_mode, enable_mode, disable_mode, reload_mode, get_mode_state,
  found_mode_state, can_start, starting_mode, stopping_mode, enabling_mode, disabling_mode,
  starting_mode-keeps, stopping_mode-keeps, enabling_mode-keeps, disabling_mode-keeps,
}
use buckey.Registry.Reload.{Restarts}
use buckey.Registry.Reload.Modes.{stop_mode-Startable, start_mode-makes, same_modes-Started}
use buckey.Console.{
  Desk, reply, with_core, request_stop, on_start, on_stop, on_reload, on_enable, on_disable,
  on_list, tell, tell_all, list_of_modes, list_of_services, obey,
}
use buckey.Console.Replies.{reply-modes, reply-killed}

-- A property of both branches.
if-case {ℓ} :
    {A : Type ℓ} (P : A → Type 0) (c : Bool) {x y : A}
    → (c ≡ true → P x)
    → (c ≡ false → P y)
    → P (if c then x else y)
if-case P true f g = f refl
if-case P false f g = g refl

-- A property that every change keeps that a command may make: the core's operations, but for those
-- that take the mode core down, and the replies.
pub record Closed {H X : Type 0} {S : Part ServiceState (Hub H X)} {M : Part ModeState (Hub H X)}
    (P : Desk H X S M → Type 0) : Type 0 where
  pub replies : (m : String) (t : ReplyType) (b : Desk H X S M) → P b → P (reply m t b)
  pub starts_mode : (k : String) (b : Desk H X S M) → P b → P (with_core (start_mode k) b)
  pub reloads_mode : (k : String) (b : Desk H X S M) → P b → P (with_core (reload_mode k) b)
  pub enables_mode : (k : String) (b : Desk H X S M) → P b → P (with_core (enable_mode k) b)
  pub stops_mode :
      (k : String) (b : Desk H X S M)
      → str_eq k "core" ≡ false
      → P b
      → P (with_core (stop_mode k) b)
  pub disables_mode :
      (k : String) (b : Desk H X S M)
      → str_eq k "core" ≡ false
      → P b
      → P (with_core (disable_mode k) b)
  pub starts_service : (k : String) (b : Desk H X S M) → P b → P (with_core (start_service k) b)
  pub reloads_service : (k : String) (b : Desk H X S M) → P b → P (with_core (reload_service k) b)
  pub enables_service : (k : String) (b : Desk H X S M) → P b → P (with_core (enable_service k) b)
  pub stops_service : (k : String) (b : Desk H X S M) → P b → P (with_core (stop_service k) b)
  pub disables_service : (k : String) (b : Desk H X S M) → P b → P (with_core (disable_service k) b)

module _ {H X : Type 0} {S : Part ServiceState (Hub H X)} {M : Part ModeState (Hub H X)}
    (P : Desk H X S M → Type 0) (C : Closed P) where
  on_start-keeps : (kind target : String) (b : Desk H X S M) → P b → P (on_start kind target b)
  unfolding on_start
  on_start-keeps kind target b h =
      if-case P (str_eq kind "mode") (λ _. C.replies _ _ _ (C.starts_mode target b h))
        (λ _.
          if-case P (str_eq kind "service") (λ _. C.replies _ _ _ (C.starts_service target b h))
            (λ _. h))

  on_reload-keeps : (kind target : String) (b : Desk H X S M) → P b → P (on_reload kind target b)
  unfolding on_reload
  on_reload-keeps kind target b h =
      if-case P (str_eq kind "mode") (λ _. C.replies _ _ _ (C.reloads_mode target b h))
        (λ _.
          if-case P (str_eq kind "service") (λ _. C.replies _ _ _ (C.reloads_service target b h))
            (λ _. h))

  on_enable-keeps : (kind target : String) (b : Desk H X S M) → P b → P (on_enable kind target b)
  unfolding on_enable
  on_enable-keeps kind target b h =
      if-case P (str_eq kind "mode") (λ _. C.replies _ _ _ (C.enables_mode target b h))
        (λ _.
          if-case P (str_eq kind "service") (λ _. C.replies _ _ _ (C.enables_service target b h))
            (λ _. h))

  on_stop-keeps : (kind target : String) (b : Desk H X S M) → P b → P (on_stop kind target b)
  unfolding on_stop
  on_stop-keeps kind target b h =
      if-case P (str_eq kind "mode")
        (λ _.
          if-case P (str_eq target "core") (λ _. C.replies _ _ _ h)
            (λ e. C.replies _ _ _ (C.stops_mode target b e h)))
        (λ _.
          if-case P (str_eq kind "service") (λ _. C.replies _ _ _ (C.stops_service target b h))
            (λ _. h))

  on_disable-keeps : (kind target : String) (b : Desk H X S M) → P b → P (on_disable kind target b)
  unfolding on_disable
  on_disable-keeps kind target b h =
      if-case P (str_eq kind "mode")
        (λ _.
          if-case P (str_eq target "core") (λ _. C.replies _ _ _ h)
            (λ e. C.replies _ _ _ (C.disables_mode target b e h)))
        (λ _.
          if-case P (str_eq kind "service") (λ _. C.replies _ _ _ (C.disables_service target b h))
            (λ _. h))

  tell-keeps :
      (ks : List String) (nobody before after : String) (b : Desk H X S M)
      → P b
      → P (tell ks nobody before after b)
  unfolding tell
  tell-keeps [] nobody before after b h = C.replies _ _ _ h
  tell-keeps (k ∷ ks) nobody before after b h = C.replies _ _ _ h

  tell_all-keeps :
      (ks : List String) (before : String) (b : Desk H X S M) → P b → P (tell_all ks before b)
  unfolding tell_all
  tell_all-keeps ks before b h = C.replies _ _ _ h

  list_of_modes-keeps : (kind : String) (b : Desk H X S M) → P b → P (list_of_modes kind b)
  unfolding list_of_modes
  list_of_modes-keeps kind b h =
      if-case P (str_eq kind "enabled") (λ _. tell-keeps _ _ _ _ b h)
        (λ _.
          if-case P (str_eq kind "disabled") (λ _. tell-keeps _ _ _ _ b h)
            (λ _.
              if-case P (str_eq kind "started") (λ _. tell-keeps _ _ _ _ b h)
                (λ _.
                  if-case P (str_eq kind "stopped") (λ _. tell-keeps _ _ _ _ b h)
                    (λ _. if-case P (str_eq kind "all") (λ _. tell_all-keeps _ _ b h) (λ _. h)))))

  list_of_services-keeps : (kind : String) (b : Desk H X S M) → P b → P (list_of_services kind b)
  unfolding list_of_services
  list_of_services-keeps kind b h =
      if-case P (str_eq kind "enabled") (λ _. tell-keeps _ _ _ _ b h)
        (λ _.
          if-case P (str_eq kind "disabled") (λ _. tell-keeps _ _ _ _ b h)
            (λ _.
              if-case P (str_eq kind "started") (λ _. tell-keeps _ _ _ _ b h)
                (λ _.
                  if-case P (str_eq kind "stopped") (λ _. tell-keeps _ _ _ _ b h)
                    (λ _. if-case P (str_eq kind "all") (λ _. tell_all-keeps _ _ b h) (λ _. h)))))

  on_list-keeps : (kind target : String) (b : Desk H X S M) → P b → P (on_list kind target b)
  unfolding on_list
  on_list-keeps kind target b h =
      if-case P (str_eq target "modes") (λ _. list_of_modes-keeps kind b h)
        (λ _. if-case P (str_eq target "services") (λ _. list_of_services-keeps kind b h) (λ _. h))

  pub obey-keeps :
      (action kind target : String) (b : Desk H X S M) → P b → P (obey action kind target b)
  unfolding obey
  obey-keeps action kind target b h =
      if-case P (str_eq action "start") (λ _. on_start-keeps kind target b h)
        (λ _.
          if-case P (str_eq action "stop") (λ _. on_stop-keeps kind target b h)
            (λ _.
              if-case P (str_eq action "reload") (λ _. on_reload-keeps kind target b h)
                (λ _.
                  if-case P (str_eq action "enable") (λ _. on_enable-keeps kind target b h)
                    (λ _.
                      if-case P (str_eq action "disable") (λ _. on_disable-keeps kind target b h)
                        (λ _.
                          if-case P (str_eq action "list") (λ _. on_list-keeps kind target b h)
                            (λ _. h))))))
