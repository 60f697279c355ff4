-- ===== src/Console.antt =====
-- Messages to the user: Buckey::reply of src/core/Buckey.cpp, and CoreMode::input of
-- src/core/CoreMode.cpp, the commands that control services and modes. What reply reaches besides the
-- lists is the standard output, the client of the socket and the flag killed.
pub mod Replies
pub mod Commands
mod Tests
use Prim.Native.Char.{code}
use buckey.Common.{
  ℕ, zero, suc, ◌+◌, ◌-◌, ◌*◌, ◌/◌, ◌%◌, ◌^◌, ◌≤◌, ◌<◌, ◌≡◌, refl, sym, ap, ◌∙◌, subst, ◌≢◌, ◌↔◌,
  ◌⊎◌, inl, inr, Bool, true, false, not, ◌&&◌, ◌||◌, Option, none, some, List, [], ◌∷◌, ◌++◌, map,
  append-nil, append_assoc, arith, ltb, leb, ◌==◌, if◌then◌else◌, Bool-cases, Option-cases, length,
  get_elem?, set, take, drop, concat, length-append, drop-length-append, All, All-append, String,
  str_eq, str_eq_iff, str_eq_refl,
}
use buckey.Socket.Client.{strncpy}
use buckey.Registry.{
  ServiceState, running, ModeState, started, Hub, log_info, log_warn, trigger, output_note, Part,
  Core, ◌&◌, ReplyType, conversation, alert, status, critical, console, prompt,
}
use buckey.Registry.Services.{
  enable_service, start_service, reload_service, disable_service, stop_service,
}
use buckey.Registry.Modes.{start_mode, stop_mode, enable_mode, disable_mode, reload_mode}
use buckey.Registry.Listing.{
  list_enabled_services, list_disabled_services, list_services, list_services_in_state,
  list_enabled_modes, list_disabled_modes, list_modes, list_modes_in_state,
}
use buckey.Registry.Saved.{to_chars}

pub record Desk (H X : Type 0) (S : Part ServiceState (Hub H X)) (M : Part ModeState (Hub H X))
    : Type 0 where
  pub core : Core H X S M
  pub killed : Bool
  pub socket_connected : Bool
  pub shown : List String
  pub send_calls : List (List (Option ℕ))

-- The 256 bytes that are given to send: the 255 that strncpy writes, and the last one, which is
-- indeterminate, `none`.
unfoldable pub packet : String → List (Option ℕ)
packet out = map some (strncpy 255 (map code (to_chars out))) ++ none ∷ []

-- `out`, which stays empty for an ALERT.
unfoldable pub text_of : ReplyType → String → String
text_of conversation message = "CONV:" & message
text_of alert message = ""
text_of status message = "STAT:" & message
text_of critical message = "CRIT:" & message
text_of console message = message
text_of prompt message = "????:" & message

abbrev pub is_critical : ReplyType → Bool
is_critical critical = true
is_critical t = false

abbrev pub is_console : ReplyType → Bool
is_console console = true
is_console t = false

-- StringHelper::concatenateStringVector.
joined : String → List String → String
joined delim [] = ""
joined delim (s ∷ strings) = delim & s & joined delim strings

unfoldable pub concatenate_string_vector : List String → String → String
unfolding joined
concatenate_string_vector [] delim = ""
concatenate_string_vector (s ∷ strings) delim = s & joined delim strings

module _ {H X : Type 0} {S : Part ServiceState (Hub H X)} {M : Part ModeState (Hub H X)} where
  -- A method of Buckey that works on the lists.
  abbrev pub with_core : (Core H X S M → Core H X S M) → Desk H X S M → Desk H X S M
  with_core f b = record b { core = f b.core }

  abbrev pub with_hub : (Hub H X → Hub H X) → Desk H X S M → Desk H X S M
  with_hub f b = with_core (λ c. record c { hub = f c.hub }) b

  -- The call of send, whose answer is ignored.
  send_out : String → Desk H X S M → Desk H X S M
  unfolding packet
  send_out out b =
      if b.socket_connected then record b { send_calls = b.send_calls ++ packet out ∷ [] } else b

  unfoldable pub reply : String → ReplyType → Desk H X S M → Desk H X S M
  unfolding send_out text_of packet
  reply message t b =
      let warned =
        if is_critical t
        then with_hub (log_warn ("Received CRITICAL message: " & message)) b
        else b in
      let out = text_of t message in
      let printed = record warned { shown = warned.shown ++ out ∷ [] } in
      let line = out & "\n" in
      if is_console t
      then printed
      else with_hub (λ h. trigger "onOutputEvent" (output_note message t) (log_info line h))
          (send_out line printed)

  unfoldable pub request_stop : Desk H X S M → Desk H X S M
  request_stop b = record b { killed = true }

  -- The branches of input, by the action that the first tag names.
  on_start : String → String → Desk H X S M → Desk H X S M
  on_start kind target b =
      if str_eq kind "mode"
      then reply ("Started " & target & " mode") status (with_core (start_mode target) b)
      else if str_eq kind "service"
      then reply ("Started " & target & " service") status (with_core (start_service target) b)
      else b

  on_stop : String → String → Desk H X S M → Desk H X S M
  on_stop kind target b =
      if str_eq kind "mode"
      then (if str_eq target "core"
          then reply "I'm sorry but you cannot stop the core mode." conversation b
          else reply ("Stopped " & target & " mode") status (with_core (stop_mode target) b))
      else if str_eq kind "service"
      then reply ("Stopped " & target & " service") status (with_core (stop_service target) b)
      else b

  on_reload : String → String → Desk H X S M → Desk H X S M
  on_reload kind target b =
      if str_eq kind "mode"
      then reply ("Reloaded " & target & " mode") status (with_core (reload_mode target) b)
      else if str_eq kind "service"
      then reply ("Reloaded " & target & " service") status (with_core (reload_service target) b)
      else b

  on_enable : String → String → Desk H X S M → Desk H X S M
  on_enable kind target b =
      if str_eq kind "mode"
      then reply ("Enabled " & target & " mode") status (with_core (enable_mode target) b)
      else if str_eq kind "service"
      then reply ("Enabled " & target & " service") status (with_core (enable_service target) b)
      else b

  on_disable : String → String → Desk H X S M → Desk H X S M
  on_disable kind target b =
      if str_eq kind "mode"
      then (if str_eq target "core"
          then reply "I'm sorry but you cannot disable the core mode." conversation b
          else reply ("Disabled " & target & " mode") status (with_core (disable_mode target) b))
      else if str_eq kind "service"
      then reply ("Disabled " & target & " service") status (with_core (disable_service target) b)
      else b

  -- The answer to a question for names.
  tell : List String → String → String → String → Desk H X S M → Desk H X S M
  tell [] nobody before after b = reply nobody conversation b
  tell (k ∷ ks) nobody before after b =
      reply (before & concatenate_string_vector (k ∷ ks) " " & after) conversation b

  tell_all : List String → String → Desk H X S M → Desk H X S M
  tell_all ks before b =
      reply (before & concatenate_string_vector ks " " & " are registered") conversation b

  list_of_modes : String → Desk H X S M → Desk H X S M
  list_of_modes kind b =
      if str_eq kind "enabled"
      then tell (list_enabled_modes [] b.core) "No modes are enabled" "Modes " " are enabled" b
      else if str_eq kind "disabled"
      then tell (list_disabled_modes [] b.core) "No modes are disabled." "Modes " " are disabled" b
      else if str_eq kind "started"
      then tell (list_modes_in_state [] started b.core) "No modes have been started" "Modes "
          " are started" b
      else if str_eq kind "stopped"
      then tell (list_modes_in_state [] ModeState.stopped b.core) "No modes are stopped" "Modes "
          " are stopped" b
      else if str_eq kind "all"
      then tell_all (list_modes [] b.core) "Modes " b
      else b

  list_of_services : String → Desk H X S M → Desk H X S M
  list_of_services kind b =
      if str_eq kind "enabled"
      then tell (list_enabled_services [] b.core) "No services are enabled" "Services "
          " are enabled" b
      else if str_eq kind "disabled"
      then tell (list_disabled_services [] b.core) "No services are disabled" "Services "
          " are disabled" b
      else if str_eq kind "started"
      then tell (list_services_in_state [] running b.core) "No services are running" "Services "
          " are running" b
      else if str_eq kind "stopped"
      then tell (list_services_in_state [] ServiceState.stopped b.core) "No services are stopped"
          "Services " " are stopped" b
      else if str_eq kind "all"
      then tell_all (list_services [] b.core) "Services " b
      else b

  on_list : String → String → Desk H X S M → Desk H X S M
  on_list kind target b =
      if str_eq target "modes"
      then list_of_modes kind b
      else if str_eq target "services"
      then list_of_services kind b
      else b

  -- The action, the kind and the target.
  pub obey : String → String → String → Desk H X S M → Desk H X S M
  obey action kind target b =
      if str_eq action "start"
      then on_start kind target b
      else if str_eq action "stop"
      then on_stop kind target b
      else if str_eq action "reload"
      then on_reload kind target b
      else if str_eq action "enable"
      then on_enable kind target b
      else if str_eq action "disable"
      then on_disable kind target b
      else if str_eq action "list"
      then on_list kind target b
      else b

  -- The rest of the tags; reading past their end is a fault, `none`.
  obey_rest : String → List String → Desk H X S M → Option (Desk H X S M)
  obey_rest action (kind ∷ target ∷ tags) b = some (obey action kind target b)
  obey_rest action tags b = none

  pub input : List String → Desk H X S M → Option (Desk H X S M)
  input [] b = none
  input (action ∷ tags) b =
      if str_eq action "quit"
      then some (request_stop (reply "Goodbye" conversation b))
      else obey_rest action tags b
