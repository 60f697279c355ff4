-- ===== src/Console/Replies.antt =====
-- What Buckey::reply does with a message: who gets it, and how much of it.
use Prim.Native.Char.{code}
use buckey.Common.{
  ℕ, ◌≡◌, refl, inl, inr, Option, some, List, map, arith, Bool-cases, length, take, String,
}
use buckey.Registry.{ServiceState, ModeState, Hub, trigger, Part, ReplyType, alert}
use buckey.Registry.Saved.{to_chars}
use buckey.Console.{Desk, reply}

abbrev pub bytes : String → List ℕ
bytes s = map code (to_chars s)

-- The first bytes of the 256 are the message.
pub record Carries (s : String) (p : List (Option ℕ)) : Type 0 where
  pub size : length p ≡ 256
  pub content : take (length (bytes s)) p ≡ map some (bytes s)

module _ {H X : Type 0} {S : Part ServiceState (Hub H X)} {M : Part ModeState (Hub H X)} where
  -- A reply changes neither the services nor the modes, nor the flag killed.
  pub reply-services :
      (message : String) (t : ReplyType) (b : Desk H X S M)
      → (reply message t b).core.services ≡ b.core.services
  unfolding reply
  reply-services message t b = ground arith

  pub reply-modes :
      (message : String) (t : ReplyType) (b : Desk H X S M)
      → (reply message t b).core.modes ≡ b.core.modes
  unfolding reply
  reply-modes message t b = ground arith

  pub reply-killed :
      (message : String) (t : ReplyType) (b : Desk H X S M) → (reply message t b).killed ≡ b.killed
  unfolding reply
  reply-killed message t b = ground arith

  -- The text of a message of type ALERT is lost: two such messages print the same, send the same to the
  -- client and leave the same log.
  pub reply-alert_loses :
      (message message' : String) (b : Desk H X S M)
      → ((reply message alert b).shown ≡ (reply message' alert b).shown)
        × ((reply message alert b).send_calls ≡ (reply message' alert b).send_calls)
        × ((reply message alert b).core.hub.log ≡ (reply message' alert b).core.hub.log)
  unfolding reply trigger
  reply-alert_loses message message' b = (
    ground arith,
    ground arith,
    elim (Bool-cases b.socket_connected) [ inl q ↦ rw q refl | inr q ↦ rw q refl ],
  )
