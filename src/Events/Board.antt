-- ===== src/Events/Board.antt =====
-- One list of subscriptions, for src/core/EventSource.cpp: what is added, removed and read of it.
use buckey.Common.{
  ℕ, ◌≡◌, refl, Bool, false, ◌&&◌, List, [], ◌∷◌, ◌++◌, arith, ◌==◌, if◌then◌else◌, String, str_eq,
  str_eq_iff,
}
use buckey.Events.Listeners.{without}

pub record Subscription (H : Type 0) : Type 0 where
  pub event : String
  pub id : ℕ
  pub handler : H

pub record Board (H : Type 0) : Type 0 where
  pub subscriptions : List (Subscription H)
  pub next_subscription : ℕ
  pub closed : Bool

module _ {H : Type 0} where
  abbrev pub blank : ℕ → Board H
  blank n = record { subscriptions = []; next_subscription = n; closed = false }

  -- The subscriptions that are not of the event, or not under the id.
  abbrev pub drop_id : String → ℕ → List (Subscription H) → List (Subscription H)
  drop_id e i [] = []
  drop_id e i (x ∷ xs) =
      if str_eq e x.event && (x.id == i) then drop_id e i xs else x ∷ drop_id e i xs

  abbrev pub drop_event : String → List (Subscription H) → List (Subscription H)
  drop_event e [] = []
  drop_event e (x ∷ xs) = if str_eq e x.event then drop_event e xs else x ∷ drop_event e xs

  abbrev pub of_event : String → List (Subscription H) → List (ℕ × H)
  of_event e [] = []
  of_event e (x ∷ xs) =
      if str_eq x.event e then (x.id, x.handler) ∷ of_event e xs else of_event e xs

  pub of_event-append :
      (e : String) (xs ys : List (Subscription H))
      → of_event e (xs ++ ys) ≡ of_event e xs ++ of_event e ys
  of_event-append e [] ys = refl
  of_event-append e (x ∷ xs) ys = ground (arith, of_event-append e xs ys)

  pub of_event-drop_id :
      (e other : String) (i : ℕ) (xs : List (Subscription H))
      → of_event other (drop_id e i xs)
        ≡ (if str_eq e other then without i (of_event e xs) else of_event other xs)
  unfolding without
  of_event-drop_id e other i [] = ground arith
  of_event-drop_id e other i (x ∷ xs) = ground (
    arith,
    of_event-drop_id e other i xs,
    str_eq_iff e x.event,
    str_eq_iff x.event other,
    str_eq_iff e other,
    str_eq_iff x.event e,
  )

  pub of_event-drop_event :
      (e other : String) (xs : List (Subscription H))
      → of_event other (drop_event e xs) ≡ (if str_eq e other then [] else of_event other xs)
  of_event-drop_event e other [] = ground arith
  of_event-drop_event e other (x ∷ xs) = ground (
    arith,
    of_event-drop_event e other xs,
    str_eq_iff e x.event,
    str_eq_iff x.event other,
    str_eq_iff e other,
  )
