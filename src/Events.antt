-- ===== src/Events.antt =====
-- src/core/EventSource.cpp and include/core/EventSource.h: listeners by event type, and the threads
-- that run them. A handler is a value of H, an event's data a value of D; the unordered_map is an
-- association list with one entry for a key. The constructor sets no value for nextID, so a new
-- source has any.
pub mod Listeners
pub mod Ids
pub mod Threads
pub mod Shutdown
pub mod Board
pub mod Refinement
mod Tests
use buckey.Common.{
  ℕ, zero, suc, ◌+◌, ◌-◌, ◌*◌, ◌/◌, ◌%◌, ◌^◌, ◌≤◌, ◌<◌, ◌≡◌, refl, sym, ap, ◌∙◌, subst, ◌≢◌, ◌↔◌,
  ◌⊎◌, inl, inr, Bool, true, false, not, ◌&&◌, ◌||◌, Option, none, some, List, [], ◌∷◌, ◌++◌, map,
  append-nil, append_assoc, arith, ltb, leb, ◌==◌, if◌then◌else◌, Bool-cases, Option-cases, length,
  get_elem?, set, take, drop, concat, length-append, drop-length-append, All, All-append, String,
  str_eq, str_eq_iff, str_eq_refl,
}

-- unsigned long
abbrev pub ulong_mod : ℕ
ulong_mod = 2 ^ 64

module _ {ℓ} {V : Type ℓ} where
  unfoldable pub lookup : String → List (String × V) → Option V
  lookup k [] = none
  lookup k ((j, v) ∷ m) = if str_eq j k then some v else lookup k m

  unfoldable pub insert : String → V → List (String × V) → List (String × V)
  insert k v [] = (k, v) ∷ []
  insert k v ((j, w) ∷ m) = if str_eq j k then (k, v) ∷ m else (j, w) ∷ insert k v m

  unfoldable pub erase : String → List (String × V) → List (String × V)
  erase k [] = []
  erase k ((j, w) ∷ m) = if str_eq j k then erase k m else (j, w) ∷ erase k m

-- The loop that erases the first method with the id.
unfoldable pub erase_method {ℓ} : {H : Type ℓ} → ℕ → List (ℕ × H) → List (ℕ × H)
erase_method id [] = []
erase_method id ((j, h) ∷ ms) = if j == id then ms else (j, h) ∷ erase_method id ms

-- A thread that an event started, and the flag that its handler sets when it is done.
pub record Thread (H D : Type 0) : Type 0 where
  pub handler : H
  pub arg : D
  pub done : Bool

pub record EventSource (H D : Type 0) : Type 0 where
  pub handlers : List (String × List (ℕ × H))
  pub next_id : ℕ
  pub request_join : Bool
  pub threads : List (Thread H D)

module _ {H D : Type 0} where
  -- A new source, with whatever nextID holds.
  unfoldable pub new_source : ℕ → EventSource H D
  new_source n = record { handlers = []; next_id = n; request_join = false; threads = [] }

  unfoldable pub handler_count : EventSource H D → ℕ
  handler_count s = length s.threads

  unfoldable pub add_listener : String → H → EventSource H D → EventSource H D × ℕ
  unfolding lookup insert
  add_listener event h s =
      let id = s.next_id in
      let methods = elim (lookup event s.handlers) as (λ _. List (ℕ × H)) [
        | none ↦ (id, h) ∷ []
        | some methods ↦ methods ++ (id, h) ∷ []
      ] in
      (record s { next_id = (id + 1) % ulong_mod; handlers = insert event methods s.handlers }, id)

  unfoldable pub clear_listeners : String → EventSource H D → EventSource H D
  unfolding lookup erase
  clear_listeners event s = elim (lookup event s.handlers) [
    | none ↦ s
    | some methods ↦ record s { handlers = erase event s.handlers }
  ]

  unfoldable pub unset_listener : String → ℕ → EventSource H D → EventSource H D
  unfolding lookup insert erase_method
  unset_listener event id s = elim (lookup event s.handlers) [
    | none ↦ s
    | some methods ↦ record s { handlers = insert event (erase_method id methods) s.handlers }
  ]

  start_threads : D → List (ℕ × H) → List (Thread H D)
  start_threads arg = map λ m. record { handler = m.1; arg = arg; done = false }

  unfoldable pub trigger_events : String → D → EventSource H D → EventSource H D
  unfolding lookup start_threads
  trigger_events event arg s = if s.request_join then s else (elim (lookup event s.handlers) [
    | none ↦ s
    | some methods ↦ record s { threads = s.threads ++ start_threads arg methods }
  ])

  -- One pass of the manager's inner loop: the first finished thread is joined and erased, and the
  -- pass ends; none if no thread was found.
  erase_done : List (Thread H D) → Option (List (Thread H D))
  erase_done [] = none
  erase_done (t ∷ ts) =
      if t.done
      then some ts
      else (elim (erase_done ts) [ none ↦ none | some rest ↦ some (t ∷ rest) ])

  -- `while(!done)`: passes until one finds nothing. `none` is a loop that ran out of fuel.
  pub sweep : ℕ → List (Thread H D) → Option (List (Thread H D))
  unfolding erase_done
  sweep zero ts = none
  sweep (suc fuel) ts = elim (erase_done ts) [ none ↦ some ts | some rest ↦ sweep fuel rest ]

  -- One round of manageThreads under the lock; a pass more than there are threads is enough.
  unfoldable pub manage_round : EventSource H D → EventSource H D
  unfolding sweep
  manage_round s = elim (sweep (length s.threads + 1) s.threads) [
    | none ↦ s
    | some rest ↦ record s { threads = rest }
  ]

  -- killThreads: every thread is joined and forgotten, and no event is triggered afterwards.
  unfoldable pub kill_threads : EventSource H D → EventSource H D
  kill_threads s = record s { request_join = true; threads = [] }
