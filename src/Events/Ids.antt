-- ===== src/Events/Ids.antt =====
-- The ids of listeners: an invariant of every history of calls, and what it makes of a removal.
use buckey.Common.{
  ℕ, ◌+◌, ◌≤◌, ◌<◌, ◌≡◌, refl, true, false, List, [], ◌∷◌, ◌++◌, arith, if◌then◌else◌, length,
  String, str_eq, str_eq_iff, str_eq_refl,
}
use buckey.Events.{
  lookup, ulong_mod, EventSource, new_source, add_listener, clear_listeners, erase_method,
  unset_listener, trigger_events, manage_round, kill_threads,
}
use buckey.Events.Listeners.{
  Within, without, Within-append, Within-mono, erase_method-Within, erase_method-eq-without,
  erase_method-append, listeners, listeners-add_listener, listeners-unset_erase,
  listeners-clear_listeners,
}

module _ {H D : Type 0} where
  -- In every event's list the ids grow, and they are ids that have been given out.
  abbrev pub IsValid : EventSource H D → Type 0
  IsValid s = (event : String) → Within 0 s.next_id (listeners event s)

  pub new_source-IsValid : (n : ℕ) (s : EventSource H D) → s ≡ new_source n → IsValid s
  unfolding new_source listeners lookup
  new_source-IsValid n s e event = rw e (omega arith)

  pub next_id-add_listener :
      (event : String) (h : H) (s : EventSource H D)
      → s.next_id + 1 < ulong_mod
      → (add_listener event h s).0.next_id ≡ s.next_id + 1
  unfolding add_listener
  next_id-add_listener event h s b = omega arith

  pub id-add_listener :
      (event : String) (h : H) (s : EventSource H D) → (add_listener event h s).1 ≡ s.next_id
  unfolding add_listener
  id-add_listener event h s = refl

  pub next_id-unset_listener :
      (event : String) (id : ℕ) (s : EventSource H D)
      → (unset_listener event id s).next_id ≡ s.next_id
  unfolding unset_listener
  next_id-unset_listener event id s = ground arith

  add_listener-IsValid :
      (event : String) (h : H) (s : EventSource H D)
      → s.next_id + 1 < ulong_mod
      → IsValid s
      → IsValid (add_listener event h s).0
  add_listener-IsValid event h s b v other =
      rw
        (
          listeners-add_listener event other h s,
          next_id-add_listener event h s b,
          id-add_listener event h s,
        )
        (elim (str_eq event other)
          as (λ t.
            Within 0 (s.next_id + 1)
              (if t then listeners event s ++ (s.next_id, h) ∷ [] else listeners other s)) [
                | true ↦ Within-append 0 s.next_id h (listeners event s) (v event)
                | false ↦ Within-mono 0 s.next_id (listeners other s) (v other)
              ])

  unset_listener-IsValid :
      (event : String) (id : ℕ) (s : EventSource H D)
      → IsValid s
      → IsValid (unset_listener event id s)
  unset_listener-IsValid event id s v other =
      rw (listeners-unset_erase event other id s, next_id-unset_listener event id s)
        (elim (str_eq event other)
          as (λ t.
            Within 0 s.next_id
              (if t then erase_method id (listeners event s) else listeners other s)) [
                | true ↦ erase_method-Within 0 s.next_id id (listeners event s) (v event)
                | false ↦ v other
              ])

  clear_listeners-IsValid :
      (event : String) (s : EventSource H D) → IsValid s → IsValid (clear_listeners event s)
  clear_listeners-IsValid event s v other =
      rw (listeners-clear_listeners event other s, next_id-clear)
        (elim (str_eq event other)
          as (λ t. Within 0 s.next_id (if t then [] else listeners other s)) [
            | true ↦ omega arith
            | false ↦ v other
          ])
    where
      next_id-clear : (clear_listeners event s).next_id ≡ s.next_id
      next_id-clear = unfold clear_listeners in ground arith

  -- What keeps the handlers and the next id keeps the invariant.
  same_handlers-IsValid :
      (s t : EventSource H D)
      → t.handlers ≡ s.handlers
      → t.next_id ≡ s.next_id
      → IsValid s
      → IsValid t
  unfolding listeners
  same_handlers-IsValid s t e n v other = rw (e, n) (v other)

  -- After a listener is unset, its event has exactly the listeners with other ids, in their order,
  -- and the other events have what they had, if in every event the ids grow and stay below the next
  -- id, as they do after any history of calls.
  pub listeners-unset_listener :
      (event other : String) (id : ℕ) (s : EventSource H D)
      → IsValid s
      → listeners other (unset_listener event id s)
        ≡ (if str_eq event other then without id (listeners event s) else listeners other s)
  listeners-unset_listener event other id s v = rw (
    listeners-unset_erase event other id s,
    erase_method-eq-without 0 s.next_id id (listeners event s) (v event),
  )

  -- A listener that is added and unset by the id that was returned leaves every event's listeners
  -- as they were, if in every event the ids grow and stay below the next id.
  pub unset_listener-add_listener :
      (event other : String) (h : H) (s : EventSource H D)
      → IsValid s
      → listeners other (unset_listener event (add_listener event h s).1 (add_listener event h s).0)
        ≡ listeners other s
  unset_listener-add_listener event other h s v =
      rw
        (
          listeners-unset_erase event other (add_listener event h s).1 (add_listener event h s).0,
          listeners-add_listener event event h s,
          listeners-add_listener event other h s,
          str_eq_refl event,
          id-add_listener event h s,
        )
        (ground (
          arith,
          str_eq_iff event other,
          erase_method-append 0 s.next_id h (listeners event s) (v event),
        ))

-- The calls on a source, in any order.
pub data Call (H D : Type 0) : Type 0 where
  adds : String → H → Call H D
  unsets : String → ℕ → Call H D
  clears : String → Call H D
  triggers : String → D → Call H D
  manages kills : Call H D

module _ {H D : Type 0} where
  unfoldable pub step : EventSource H D → Call H D → EventSource H D
  step s (adds event h) = (add_listener event h s).0
  step s (unsets event id) = unset_listener event id s
  step s (clears event) = clear_listeners event s
  step s (triggers event arg) = trigger_events event arg s
  step s manages = manage_round s
  step s kills = kill_threads s

  unfoldable pub run : EventSource H D → List (Call H D) → EventSource H D
  unfolding step
  run s [] = s
  run s (c ∷ cs) = run (step s c) cs

  pub next_id-step :
      (s : EventSource H D) (c : Call H D)
      → s.next_id + 1 < ulong_mod
      → (step s c).next_id ≤ s.next_id + 1
  unfolding step add_listener unset_listener clear_listeners trigger_events manage_round
      kill_threads
  next_id-step s (adds event h) b = omega arith
  next_id-step s (unsets event id) b = ground arith
  next_id-step s (clears event) b = ground arith
  next_id-step s (triggers event arg) b = ground arith
  next_id-step s manages b = ground arith
  next_id-step s kills b = omega arith

  pub step-IsValid :
      (s : EventSource H D) (c : Call H D)
      → s.next_id + 1 < ulong_mod
      → IsValid s
      → IsValid (step s c)
  unfolding step trigger_events manage_round kill_threads
  step-IsValid s (adds event h) b v = add_listener-IsValid event h s b v
  step-IsValid s (unsets event id) b v = unset_listener-IsValid event id s v
  step-IsValid s (clears event) b v = clear_listeners-IsValid event s v
  step-IsValid s (triggers event arg) b v =
      same_handlers-IsValid s (trigger_events event arg s) (ground arith) (ground arith) v
  step-IsValid s manages b v =
      same_handlers-IsValid s (manage_round s) (ground arith) (ground arith) v
  step-IsValid s kills b v = same_handlers-IsValid s (kill_threads s) refl refl v

  run-IsValid_from :
      (s : EventSource H D) (cs : List (Call H D))
      → s.next_id + length cs < ulong_mod
      → IsValid s
      → IsValid (run s cs)
  unfolding run
  run-IsValid_from s [] b v = v
  run-IsValid_from s (c ∷ cs) b v =
      run-IsValid_from (step s c) cs (omega (arith, next_id-step s c (omega arith)))
        (step-IsValid s c (omega arith) v)

  -- After any history of calls on a new source the listeners of each event have growing, so different,
  -- ids below the next one, as long as the count of calls cannot carry the ids past an unsigned long.
  pub run-IsValid :
      (n : ℕ) (cs : List (Call H D)) → n + length cs < ulong_mod → IsValid (run (new_source n) cs)
  run-IsValid n cs b =
      run-IsValid_from (new_source n) cs (unfold new_source in b)
        (new_source-IsValid n (new_source n) refl)
