-- ===== src/Events/Listeners.antt =====
-- Adding, removing and clearing listeners.
use buckey.Common.{
  ℕ, ◌+◌, ◌≤◌, ◌<◌, ◌≡◌, refl, none, some, List, [], ◌∷◌, ◌++◌, arith, ◌==◌, if◌then◌else◌, String,
  str_eq, str_eq_iff,
}
use buckey.Events.{
  lookup, insert, erase, EventSource, add_listener, clear_listeners, erase_method, unset_listener,
}

module _ {ℓ} {V : Type ℓ} where
  pub lookup-insert :
      (k j : String) (v : V) (m : List (String × V))
      → lookup j (insert k v m) ≡ (if str_eq k j then some v else lookup j m)
  unfolding lookup insert
  lookup-insert k j v [] = refl
  lookup-insert k j v ((i, w) ∷ m) =
      ground (arith, str_eq_iff k j, str_eq_iff i k, str_eq_iff i j, lookup-insert k j v m)

  pub lookup-erase :
      (k j : String) (m : List (String × V))
      → lookup j (erase k m) ≡ (if str_eq k j then none else lookup j m)
  unfolding lookup erase
  lookup-erase k j [] = ground arith
  lookup-erase k j ((i, w) ∷ m) =
      ground (arith, str_eq_iff k j, str_eq_iff i k, str_eq_iff i j, lookup-erase k j m)

-- The ids of some methods grow, from lo on, and stay below hi.
abbrev pub Within {ℓ} : {H : Type ℓ} → ℕ → ℕ → List (ℕ × H) → Type 0
Within lo hi [] = lo ≤ hi
Within lo hi (m ∷ ms) = (lo ≤ m.0) × Within (m.0 + 1) hi ms

-- The methods with another id, by comparing all.
unfoldable pub without {ℓ} : {H : Type ℓ} → ℕ → List (ℕ × H) → List (ℕ × H)
without id [] = []
without id ((j, h) ∷ ms) = if j == id then without id ms else (j, h) ∷ without id ms

module _ {H : Type 0} where
  Within-lo_le : (lo hi : ℕ) (ms : List (ℕ × H)) → Within lo hi ms → lo ≤ hi
  Within-lo_le lo hi [] h = h
  Within-lo_le lo hi (m ∷ ms) (h, hs) = omega (arith, Within-lo_le (m.0 + 1) hi ms hs)

  Within-weaken :
      (lo lo' hi : ℕ) (ms : List (ℕ × H)) → lo' ≤ lo → Within lo hi ms → Within lo' hi ms
  Within-weaken lo lo' hi [] b h = omega arith
  Within-weaken lo lo' hi (m ∷ ms) b (h, hs) = (omega arith, hs)

  pub Within-append :
      (lo hi : ℕ) (h : H) (ms : List (ℕ × H))
      → Within lo hi ms
      → Within lo (hi + 1) (ms ++ (hi, h) ∷ [])
  Within-append lo hi h [] w = (w, omega arith)
  Within-append lo hi h (m ∷ ms) (b, w) = (b, Within-append (m.0 + 1) hi h ms w)

  pub Within-mono : (lo hi : ℕ) (ms : List (ℕ × H)) → Within lo hi ms → Within lo (hi + 1) ms
  Within-mono lo hi [] w = omega arith
  Within-mono lo hi (m ∷ ms) (b, w) = (b, Within-mono (m.0 + 1) hi ms w)

  pub erase_method-Within :
      (lo hi id : ℕ) (ms : List (ℕ × H)) → Within lo hi ms → Within lo hi (erase_method id ms)
  unfolding erase_method
  erase_method-Within lo hi id [] w = w
  erase_method-Within lo hi id ((j, h) ∷ ms) (b, w) = ground (
    arith,
    Within-weaken (j + 1) lo hi ms (omega arith) w,
    erase_method-Within (j + 1) hi id ms w,
  )

  without_below :
      (lo hi id : ℕ) (ms : List (ℕ × H)) → Within lo hi ms → id < lo → without id ms ≡ ms
  unfolding without
  without_below lo hi id [] w b = refl
  without_below lo hi id ((j, h) ∷ ms) (c, w) b =
      ground (arith, without_below (j + 1) hi id ms w (omega arith))

  -- With growing ids the loop that stops at the first one removes all that there are.
  pub erase_method-eq-without :
      (lo hi id : ℕ) (ms : List (ℕ × H)) → Within lo hi ms → erase_method id ms ≡ without id ms
  unfolding erase_method without
  erase_method-eq-without lo hi id [] w = refl
  erase_method-eq-without lo hi id ((j, h) ∷ ms) (b, w) =
      ground (arith, erase_method-eq-without (j + 1) hi id ms w, without_below (j + 1) hi id ms w)

  pub erase_method-append :
      (lo hi : ℕ) (h : H) (ms : List (ℕ × H))
      → Within lo hi ms
      → erase_method hi (ms ++ (hi, h) ∷ []) ≡ ms
  unfolding erase_method
  erase_method-append lo hi h [] w = ground arith
  erase_method-append lo hi h ((j, k) ∷ ms) (b, w) =
      ground (arith, erase_method-append (j + 1) hi h ms w, Within-lo_le (j + 1) hi ms w)

module _ {H D : Type 0} where
  -- The listeners of an event, in the order in which they are started.
  unfoldable pub listeners : String → EventSource H D → List (ℕ × H)
  listeners event s = elim (lookup event s.handlers) [ none ↦ [] | some ms ↦ ms ]

  -- A listener is added behind those of its event, under the id that is returned, and the
  -- listeners of no other event change.
  pub listeners-add_listener :
      (event other : String) (h : H) (s : EventSource H D)
      → listeners other (add_listener event h s).0 ≡ (
          if str_eq event other
          then listeners event s ++ ((add_listener event h s).1, h) ∷ []
          else listeners other s)
  unfolding listeners add_listener
  listeners-add_listener event other h s = ground (
    arith,
    lookup-insert event other ((s.next_id, h) ∷ []) s.handlers,
    lookup-insert event other (listeners event s ++ (s.next_id, h) ∷ []) s.handlers,
  )

  pub listeners-unset_erase :
      (event other : String) (id : ℕ) (s : EventSource H D)
      → listeners other (unset_listener event id s)
        ≡ (if str_eq event other then erase_method id (listeners event s) else listeners other s)
  unfolding listeners unset_listener erase_method
  listeners-unset_erase event other id s = ground (
    arith,
    lookup-insert event other (erase_method id (listeners event s)) s.handlers,
    str_eq_iff event other,
  )

  -- Clearing an event leaves it without listeners, and every other event with what it had.
  pub listeners-clear_listeners :
      (event other : String) (s : EventSource H D)
      → listeners other (clear_listeners event s)
        ≡ (if str_eq event other then [] else listeners other s)
  unfolding listeners clear_listeners
  listeners-clear_listeners event other s =
      ground (arith, lookup-erase event other s.handlers, str_eq_iff event other)
