-- ===== src/RootGrammar/Listening.antt =====
-- The listeners of a mode that is started and stopped, in src/core/CoreMode.cpp and
-- src/sphinx/SphinxMode.cpp.
use buckey.Common.{
  ℕ, ◌+◌, ◌<◌, ◌≡◌, refl, ap, ◌∙◌, subst, inl, inr, false, List, [], ◌∷◌, ◌++◌, arith,
  if◌then◌else◌, Bool-cases, length, String, str_eq, str_eq_iff,
}
use buckey.Events.{EventSource, ulong_mod, add_listener, unset_listener, erase_method}
use buckey.Events.Ids.{IsValid, next_id-add_listener, id-add_listener}
use buckey.Events.Listeners.{
  Within-mono, Within, listeners, listeners-add_listener, listeners-unset_erase,
  erase_method-append,
}
use buckey.RootGrammar.{Jsgf}
use buckey.RootGrammar.Modes.{
  stop_listening, Host, start_core, stop_core, start_sphinx, stop_sphinx,
}

module _ {H : Type 0} where
  -- What one event has after calls of addListener, whose ids count up, and after calls of unsetListener.
  abbrev added : List (String × H) → ℕ → String → List (ℕ × H) → List (ℕ × H)
  added [] n other ms = ms
  added ((event, h) ∷ subs) n other ms =
      added subs (n + 1) other (if str_eq event other then ms ++ (n, h) ∷ [] else ms)

  abbrev erased : List (String × ℕ) → String → List (ℕ × H) → List (ℕ × H)
  erased [] other ms = ms
  erased ((event, id) ∷ ids) other ms =
      erased ids other (if str_eq event other then erase_method id ms else ms)

  abbrev counted : List (String × H) → ℕ → List (String × ℕ)
  counted [] n = []
  counted ((event, h) ∷ subs) n = (event, n) ∷ counted subs (n + 1)

module _ {H D : Type 0} where
  -- Calls of addListener in a row, with the events and the ids that they return.
  listen : List (String × H) → EventSource H D → EventSource H D × List (String × ℕ)
  listen [] b = (b, [])
  listen ((event, h) ∷ subs) b =
      let (b', id) = add_listener event h b in
      let (last, ids) = listen subs b' in (last, (event, id) ∷ ids)

  same_event :
      {A : Type 0} (event other : String) (s : EventSource H D) (f : List (ℕ × H) → A) (x : A)
      → (if str_eq event other then f (listeners event s) else x)
        ≡ (if str_eq event other then f (listeners other s) else x)
  same_event event other s f x = elim (Bool-cases (str_eq event other)) [
    | inl e ↦
        ap (λ o. if str_eq event other then f (listeners o s) else x) ((str_eq_iff event other).0 e)
    | inr e ↦ rw e refl
  ]

  listeners-add :
      (event other : String) (h : H) (s : EventSource H D)
      → listeners other (add_listener event h s).0 ≡ (
          if str_eq event other
          then listeners other s ++ (s.next_id, h) ∷ []
          else listeners other s)
  listeners-add event other h s =
      listeners-add_listener event other h s
      ∙ ap
          (λ id.
            if str_eq event other then listeners event s ++ (id, h) ∷ [] else listeners other s)
          (id-add_listener event h s)
      ∙ same_event event other s (λ ms. ms ++ (s.next_id, h) ∷ []) (listeners other s)

  listeners-unset :
      (event other : String) (id : ℕ) (s : EventSource H D)
      → listeners other (unset_listener event id s)
        ≡ (if str_eq event other then erase_method id (listeners other s) else listeners other s)
  listeners-unset event other id s =
      listeners-unset_erase event other id s
      ∙ same_event event other s (erase_method id) (listeners other s)

  listen-ids :
      (subs : List (String × H)) (s : EventSource H D)
      → s.next_id + length subs < ulong_mod
      → (listen subs s).1 ≡ counted subs s.next_id
  unfolding listen
  listen-ids [] s b = refl
  listen-ids ((event, h) ∷ subs) s b =
      let next = next_id-add_listener event h s (omega (arith, b)) in
      (λ i.
        (event, id-add_listener event h s i)
        ∷ listen-ids subs (add_listener event h s).0 (omega (arith, b, next)) i)
      ∙ ap (λ n. (event, s.next_id) ∷ counted subs n) next

  listeners-listen :
      (subs : List (String × H)) (other : String) (s : EventSource H D)
      → s.next_id + length subs < ulong_mod
      → listeners other (listen subs s).0 ≡ added subs s.next_id other (listeners other s)
  unfolding listen
  listeners-listen [] other s b = refl
  listeners-listen ((event, h) ∷ subs) other s b =
      let next = next_id-add_listener event h s (omega (arith, b)) in
      listeners-listen subs other (add_listener event h s).0 (omega (arith, b, next))
      ∙ (λ i. added subs (next i) other (listeners-add event other h s i))

  listeners-stop_listening :
      (ids : List (String × ℕ)) (other : String) (s : EventSource H D)
      → listeners other (stop_listening ids s) ≡ erased ids other (listeners other s)
  unfolding stop_listening
  listeners-stop_listening [] other s = refl
  listeners-stop_listening ((event, id) ∷ ids) other s =
      listeners-stop_listening ids other (unset_listener event id s)
      ∙ ap (erased ids other) (listeners-unset event other id s)

  listeners-stopped :
      (subs : List (String × H)) (shape : List (String × ℕ) → List (String × ℕ)) (other : String)
      (s : EventSource H D)
      → s.next_id + length subs < ulong_mod
      → listeners other (stop_listening (shape (listen subs s).1) (listen subs s).0)
        ≡ erased
            (shape (counted subs s.next_id))
            other
            (added subs s.next_id other (listeners other s))
  listeners-stopped subs shape other s b =
      listeners-stop_listening (shape (listen subs s).1) other (listen subs s).0
      ∙ (λ i. erased (shape (listen-ids subs s b i)) other (listeners-listen subs other s b i))

-- The core mode stops listening in another order.
abbrev reordered : List (String × ℕ) → List (String × ℕ)
reordered (a ∷ b ∷ c ∷ d ∷ rest) = a ∷ d ∷ c ∷ b ∷ rest
reordered ids = ids

-- A property of every event is one of each event that is tried, and of those that are none of them.
split :
    (event other : String) (P : String → Type 0)
    → P event
    → (str_eq event other ≡ false → P other)
    → P other
split event other P p k = elim (Bool-cases (str_eq event other)) [
  | inl e ↦ subst P ((str_eq_iff event other).0 e) p
  | inr e ↦ k e
]

module _ {H : Type 0} where
  abbrev sphinx_subs : (enabled disabled changed : H) → List (String × H)
  sphinx_subs enabled disabled changed =
      ("onServiceEnableEvent", enabled)
      ∷ ("onServiceDisableEvent", disabled)
      ∷ ("onServiceRegisterEvent", changed)
      ∷ []

  abbrev core_subs : (finished updated : H) → List (String × H)
  core_subs finished updated =
      ("onFinishInitEvent", finished)
      ∷ ("onModeRegisterEvent", updated)
      ∷ ("onModeDisableEvent", updated)
      ∷ ("onModeEnableEvent", updated)
      ∷ ("onServiceEnableEvent", updated)
      ∷ ("onServiceDisableEvent", updated)
      ∷ ("onServiceRegisterEvent", updated)
      ∷ []

  -- Each event has at most one of the listeners, which is erased.
  sphinx-erased :
      (enabled disabled changed : H) (n : ℕ) (other : String) (ms : List (ℕ × H))
      → Within 0 n ms
      → erased
          (counted (sphinx_subs enabled disabled changed) n)
          other
          (added (sphinx_subs enabled disabled changed) n other ms)
        ≡ ms
  sphinx-erased enabled disabled changed n other ms w0 =
      let w1 = Within-mono 0 n ms w0 in
      let w2 = Within-mono 0 (n + 1) ms w1 in
      let subs = sphinx_subs enabled disabled changed in
      let P = λ (o : String). erased (counted subs n) o (added subs n o ms) ≡ ms in
      split "onServiceEnableEvent" other P (erase_method-append 0 n enabled ms w0) (λ e1.
        split "onServiceDisableEvent" other P (erase_method-append 0 (n + 1) disabled ms w1) (λ e2.
          split "onServiceRegisterEvent" other P (erase_method-append 0 (n + 1 + 1) changed ms w2)
            (λ e3. rw (e1, e2, e3) refl)))

  core-erased :
      (finished updated : H) (n : ℕ) (other : String) (ms : List (ℕ × H))
      → Within 0 n ms
      → erased
          (reordered (counted (core_subs finished updated) n))
          other
          (added (core_subs finished updated) n other ms)
        ≡ ms
  core-erased finished updated n other ms w0 =
      let w1 = Within-mono 0 n ms w0 in
      let w2 = Within-mono 0 (n + 1) ms w1 in
      let w3 = Within-mono 0 (n + 1 + 1) ms w2 in
      let w4 = Within-mono 0 (n + 1 + 1 + 1) ms w3 in
      let w5 = Within-mono 0 (n + 1 + 1 + 1 + 1) ms w4 in
      let w6 = Within-mono 0 (n + 1 + 1 + 1 + 1 + 1) ms w5 in
      let subs = core_subs finished updated in
      let P = λ (o : String). erased (reordered (counted subs n)) o (added subs n o ms) ≡ ms in
      split "onFinishInitEvent" other P (erase_method-append 0 n finished ms w0) (λ e0.
        split "onModeRegisterEvent" other P (erase_method-append 0 _ updated ms w1) (λ e1.
          split "onModeDisableEvent" other P (erase_method-append 0 _ updated ms w2) (λ e2.
            split "onModeEnableEvent" other P (erase_method-append 0 _ updated ms w3) (λ e3.
              split "onServiceEnableEvent" other P (erase_method-append 0 _ updated ms w4) (λ e4.
                split "onServiceDisableEvent" other P (erase_method-append 0 _ updated ms w5) (λ e5.
                  split "onServiceRegisterEvent" other P (erase_method-append 0 _ updated ms w6)
                    (λ e6. rw (e0, e1, e2, e3, e4, e5, e6) refl)))))))

module _ {K : Jsgf} {H D : Type 0} where
  pub listeners-stop_sphinx :
      (enabled disabled changed : H) (read : K.Grammar) (b : Host K H D) (other : String)
      → IsValid b.source
      → b.source.next_id + 3 < ulong_mod
      → let (m, started) = start_sphinx enabled disabled changed read b in
        listeners other (stop_sphinx m started).1.source ≡ listeners other b.source
  unfolding start_sphinx stop_sphinx listen
  listeners-stop_sphinx enabled disabled changed read b other v room =
      listeners-stopped (sphinx_subs enabled disabled changed) (λ ids. ids) other b.source room
      ∙ sphinx-erased enabled disabled changed b.source.next_id other (listeners other b.source)
          (v other)

  -- A core mode that is started and stopped leaves every event's listeners as they were, if in every
  -- event the ids grow and stay below the next id, and seven more fit into an unsigned long.
  pub listeners-stop_core :
      (finished updated : H) (read : K.Grammar) (b : Host K H D) (other : String)
      → IsValid b.source
      → b.source.next_id + 7 < ulong_mod
      → let (m, started) = start_core finished updated read b in
        listeners other (stop_core m started).1.source ≡ listeners other b.source
  unfolding start_core stop_core listen
  listeners-stop_core finished updated read b other v room =
      listeners-stopped (core_subs finished updated) reordered other b.source room
      ∙ core-erased finished updated b.source.next_id other (listeners other b.source) (v other)
