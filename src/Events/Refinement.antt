-- ===== src/Events/Refinement.antt =====
-- What src/core/EventSource.cpp promises of its listeners: the source is one list of subscriptions, in
-- the order in which they were made.
use buckey.Common.{
  ℕ, ◌+◌, ◌<◌, ◌≡◌, refl, sym, ap, ◌∙◌, true, none, some, List, [], ◌∷◌, ◌++◌, append-nil, arith,
  if◌then◌else◌, length, String, str_eq, str_eq_iff,
}
use buckey.Events.{
  lookup, ulong_mod, EventSource, new_source, add_listener, unset_listener, clear_listeners,
  trigger_events, manage_round, kill_threads,
}
use buckey.Events.Listeners.{without, listeners, listeners-add_listener, listeners-clear_listeners}
use buckey.Events.Ids.{
  IsValid, new_source-IsValid, listeners-unset_listener, Call, adds, unsets, clears, triggers,
  manages, kills, step, run, next_id-step, step-IsValid, next_id-add_listener, id-add_listener,
  next_id-unset_listener,
}
use buckey.Events.Board.{
  Subscription, Board, blank, drop_id, drop_event, of_event, of_event-append, of_event-drop_id,
  of_event-drop_event,
}

module _ {H D : Type 0} where
  -- What each call does to the subscriptions.
  abbrev pub spec_step : Board H → Call H D → Board H
  spec_step b (adds e h) =
      let new : Subscription H = record { event = e; id = b.next_subscription; handler = h } in
      record b {
        subscriptions = b.subscriptions ++ new ∷ [];
        next_subscription = b.next_subscription + 1;
      }
  spec_step b (unsets e i) = record b { subscriptions = drop_id e i b.subscriptions }
  spec_step b (clears e) = record b { subscriptions = drop_event e b.subscriptions }
  spec_step b (triggers e arg) = b
  spec_step b manages = b
  spec_step b kills = record b { closed = true }

  abbrev pub spec_run : Board H → List (Call H D) → Board H
  spec_run b [] = b
  spec_run b (c ∷ cs) = spec_run (spec_step b c) cs

  -- A source is the board: the ids, the flag, and the listeners of each event in their order.
  pub record Refines (s : EventSource H D) (b : Board H) : Type 0 where
    pub same_next : s.next_id ≡ b.next_subscription
    pub same_closed : s.request_join ≡ b.closed
    pub same_listeners : (e : String) → listeners e s ≡ of_event e b.subscriptions

  new_source-Refines : (n : ℕ) → Refines (new_source {H = H} {D = D} n) (blank n)
  unfolding new_source listeners lookup
  new_source-Refines n = record { same_next = refl; same_closed = refl; same_listeners = λ e. refl }

  same_handlers-Refines :
      (s t : EventSource H D) (b : Board H)
      → t.handlers ≡ s.handlers
      → t.next_id ≡ s.next_id
      → t.request_join ≡ s.request_join
      → Refines s b
      → Refines t b
  unfolding listeners
  same_handlers-Refines s t b e n q r = record {
    same_next = n ∙ r.same_next;
    same_closed = q ∙ r.same_closed;
    same_listeners = λ event.
        ap
          (λ h. elim (lookup {V = List (ℕ × H)} event h) as (λ o. List (ℕ × H)) [
            | none ↦ []
            | some ms ↦ ms
          ])
          e
        ∙ r.same_listeners event;
  }

  closed-add_listener :
      (e : String) (h : H) (s : EventSource H D)
      → (add_listener e h s).0.request_join ≡ s.request_join
  unfolding add_listener
  closed-add_listener e h s = refl

  closed-unset_listener :
      (e : String) (i : ℕ) (s : EventSource H D)
      → (unset_listener e i s).request_join ≡ s.request_join
  unfolding unset_listener
  closed-unset_listener e i s = ground arith

  closed-clear_listeners :
      (e : String) (s : EventSource H D) → (clear_listeners e s).request_join ≡ s.request_join
  unfolding clear_listeners
  closed-clear_listeners e s = ground arith

  next_id-clear_listeners :
      (e : String) (s : EventSource H D) → (clear_listeners e s).next_id ≡ s.next_id
  unfolding clear_listeners
  next_id-clear_listeners e s = ground arith

  adds-Refines :
      (s : EventSource H D) (b : Board H) (e : String) (h : H)
      → s.next_id + 1 < ulong_mod
      → Refines s b
      → Refines (step s (adds e h)) (spec_step b (adds e h))
  unfolding step
  adds-Refines s b e h bound r =
      let new : Subscription H = record { event = e; id = b.next_subscription; handler = h } in
      record {
        same_next = next_id-add_listener e h s bound ∙ ap (λ n. n + 1) r.same_next;
        same_closed = closed-add_listener e h s ∙ r.same_closed;
        same_listeners = λ other.
            listeners-add_listener e other h s
            ∙ ground (
              arith,
              id-add_listener e h s,
              r.same_next,
              r.same_listeners e,
              r.same_listeners other,
              of_event-append other b.subscriptions (new ∷ []),
              str_eq_iff e other,
              append-nil (of_event other b.subscriptions),
            );
      }

  step-Refines :
      (s : EventSource H D) (b : Board H) (c : Call H D)
      → s.next_id + 1 < ulong_mod
      → IsValid s
      → Refines s b
      → Refines (step s c) (spec_step b c)
  unfolding step
  step-Refines s b (adds e h) bound v r = adds-Refines s b e h bound r
  step-Refines s b (unsets e i) bound v r = record {
    same_next = next_id-unset_listener e i s ∙ r.same_next;
    same_closed = closed-unset_listener e i s ∙ r.same_closed;
    same_listeners = λ other.
        listeners-unset_listener e other i s v
        ∙ ap (λ l. if str_eq e other then without i l else listeners other s) (r.same_listeners e)
        ∙ ap (λ l. if str_eq e other then without i (of_event e b.subscriptions) else l)
            (r.same_listeners other)
        ∙ sym (of_event-drop_id e other i b.subscriptions);
  }
  step-Refines s b (clears e) bound v r = record {
    same_next = next_id-clear_listeners e s ∙ r.same_next;
    same_closed = closed-clear_listeners e s ∙ r.same_closed;
    same_listeners = λ other.
        listeners-clear_listeners e other s
        ∙ ap (λ l. if str_eq e other then [] else l) (r.same_listeners other)
        ∙ sym (of_event-drop_event e other b.subscriptions);
  }
  step-Refines s b (triggers e arg) bound v r =
      same_handlers-Refines s (trigger_events e arg s) b (unfold trigger_events in ground arith)
        (unfold trigger_events in ground arith) (unfold trigger_events in ground arith) r
  step-Refines s b manages bound v r =
      same_handlers-Refines s (manage_round s) b (unfold manage_round in ground arith)
        (unfold manage_round in ground arith) (unfold manage_round in ground arith) r
  step-Refines s b kills bound v r = record {
    same_next = unfold kill_threads in r.same_next;
    same_closed = unfold kill_threads in refl;
    same_listeners = unfold kill_threads listeners in r.same_listeners;
  }

  run-Refines_from :
      (s : EventSource H D) (b : Board H) (cs : List (Call H D))
      → s.next_id + length cs < ulong_mod
      → IsValid s
      → Refines s b
      → Refines (run s cs) (spec_run b cs)
  unfolding run
  run-Refines_from s b [] bound v r = r
  run-Refines_from s b (c ∷ cs) bound v r =
      run-Refines_from (step s c) (spec_step b c) cs
        (omega (arith, bound, next_id-step s c (omega arith))) (step-IsValid s c (omega arith) v)
        (step-Refines s b c (omega arith) v r)

  -- Whatever calls are made on a new source, it is at any time what one list of subscriptions says, to
  -- which an addition appends, from which a removal drops those of its event under its id, and a
  -- clearing those of its event: each event has the listeners that the list has for it, in the order of
  -- the list, the ids given out are those of the list, and events are closed once threads have been
  -- killed, as long as the count of calls cannot carry the ids past an unsigned long.
  pub run-Refines :
      (n : ℕ) (cs : List (Call H D))
      → n + length cs < ulong_mod
      → Refines (run (new_source n) cs) (spec_run (blank n) cs)
  run-Refines n cs bound =
      run-Refines_from (new_source n) (blank n) cs (unfold new_source in bound)
        (new_source-IsValid n (new_source n) refl) (new_source-Refines n)
