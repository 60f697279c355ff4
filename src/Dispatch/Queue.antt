-- ===== src/Dispatch/Queue.antt =====
-- The queue of inputs: order and loss.
use buckey.Common.{
  ◌≡◌, refl, sym, ap, ◌∙◌, Bool, true, false, Option, none, some, List, [], ◌∷◌, ◌++◌, map,
  append-nil, append_assoc, if◌then◌else◌, All, String,
}
use buckey.Dispatch.{
  Inbox, pass_input, pop, watch_round, prompt_take, Look, timed_out, answer, arrive, prompt_pop,
  prompt_confirmation,
}

-- What happens to an inbox: an input arrives, the watcher makes a round, a prompt makes a round, a
-- conversation begins or ends, or the program is told to stop.
pub data Event : Type 0 where
  arrives : String → Event
  watches : Event
  prompts : Event
  converses : Bool → Event
  stops : Event

pub data Taker : Type 0 where
  watcher prompt : Taker

-- An input that was taken from the queue: by whom, and with which flags.
pub record Taken : Type 0 where
  pub by : Taker
  pub while_conversing : Bool
  pub while_killed : Bool
  pub text : String

abbrev pub taken : Taker → Inbox → Option String → List Taken
taken t b none = []
taken t b (some s) =
    record { by = t; while_conversing = b.in_conversation; while_killed = b.killed; text = s } ∷ []

abbrev pub texts : List Taken → List String
texts = map λ t. t.text

-- The inbox after some events, and the inputs that were taken.
unfoldable pub run : Inbox → List Event → Inbox × List Taken
run b [] = (b, [])
run b (arrives s ∷ es) = run (pass_input s b) es
run b (watches ∷ es) =
    let (c, out) = watch_round b in let (d, later) = run c es in (d, taken watcher b out ++ later)
run b (prompts ∷ es) =
    let (c, out) = prompt_take b in let (d, later) = run c es in (d, taken prompt b out ++ later)
run b (converses v ∷ es) = run (record b { in_conversation = v }) es
run b (stops ∷ es) = run (record b { killed = true }) es

unfoldable pub arrivals : List Event → List String
arrivals [] = []
arrivals (arrives s ∷ es) = s ∷ arrivals es
arrivals (watches ∷ es) = arrivals es
arrivals (prompts ∷ es) = arrivals es
arrivals (converses v ∷ es) = arrivals es
arrivals (stops ∷ es) = arrivals es

-- Nobody takes an input once the program is told to stop, and the watcher none of a conversation.
pub record IsAllowed (t : Taken) : Type 0 where
  pub running : t.while_killed ≡ false
  pub apart : t.by ≡ watcher → t.while_conversing ≡ false

-- A round of the prompt that is in time and finds nothing.
pub record IsQuiet (l : Look) : Type 0 where
  pub in_time : l.late ≡ false
  pub nothing : l.arrived ≡ []

abbrev with_que : Inbox → List String → Inbox
with_que b que = record b { input_que = que }

arrive-append : (ss : List String) (b : Inbox) → arrive ss b ≡ with_que b (b.input_que ++ ss)
unfolding arrive pass_input
arrive-append [] b = ap (with_que b) (sym (append-nil b.input_que))
arrive-append (s ∷ ss) b =
    arrive-append ss (pass_input s b) ∙ ap (with_que b) (append_assoc b.input_que (s ∷ []) ss)

-- A round of a prompt that goes on.
prompt_round :
    (b : Inbox) (l : Look) (ls : List Look)
    → b.killed ≡ false
    → l.late ≡ false
    → prompt_confirmation b (l ∷ ls)
      ≡ prompt_pop (pop (arrive l.arrived b)) (prompt_confirmation (arrive l.arrived b) ls)
unfolding prompt_confirmation
prompt_round b l ls k e =
    let next =
      prompt_pop (pop (arrive l.arrived b)) (prompt_confirmation (arrive l.arrived b) ls) in
    ap (λ t. if t then (b, some (answer "")) else if l.late then (b, some timed_out) else next) k
    ∙ ap (λ t. if t then (b, some timed_out) else next) e

pop-none : (b : Inbox) → b.input_que ≡ [] → pop b ≡ (b, none)
unfolding pop
pop-none b e = rw e refl

-- A prompt with an empty queue, while the program is not told to stop, waits for the first input
-- that comes in time and answers by it alone: yes if it is the word confirm, else no; the inputs
-- behind it stay in the queue.
pub prompt_confirmation-answers :
    (b : Inbox) (quiet later : List Look) (s : String) (more : List String)
    → b.killed ≡ false
    → b.input_que ≡ []
    → All IsQuiet quiet
    → prompt_confirmation b (quiet ++ record { late = false; arrived = s ∷ more } ∷ later)
      ≡ (record b { input_que = more }, some (answer s))
unfolding pop prompt_pop arrive
prompt_confirmation-answers b [] later s more k e h =
    prompt_round b _ later k refl
    ∙ ap (λ i. prompt_pop (pop i) (prompt_confirmation i later))
        (arrive-append (s ∷ more) b ∙ ap (λ q. with_que b (q ++ s ∷ more)) e)
prompt_confirmation-answers b (l ∷ quiet) later s more k e (q, h) =
    let rest =
      prompt_confirmation b (quiet ++ record { late = false; arrived = s ∷ more } ∷ later) in
    prompt_round b l _ k q.in_time
    ∙ (ap
          (λ a. prompt_pop (pop (arrive a b)) (
            prompt_confirmation (arrive a b)
              (quiet ++ record { late = false; arrived = s ∷ more } ∷ later)))
          q.nothing
        ∙ (ap (λ p. prompt_pop p rest) (pop-none b e)
            ∙ prompt_confirmation-answers b quiet later s more k e h))
