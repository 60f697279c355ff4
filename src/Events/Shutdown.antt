-- ===== src/Events/Shutdown.antt =====
-- The destructor's killThreads against the manager thread and a listener's thread that may trigger
-- events of the same source (src/core/EventSource.cpp, lines 19 to 81), as interleavings of their steps
-- on the flag requestJoin and the mutex threadManipulationLock.
use buckey.Common.{◌≡◌, refl, ◌↔◌, ◌⊎◌, inl, inr, Bool, true, false, ◌&&◌, ◌||◌, arith, Bool-cases}

-- The manager: at the test of its loop, before lock(), between lock() and unlock(), asleep, returned.
pub data Manager : Type 0 where
  testing locking sweeping sleeping returned : Manager

-- The destructor: before requestJoin.store, before lock(), joining the manager with the mutex held,
-- joining the listeners' threads with the mutex held, behind unlock().
pub data Killer : Type 0 where
  starting acquiring joining clearing finished : Killer

-- A listener's thread: at work, in triggerEvents before lock(), between lock() and unlock(), returned.
pub data Listener : Type 0 where
  working asking inside done : Listener

pub data Owner : Type 0 where
  free manager killer listener : Owner

pub record State : Type 0 where
  pub request_join : Bool
  pub owner : Owner
  pub m : Manager
  pub k : Killer
  pub l : Listener

-- One step of a thread. lock() waits for a free mutex, join() for the return of the thread.
pub data Step : State → State → Type 0 where
  enter : (s : State) → s.m ≡ testing → s.request_join ≡ false → Step s (record s { m = locking })
  leave : (s : State) → s.m ≡ testing → s.request_join ≡ true → Step s (record s { m = returned })
  manager_locks :
      (s : State)
      → s.m ≡ locking
      → s.owner ≡ free
      → Step s (record s { m = sweeping; owner = manager })
  manager_unlocks : (s : State) → s.m ≡ sweeping → Step s (record s { m = sleeping; owner = free })
  wake : (s : State) → s.m ≡ sleeping → Step s (record s { m = testing })
  triggers : (s : State) → s.l ≡ working → s.request_join ≡ false → Step s (record s { l = asking })
  listener_locks :
      (s : State)
      → s.l ≡ asking
      → s.owner ≡ free
      → Step s (record s { l = inside; owner = listener })
  listener_unlocks : (s : State) → s.l ≡ inside → Step s (record s { l = working; owner = free })
  ends : (s : State) → s.l ≡ working → Step s (record s { l = done })
  request : (s : State) → s.k ≡ starting → Step s (record s { k = acquiring; request_join = true })
  killer_locks :
      (s : State)
      → s.k ≡ acquiring
      → s.owner ≡ free
      → Step s (record s { k = joining; owner = killer })
  joins : (s : State) → s.k ≡ joining → s.m ≡ returned → Step s (record s { k = clearing })
  killer_unlocks :
      (s : State) → s.k ≡ clearing → s.l ≡ done → Step s (record s { k = finished; owner = free })

abbrev pub begin : State
begin = record { request_join = false; owner = free; m = testing; k = starting; l = working }

pub data Reach : State → Type 0 where
  start : Reach begin
  later : {s t : State} → Reach s → Step s t → Reach t

-- Who is between lock() and unlock().
abbrev owner_of : Manager → Killer → Listener → Owner
owner_of sweeping k l = manager
owner_of m joining l = killer
owner_of m clearing l = killer
owner_of m k inside = listener
owner_of m k l = free

abbrev holds : Killer → Bool
holds joining = true
holds clearing = true
holds k = false

abbrev is_sweeping : Manager → Bool
is_sweeping sweeping = true
is_sweeping m = false

abbrev is_inside : Listener → Bool
is_inside inside = true
is_inside l = false

abbrev requested : Killer → Bool
requested starting = false
requested k = true

-- Behind its join the destructor knows that the manager has returned.
abbrev joined : Killer → Manager → Bool
joined clearing returned = true
joined clearing m = false
joined k m = true

record Inv (s : State) : Type 0 where
  owned : s.owner ≡ owner_of s.m s.k s.l
  exclusive : (holds s.k && is_sweeping s.m) ≡ false
  apart : (is_inside s.l && (holds s.k || is_sweeping s.m)) ≡ false
  flagged : s.request_join ≡ requested s.k
  known : joined s.k s.m ≡ true

Step-Inv : {s t : State} → Step s t → Inv s → Inv t
Step-Inv (enter s e f) v = ground arith
Step-Inv (leave s e f) v = ground arith
Step-Inv (manager_locks s e f) v = ground arith
Step-Inv (manager_unlocks s e) v = ground arith
Step-Inv (wake s e) v = ground arith
Step-Inv (triggers s e f) v = ground arith
Step-Inv (listener_locks s e f) v = ground arith
Step-Inv (listener_unlocks s e) v = ground arith
Step-Inv (ends s e) v = ground arith
Step-Inv (request s e) v = ground arith
Step-Inv (killer_locks s e f) v = ground arith
Step-Inv (joins s e f) v = ground arith
Step-Inv (killer_unlocks s e f) v = ground arith

Reach-Inv : {s : State} → Reach s → Inv s
Reach-Inv start = record {
  owned = refl;
  exclusive = refl;
  apart = refl;
  flagged = refl;
  known = refl;
}
Reach-Inv (later r st) = Step-Inv st (Reach-Inv r)

-- The destructor has locked the mutex and joins a thread that waits for that mutex: the manager, where
-- the listener waits as well or has returned, or, behind the manager's return, the listener.
abbrev pub IsDeadlocked : State → Type 0
IsDeadlocked s =
    ((s.k ≡ joining) × (s.m ≡ locking) × ((s.l ≡ asking) ⊎ (s.l ≡ done)))
    ⊎ ((s.k ≡ clearing) × (s.m ≡ returned) × (s.l ≡ asking))

abbrev pub IsFinished : State → Type 0
IsFinished s = (s.m ≡ returned) × (s.k ≡ finished) × (s.l ≡ done)

abbrev pub IsStuck : State → Type 0
IsStuck s = (t : State) → ¬ Step s t

-- A step, or one of the ends.
abbrev Progress : State → Type 0
Progress s = ((t : State) × Step s t) ⊎ (IsDeadlocked s ⊎ IsFinished s)

-- The listener waits for the mutex or has returned.
abbrev IsIdle : State → Type 0
IsIdle s = (s.l ≡ asking) ⊎ (s.l ≡ done)

locking-Progress :
    (s : State) (k : Killer) → Inv s → s.m ≡ locking → s.k ≡ k → IsIdle s → Progress s
locking-Progress s starting v e f i = inl (_, request s f)
locking-Progress s acquiring v e f (inl g) = inl (_, killer_locks s f (ground arith))
locking-Progress s acquiring v e f (inr g) = inl (_, killer_locks s f (ground arith))
locking-Progress s joining v e f i = inr (inl (inl (f, e, i)))
locking-Progress s clearing v e f i = absurd (ground (arith, v.known))
locking-Progress s finished v e f (inl g) = inl (_, manager_locks s e (ground arith))
locking-Progress s finished v e f (inr g) = inl (_, manager_locks s e (ground arith))

returned-Progress :
    (s : State) (k : Killer) → Inv s → s.m ≡ returned → s.k ≡ k → IsIdle s → Progress s
returned-Progress s starting v e f i = inl (_, request s f)
returned-Progress s acquiring v e f (inl g) = inl (_, killer_locks s f (ground arith))
returned-Progress s acquiring v e f (inr g) = inl (_, killer_locks s f (ground arith))
returned-Progress s joining v e f i = inl (_, joins s f e)
returned-Progress s clearing v e f (inl g) = inr (inl (inr (f, e, g)))
returned-Progress s clearing v e f (inr g) = inl (_, killer_unlocks s f g)
returned-Progress s finished v e f (inl g) = inl (_, listener_locks s g (ground arith))
returned-Progress s finished v e f (inr g) = inr (inr (e, f, g))

idle-Progress : (s : State) (m : Manager) → Inv s → s.m ≡ m → IsIdle s → Progress s
idle-Progress s testing v e i = elim (Bool-cases s.request_join) [
  | inl f ↦ inl (_, leave s e f)
  | inr f ↦ inl (_, enter s e f)
]
idle-Progress s locking v e i = locking-Progress s s.k v e refl i
idle-Progress s sweeping v e i = inl (_, manager_unlocks s e)
idle-Progress s sleeping v e i = inl (_, wake s e)
idle-Progress s returned v e i = returned-Progress s s.k v e refl i

progress : (s : State) (l : Listener) → Inv s → s.l ≡ l → Progress s
progress s working v e = inl (_, ends s e)
progress s asking v e = idle-Progress s s.m v refl (inl e)
progress s inside v e = inl (_, listener_unlocks s e)
progress s done v e = idle-Progress s s.m v refl (inr e)

deadlocked_stuck : {s t : State} → Inv s → IsDeadlocked s → ¬ Step s t
deadlocked_stuck v d (enter s g h) = ground arith
deadlocked_stuck v d (leave s g h) = ground arith
deadlocked_stuck v d (manager_locks s g h) = ground arith
deadlocked_stuck v d (manager_unlocks s g) = ground arith
deadlocked_stuck v d (wake s g) = ground arith
deadlocked_stuck v d (triggers s g h) = ground arith
deadlocked_stuck v d (listener_locks s g h) = ground arith
deadlocked_stuck v d (listener_unlocks s g) = ground arith
deadlocked_stuck v d (ends s g) = ground arith
deadlocked_stuck v d (request s g) = ground arith
deadlocked_stuck v d (killer_locks s g h) = ground arith
deadlocked_stuck v d (joins s g h) = ground arith
deadlocked_stuck v d (killer_unlocks s g h) = ground arith

finished_stuck : {s t : State} → IsFinished s → ¬ Step s t
finished_stuck (e, f, i) (enter s g h) = cc
finished_stuck (e, f, i) (leave s g h) = cc
finished_stuck (e, f, i) (manager_locks s g h) = cc
finished_stuck (e, f, i) (manager_unlocks s g) = cc
finished_stuck (e, f, i) (wake s g) = cc
finished_stuck (e, f, i) (triggers s g h) = cc
finished_stuck (e, f, i) (listener_locks s g h) = cc
finished_stuck (e, f, i) (listener_unlocks s g) = cc
finished_stuck (e, f, i) (ends s g) = cc
finished_stuck (e, f, i) (request s g) = cc
finished_stuck (e, f, i) (killer_locks s g h) = cc
finished_stuck (e, f, i) (joins s g h) = cc
finished_stuck (e, f, i) (killer_unlocks s g h) = cc

stuck_end : (s : State) → IsStuck s → Progress s → IsDeadlocked s ⊎ IsFinished s
stuck_end s st (inl (t, x)) = absurd (st t x)
stuck_end s st (inr h) = h

-- With one listener's thread, which may trigger events of the source: the shutdown stops in exactly
-- three kinds of states: all threads are done, or the destructor holds the mutex and joins a manager
-- that waits for the mutex, or it joins a listener's thread that waits for the mutex.
pub IsStuck-iff : {s : State} → Reach s → IsStuck s ↔ (IsDeadlocked s ⊎ IsFinished s)
IsStuck-iff {s} r = (
  λ st. stuck_end s st (progress s s.l (Reach-Inv r) refl),
  λ h t x. elim h [ inl d ↦ deadlocked_stuck (Reach-Inv r) d x | inr f ↦ finished_stuck f x ],
)
