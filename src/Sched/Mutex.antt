-- ===== src/Sched/Mutex.antt =====
-- include/klyx/mutex.h. A mutex is the number of the task that holds it, 0 for none. The code has no
-- atomic operation: the timer can stop a call between its test and its store, so each call is two steps.
use klyx.Prelude.{
  ℕ, ◌≡◌, ◌≢◌, not, sym, refl, Bool, List, [], ◌∷◌, ◌==◌, ==_ne, if◌then◌else◌, update, update_all,
}

-- Where a task is in these calls: in none of them, or between the test and the store of one.
pub data Point : Type 0 where
  outside to_take to_free : Point

-- The mutex, and where each task is.
pub record Shared : Type 0 where
  pub mutex : ℕ
  pub point : ℕ → Point

-- The test of `mutex_lock`, by the current task.
unfoldable pub test_lock : (current : ℕ) → Shared → Shared
test_lock current s = record s {
  point = update s.point current (if s.mutex == 0 then to_take else outside);
}

-- The test of `mutex_unlock`.
unfoldable pub test_unlock : (current : ℕ) → Shared → Shared
test_unlock current s = record s {
  point = update s.point current (if s.mutex == current then to_free else outside);
}

-- The assignment of a call whose test has held.
unfoldable pub assign : (current : ℕ) → Point → Shared → Shared
assign current outside s = s
assign current to_take s = record s { mutex = current; point = update s.point current outside }
assign current to_free s = record s { mutex = 0; point = update s.point current outside }

unfoldable pub store : (current : ℕ) → Shared → Shared
store current s = assign current (s.point current) s

-- The calls, without an interrupt in between.
unfoldable pub mutex_lock : (current : ℕ) → Shared → Shared
mutex_lock current s = store current (test_lock current s)

unfoldable pub mutex_unlock : (current : ℕ) → Shared → Shared
mutex_unlock current s = store current (test_unlock current s)

-- The test of the loop of `mutex_wait_unlock`, and of that of `mutex_wait_lock`.
unfoldable pub waits_unlock : ℕ → Bool
waits_unlock mutex = not (mutex == 0)

unfoldable pub waits_lock : ℕ → Bool
waits_lock mutex = mutex == 0

pub data Op : Type 0 where
  lock unlock : Op

-- Steps of several tasks, in the order in which the timer lets them happen, and the calls that begin in
-- them. A task begins a call when it is in none.
pub data Steps : (before after : Shared) → List (ℕ × Op) → Type 0 where
  done : {s : Shared} → Steps s s []
  begin_lock :
      {s l : Shared} {calls : List (ℕ × Op)} (task : ℕ)
      → s.point task ≡ outside
      → Steps (test_lock task s) l calls
      → Steps s l ((task, lock) ∷ calls)
  begin_unlock :
      {s l : Shared} {calls : List (ℕ × Op)} (task : ℕ)
      → s.point task ≡ outside
      → Steps (test_unlock task s) l calls
      → Steps s l ((task, unlock) ∷ calls)
  end_call :
      {s l : Shared} {calls : List (ℕ × Op)} (task : ℕ)
      → Steps (store task s) l calls
      → Steps s l calls

-- `p` begins no unlock.
abbrev pub HoldsOn : ℕ → List (ℕ × Op) → Type 0
HoldsOn p [] = Unit
HoldsOn p ((task, lock) ∷ calls) = HoldsOn p calls
HoldsOn p ((task, unlock) ∷ calls) = (task ≢ p) × HoldsOn p calls

-- `p` holds the mutex, and no task is between a test and a store.
pub record IsHeld (p : ℕ) (s : Shared) : Type 0 where
  pub holder : s.mutex ≡ p
  pub settled : (t : ℕ) → s.point t ≡ outside

test_lock-IsHeld : (p task : ℕ) (s : Shared) → p ≢ 0 → IsHeld p s → IsHeld p (test_lock task s)
unfolding test_lock
test_lock-IsHeld p task s ne h = record {
  holder = h.holder;
  settled =
      update_all (λ t q. q ≡ outside) s.point task _ (rw (h.holder, ==_ne p 0 ne) refl) h.settled;
}

test_unlock-IsHeld :
    (p task : ℕ) (s : Shared) → task ≢ p → IsHeld p s → IsHeld p (test_unlock task s)
unfolding test_unlock
test_unlock-IsHeld p task s ne h = record {
  holder = h.holder;
  settled =
      update_all (λ t q. q ≡ outside) s.point task _
        (rw (h.holder, ==_ne p task (λ e. ne (sym e))) refl) h.settled;
}

store-IsHeld : (p task : ℕ) (s : Shared) → IsHeld p s → IsHeld p (store task s)
unfolding store assign
store-IsHeld p task s h = rw (h.settled task) h

-- However the timer cuts the calls of the tasks, test and store apart, a mutex that a task other
-- than 0 holds stays its own until it begins to unlock it, if at first no task is between the test
-- and the store of a call.
pub mutex-HoldsOn :
    {s l : Shared} {calls : List (ℕ × Op)} (p : ℕ)
    → p ≢ 0
    → IsHeld p s
    → HoldsOn p calls
    → Steps s l calls
    → IsHeld p l
mutex-HoldsOn p ne h on done = h
mutex-HoldsOn p ne h on (begin_lock task at rest) =
    mutex-HoldsOn p ne (test_lock-IsHeld p task _ ne h) on rest
mutex-HoldsOn p ne h on (begin_unlock task at rest) =
    mutex-HoldsOn p ne (test_unlock-IsHeld p task _ on.0 h) on.1 rest
mutex-HoldsOn p ne h on (end_call task rest) = mutex-HoldsOn p ne (store-IsHeld p task _ h) on rest
