-- ===== src/Sched/Queue.antt =====
-- The signal ring of a task (`signals`, its heads and its size in `task_t`) as a bounded queue.
use klyx.Prelude.{
  Bool, ℕ, ◌+◌, ◌-◌, ◌%◌, ◌<◌, ◌≡◌, List, [], ◌∷◌, ◌++◌, length, leb, if◌then◌else◌, Bool-cases,
  inl, inr, leb→lt, lt→leb, ◌∙◌, arith,
}
use native.Mathlib.Numerals.{add-one}
use klyx.Prelude.Ring.{window, length-window, window-update}
use klyx.Sched.Task.{Task, task_sig_cap, enqueue_signal, fresh_task}

pub record IsQueue (t : Task) : Type 0 where
  pub fits : t.signals_size < task_sig_cap
  pub read_in : t.signals_read_head < task_sig_cap
  pub write_at : t.signals_write_head ≡ (t.signals_read_head + t.signals_size) % task_sig_cap

-- The signals that wait, oldest first.
abbrev pub pending : Task → List ℕ
pending t = window task_sig_cap t.signals t.signals_read_head t.signals_size

pub length-pending : (t : Task) → length (pending t) ≡ t.signals_size
length-pending t = length-window task_sig_cap t.signals t.signals_read_head t.signals_size

pub fresh_task-IsQueue :
    (pid eip tty fs gs cs seg : ℕ) (y : Bool) → IsQueue (fresh_task pid eip tty fs gs cs seg y)
unfolding fresh_task
fresh_task-IsQueue pid eip tty fs gs cs seg y = omega arith

pub enqueue_signal-IsQueue : (t : Task) (sig : ℕ) → IsQueue t → IsQueue (enqueue_signal t sig)
unfolding enqueue_signal
enqueue_signal-IsQueue t sig q = ground arith

-- With a valid ring, a task in whose ring 63 signals wait drops the next one, and any other takes
-- it at the end of its queue.
pub pending-enqueue_signal :
    (t : Task) (sig : ℕ)
    → IsQueue t
    → pending (enqueue_signal t sig)
      ≡ (if leb (task_sig_cap - 1) (length (pending t)) then pending t else pending t ++ (sig ∷ []))
unfolding enqueue_signal
pending-enqueue_signal t sig q =
    rw (length-pending t) (elim (Bool-cases (leb (task_sig_cap - 1) t.signals_size)) [
      | inl full ↦ rw full
      | inr room ↦ rw room (
          rw add-one (
            window-update task_sig_cap t.signals sig t.signals_read_head t.signals_size
              t.signals_write_head q.read_in (omega (arith, leb→lt _ _ room)) q.write_at))
    ])

-- A ring with room takes the signal at its end.
pub pending-enqueue_room :
    (t : Task) (sig : ℕ)
    → IsQueue t
    → t.signals_size < task_sig_cap - 1
    → pending (enqueue_signal t sig) ≡ pending t ++ (sig ∷ [])
pending-enqueue_room t sig q room =
    pending-enqueue_signal t sig q
    ∙ (rw (length-pending t, lt→leb (task_sig_cap - 1) t.signals_size room))

pub enqueue_signal-status : (t : Task) (sig : ℕ) → (enqueue_signal t sig).status ≡ t.status
unfolding enqueue_signal
enqueue_signal-status t sig = ground arith
