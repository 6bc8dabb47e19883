-- ===== src/System/Filled.antt =====
-- The table of tasks during `kernel_start` of kernel/main.c: cleared, then filled slot by slot.
use klyx.Prelude.{
  ℕ, zero, suc, ◌+◌, ◌≤◌, ◌<◌, ◌≡◌, ◌∙◌, refl, ap, true, false, Bool, update, update_self,
  update_ne, update_all, arith,
}
use native.Mathlib.Decide.{ℕ_discrete}
use klyx.Sched.Task.{Task, Kernel, dead, is_dead, tasks_cap, fresh_task, sched_make_task}
use klyx.Sched.Queue.{IsQueue}
use klyx.Sched.Slots.{sched_make_task-first}
use klyx.System.Boot.{Symbols, kill_all, make_tasks}

kill_all-below :
    (left pid : ℕ) (tasks : ℕ → Task) (j : ℕ) → j < pid → kill_all left pid tasks j ≡ tasks j
unfolding kill_all
kill_all-below zero pid tasks j lt = refl
kill_all-below (suc left) pid tasks j lt =
    kill_all-below left (pid + 1) (update tasks pid (record (tasks pid) { status = dead })) j
      (omega arith)
    ∙ update_ne tasks pid (record (tasks pid) { status = dead }) j (λ e. omega arith)

-- Every slot that the loop passes is dead.
pub kill_all-dead :
    (left pid : ℕ) (tasks : ℕ → Task) (j : ℕ)
    → pid ≤ j
    → j < pid + left
    → is_dead (kill_all left pid tasks j).status ≡ true
unfolding kill_all
kill_all-dead zero pid tasks j ge lt = absurd (omega arith)
kill_all-dead (suc left) pid tasks j ge lt =
    let gone = record (tasks pid) { status = dead } in
    elim (ℕ_discrete j pid) [
      | yes here ↦
          rw
            (
              here,
              kill_all-below left (pid + 1) (update tasks pid gone) pid (omega arith),
              update_self tasks pid gone,
            )
            refl
      | no ne ↦ kill_all-dead left (pid + 1) (update tasks pid gone) j (omega arith) (omega arith)
    ]

pub kill_all-IsQueue :
    (left pid : ℕ) (tasks : ℕ → Task)
    → ((j : ℕ) → IsQueue (tasks j))
    → (j : ℕ) → IsQueue (kill_all left pid tasks j)
unfolding kill_all
kill_all-IsQueue zero pid tasks q j = q j
kill_all-IsQueue (suc left) pid tasks q j =
    kill_all-IsQueue left (pid + 1) (update tasks pid (record (tasks pid) { status = dead }))
      (update_all (λ i u. IsQueue u) tasks pid (record (tasks pid) { status = dead })
        (same_ring (q pid)) q)
      j
  where
    same_ring : IsQueue (tasks pid) → IsQueue (record (tasks pid) { status = dead })
    same_ring h = omega arith

-- The slots before `n` are taken and the others of the table are dead.
pub record IsFilled (n : ℕ) (tasks : ℕ → Task) : Type 0 where
  pub taken : (j : ℕ) → j < n → is_dead (tasks j).status ≡ false
  pub free : (j : ℕ) → n ≤ j → j < tasks_cap → is_dead (tasks j).status ≡ true

module _ (eip tty fs gs cs generic_segment : ℕ) (yield_only : Bool) where
  -- A task that is made goes to slot `n`.
  sched_make_task-next :
      (n : ℕ) (k : Kernel)
      → IsFilled n k.tasks
      → n < tasks_cap
      → sched_make_task eip tty fs gs cs generic_segment yield_only k ≡ (
        n,
        record k {
          tasks = update k.tasks n (fresh_task n eip tty fs gs cs generic_segment yield_only);
        },
      )
  unfolding sched_make_task
  sched_make_task-next n k f lt =
      sched_make_task-first eip tty fs gs cs generic_segment yield_only n k
        (record { within = lt; is_free = f.free n (omega arith) lt; first = f.taken })

  fresh_task-IsFilled :
      (n : ℕ) (tasks : ℕ → Task)
      → IsFilled n tasks
      → IsFilled (n + 1) (update tasks n (fresh_task n eip tty fs gs cs generic_segment yield_only))
  unfolding fresh_task
  fresh_task-IsFilled n tasks f =
      let fresh = fresh_task n eip tty fs gs cs generic_segment yield_only in
      record {
        taken = λ j lt. elim (ℕ_discrete j n) [
          | yes here ↦ rw (here, update_self tasks n fresh) refl
          | no ne ↦ rw (update_ne tasks n fresh j ne) (f.taken j (omega arith))
        ];
        free = λ j ge lt.
            ap (λ u. is_dead u.status) (update_ne tasks n fresh j (λ e. omega arith))
            ∙ f.free j (omega arith) lt;
      }

  -- One more call, from a kernel that has only got tasks so far.
  sched_make_task-IsFilled :
      (n : ℕ) (k : Kernel) (tasks : ℕ → Task) (l : Kernel)
      → l ≡ record k { tasks = tasks }
      → IsFilled n tasks
      → n < tasks_cap
      → ((sched_make_task eip tty fs gs cs generic_segment yield_only l).1 ≡ record k {
        tasks = update tasks n (fresh_task n eip tty fs gs cs generic_segment yield_only);
      })
        × IsFilled
            (n + 1)
            (update tasks n (fresh_task n eip tty fs gs cs generic_segment yield_only))
  sched_make_task-IsFilled n k tasks l e f lt = (
    ap (λ x. (sched_make_task eip tty fs gs cs generic_segment yield_only x).1) e
        ∙ ap (λ r. r.1) (sched_make_task-next n (record k { tasks = tasks }) f lt),
    fresh_task-IsFilled n tasks f,
  )

-- The table behind the five calls.
abbrev pub first_tasks : Symbols → (ℕ → Task) → ℕ → Task
first_tasks s tasks =
    let t0 = update tasks 0 (fresh_task 0 s.test_init 0 0 0 0x08 0x10 true) in
    let t1 = update t0 1 (fresh_task 1 s.test_a 0 0 0 0x08 0x10 false) in
    let t2 = update t1 2 (fresh_task 2 s.test_b 1 0 0 0x08 0x10 false) in
    let t3 = update t2 3 (fresh_task 3 s.test_a 2 0 0 0x08 0x10 false) in
    update t3 4 (fresh_task 4 s.test_c 3 0 0 0x08 0x10 false)

pub make_tasks-IsFilled :
    (s : Symbols) (k : Kernel)
    → IsFilled 0 k.tasks
    → (make_tasks s k ≡ record k { tasks = first_tasks s k.tasks })
      × IsFilled 5 (first_tasks s k.tasks)
unfolding make_tasks
make_tasks-IsFilled s k f0 =
    let (e1, f1) =
      sched_make_task-IsFilled s.test_init 0 0 0 0x08 0x10 true 0 k k.tasks k refl f0
        (omega arith) in
    let (e2, f2) =
      sched_make_task-IsFilled s.test_a 0 0 0 0x08 0x10 false 1 k _ _ e1 f1 (omega arith) in
    let (e3, f3) =
      sched_make_task-IsFilled s.test_b 1 0 0 0x08 0x10 false 2 k _ _ e2 f2 (omega arith) in
    let (e4, f4) =
      sched_make_task-IsFilled s.test_a 2 0 0 0x08 0x10 false 3 k _ _ e3 f3 (omega arith) in
    sched_make_task-IsFilled s.test_c 3 0 0 0x08 0x10 false 4 k _ _ e4 f4 (omega arith)
