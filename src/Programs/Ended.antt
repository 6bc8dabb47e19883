-- ===== src/Programs/Ended.antt =====
-- The task `test_a` of kernel/test.c, from `login` to `exit`.
use klyx.Prelude.{ℕ, ◌<◌, arith, ◌≡◌, ◌≢◌, ◌∙◌, sym, ap, subst, true, List}
use native.Mathlib.Decide.{ℕ_discrete}
use klyx.Machine.Regs.{IntRegs}
use klyx.Machine.Outcome.{returned}
use klyx.Sched.Task.{Task, Kernel, is_dead, tasks_cap}
use klyx.Sched.Flush.{Printf}
use klyx.Sched.Queue.{IsQueue}
use klyx.Sched.Quiet.{AllQueues}
use klyx.Sched.Switch.{is_runnable}
use klyx.Traps.Syscall.{Env, self, syscall_handler}
use klyx.Traps.Exit.{sys_exit-ends}
use klyx.Programs.Calls.{scn_exit}
use klyx.Programs.Login.{login}
use klyx.Programs.Owner.{OwnedBy, Account, login-OwnedBy}
use klyx.Programs.Shell.{Places, Shell, left}
use klyx.Programs.Session.{shell, test_a, exit_task}
use klyx.Programs.Kept.{unsignalled}
use klyx.Programs.Restored.{shell-Kept}

-- Two tasks of the same status that are stopped or not alike.
unsignalled-is_runnable :
    (t u : Task) → unsignalled u ≡ unsignalled t → is_runnable u ≡ is_runnable t
unsignalled-is_runnable t u e = ap (λ v. is_runnable v) e

owned-IsQueue : (t : Task) (id : ℕ) → IsQueue t → IsQueue (record t { uid = id })
owned-IsQueue t id h = omega arith

OwnedBy-AllQueues : (id : ℕ) (k l : Kernel) → OwnedBy id k l → AllQueues k → AllQueues l
OwnedBy-AllQueues id k l o q j = elim (ℕ_discrete j k.current_task) [
  | yes here ↦
      subst IsQueue (sym o.task ∙ ap l.tasks (o.current ∙ sym here))
        (owned-IsQueue (self k) id (q k.current_task))
  | no ne ↦ subst IsQueue (sym (o.others j ne)) (q j)
]

module _ (printf : Printf) (regs : IntRegs) (places : Places) where
  -- If the login of a task of root and then its shell return, the task has the user of an account
  -- and the group 0 when the shell is left, and test_a ends: while init can run, with valid rings,
  -- the task is dead behind its exit, and another one runs.
  pub test_a-ends :
      (fuel buf : ℕ) (env : Env) (names : List Env) (s : Shell) {k : Kernel} {t : Shell}
      → AllQueues s.kernel
      → (self s.kernel).uid ≡ 0
      → (self s.kernel).gid ≡ 0
      → is_runnable (s.kernel.tasks 0) ≡ true
      → s.kernel.current_task < tasks_cap
      → s.kernel.current_task ≢ 0
      → login printf env regs buf names s.kernel ≡ returned k
      → shell printf regs places fuel 0 (record s { kernel = k }) ≡ returned (left t)
      → (id : ℕ) × Account id
        × ((self t.kernel).uid ≡ id)
        × ((self t.kernel).gid ≡ 0)
        × (r : IntRegs × Kernel) × (test_a printf regs places fuel buf env names s ≡ returned r)
        × (is_dead (r.1.tasks s.kernel.current_task).status ≡ true)
        × (r.1.current_task ≢ s.kernel.current_task)
  unfolding test_a exit_task syscall_handler
  test_a-ends fuel buf env names s {k} {t} q is_root group init lt ne logged shelled =
      let (id, account, owned) =
        login-OwnedBy printf env regs buf names s.kernel is_root group logged in
      let kept = shell-Kept printf regs places fuel 0 (record s { kernel = k }) shelled in
      let current : t.kernel.current_task ≡ s.kernel.current_task = kept.current ∙ owned.current in
      let mine : unsignalled (self t.kernel) ≡ unsignalled (record (self s.kernel) { uid = id }) =
        ap (λ i. unsignalled (t.kernel.tasks i)) kept.current
        ∙ kept.tasks k.current_task
        ∙ ap unsignalled owned.task in
      let (r, e, gone, other) =
        sys_exit-ends printf env (record regs { eax = scn_exit }) t.kernel
          (kept.queues (OwnedBy-AllQueues id s.kernel k owned q))
          (unsignalled-is_runnable (k.tasks 0) (t.kernel.tasks 0) (kept.tasks 0)
            ∙ ap is_runnable (owned.others 0 (λ z. ne (sym z)))
            ∙ init)
          (subst (λ i. i < tasks_cap) (sym current) lt) (λ z. ne (sym current ∙ z)) in
      (
        id,
        account,
        ap (λ v. v.uid) mine,
        ap (λ v. v.gid) mine ∙ group,
        r,
        rw (logged, shelled) e,
        subst (λ i. is_dead (r.1.tasks i).status ≡ true) current gone,
        λ z. other (z ∙ sym current),
      )
