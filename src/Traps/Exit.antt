-- ===== src/Traps/Exit.antt =====
-- The system call `exit`.
use klyx.Prelude.{
  update_all, ◌<◌, ◌≡◌, ◌≢◌, ◌∙◌, sym, ap, subst, true, update_self, update_ne, ◌==◌, ==_ne,
  if-false, arith,
}
use klyx.Machine.Regs.{IntRegs}
use klyx.Machine.Outcome.{returned}
use klyx.Sched.Task.{Kernel, dead, is_dead, tasks_cap}
use klyx.Sched.Flush.{Printf}
use klyx.Sched.Switch.{set_task, is_runnable}
use klyx.Sched.Queue.{IsQueue}
use klyx.Sched.Quiet.{AllQueues}
use klyx.Sched.Next.{sched_next_task-Switched}
use klyx.Sched.Alive.{sched_next_task-Returns}
use klyx.Traps.Syscall.{Env, self, sys_exit}

module _ (printf : Printf) (env : Env) (regs : IntRegs) (k : Kernel) (q : AllQueues k) where
  -- The kernel once the task is marked.
  abbrev marked : Kernel
  marked = set_task k.current_task (record (self k) { status = dead }) k

  marked-AllQueues : AllQueues marked
  marked-AllQueues =
      update_all (λ j u. IsQueue u) k.tasks k.current_task (record (self k) { status = dead })
        (own (q k.current_task)) q
    where
      own : IsQueue (self k) → IsQueue (record (self k) { status = dead })
      own h = omega arith

  -- With valid rings, while init can run and another task of the table is current, exit returns,
  -- and behind it that task is dead and another one runs.
  pub sys_exit-ends :
      is_runnable (k.tasks 0) ≡ true
      → k.current_task < tasks_cap
      → k.current_task ≢ 0
      → (r : IntRegs × Kernel) × (sys_exit printf env regs k ≡ returned r)
        × (is_dead (r.1.tasks k.current_task).status ≡ true)
        × (r.1.current_task ≢ k.current_task)
  unfolding sys_exit
  sys_exit-ends init lt ne =
      let gone : is_dead (marked.tasks k.current_task).status ≡ true =
        ap (λ u. is_dead u.status)
          (update_self k.tasks k.current_task (record (self k) { status = dead })) in
      let (r, e) =
        sched_next_task-Returns printf regs marked marked-AllQueues
          (rw
            (update_ne k.tasks k.current_task (record (self k) { status = dead }) 0
              (λ z. ne (sym z)))
            init)
          lt ne in
      let s = sched_next_task-Switched printf regs marked marked-AllQueues e in
      let left : is_dead (s.middle.tasks k.current_task).status ≡ true = s.saved.stays_dead gone in
      let same = (s.chosen.quiet.slept k.current_task).dead_stays left in
      (
        r,
        if-false (k.current_task == 0) _ _ (==_ne k.current_task 0 ne) ∙ e,
        ap (λ u. is_dead u.status) same ∙ left,
        λ back.
            let runs : is_runnable (s.middle.tasks k.current_task) ≡ true =
              subst (λ i. is_runnable (s.middle.tasks i) ≡ true) back s.chosen.runs in
            ground arith,
      )
