-- ===== src/Traps/Faults.antt =====
-- A task that faults dies: `x86_error_trap` while tasks run.
use klyx.Prelude.{
  if-true, ℕ, ◌-◌, ◌%◌, ◌^◌, ◌<◌, ◌≡◌, ◌≢◌, ◌∙◌, sym, ap, subst, true, ◌∷◌, String, update_self,
  update_ne, arith,
}
use klyx.Machine.Regs.{IntRegs}
use klyx.Machine.Outcome.{returned}
use klyx.Sched.Signal.{die}
use klyx.Sched.Task.{Kernel, is_dead, tasks_cap, task_sig_cap, enqueue_signal, sched_kill_task}
use klyx.Sched.Flush.{Printf, text, dumped}
use klyx.Sched.Queue.{pending, pending-enqueue_room}
use klyx.Sched.Deliver.{action, IsDeadly}
use klyx.Sched.Killed.{IsDeadly-append}
use klyx.Sched.Switch.{is_runnable, sched_next_task}
use klyx.Sched.Quiet.{AllQueues}
use klyx.Sched.Next.{sched_next_task-Switched}
use klyx.Sched.Alive.{sched_next_task-Returns}
use klyx.Traps.Syscall.{self}
use klyx.Traps.Error.{trap_format, x86_error_trap}
use klyx.Traps.Owners.{sched_kill_task-SameOwners}

module _ (printf : Printf) where
  -- The task that a switch leaves is dead behind it if one of its signals kills.
  sched_next_task-IsDeadly :
      (regs : IntRegs) (k : Kernel) {regs' : IntRegs} {k' : Kernel}
      → AllQueues k
      → IsDeadly (pending (k.tasks k.current_task))
      → sched_next_task printf regs k ≡ returned (regs', k')
      → (is_dead (k'.tasks k.current_task).status ≡ true) × (k'.current_task ≢ k.current_task)
  sched_next_task-IsDeadly regs k {regs'} {k'} q deadly e =
      let s = sched_next_task-Switched printf regs k q e in
      let killed = s.saved.killed deadly in
      let same = (s.chosen.quiet.slept k.current_task).dead_stays killed in
      (
        ap (λ u. is_dead u.status) same ∙ killed,
        λ back.
            let runs : is_runnable (s.middle.tasks k.current_task) ≡ true =
              subst (λ i. is_runnable (s.middle.tasks i) ≡ true) back s.chosen.runs in
            ground arith,
      )

  -- While tasks run and init can run, a fault of any other task returns, and behind it that task
  -- is dead and another one runs, if the rings are valid, its own has room for the signal and the
  -- signal is one that kills.
  pub x86_error_trap-kills :
      (regs : IntRegs) (name : String) (sig : ℕ) (k : Kernel)
      → k.is_tasking_avaliable ≡ true
      → AllQueues k
      → is_runnable (k.tasks 0) ≡ true
      → k.current_task < tasks_cap
      → k.current_task ≢ 0
      → (self k).signals_size < task_sig_cap - 1
      → action (sig % 2 ^ 8) ≡ die
      → (r : IntRegs × Kernel) × (x86_error_trap printf regs name sig k ≡ returned r)
        × (is_dead (r.1.tasks k.current_task).status ≡ true)
        × (r.1.current_task ≢ k.current_task)
  unfolding x86_error_trap sched_kill_task
  x86_error_trap-kills regs name sig k tasking q init lt ne room kills =
      let (r, e) =
        sched_next_task-Returns printf regs signalled queues
          (rw
            (update_ne k.tasks k.current_task (enqueue_signal (self k) (sig % 2 ^ 8)) 0
              (λ z. ne (sym z)))
            init)
          lt ne in
      let (gone, other) =
        sched_next_task-IsDeadly regs signalled queues
          (subst (λ t. IsDeadly (pending t))
            (sym (update_self k.tasks k.current_task (enqueue_signal (self k) (sig % 2 ^ 8))))
            (subst IsDeadly
              (sym (pending-enqueue_room (self k) (sig % 2 ^ 8) (q k.current_task) room))
              (IsDeadly-append (pending (self k)) (sig % 2 ^ 8) kills)))
          e in
      (r, if-true k.is_tasking_avaliable _ _ tasking ∙ e, gone, other)
    where
      signalled : Kernel
      signalled = sched_kill_task k.current_task sig (record k {
        console = printf (self k).tty trap_format (text name ∷ dumped regs) k.console;
      })

      queues : AllQueues signalled
      queues =
          (sched_kill_task-SameOwners k.current_task sig
            (record k {
              console = printf (self k).tty trap_format (text name ∷ dumped regs) k.console;
            })
            q).queues
