-- ===== src/Sched/Switch.antt =====
-- `sched_next_task` and `sched_start_tasking` of kernel/sched.c.
use klyx.Prelude.{ℕ, zero, suc, ◌+◌, ◌%◌, Bool, true, false, not, ◌&&◌, update, if◌then◌else◌}
use klyx.Machine.Regs.{IntRegs, save_regs, load_regs}
use klyx.Machine.Outcome.{returned, ◌>>=◌}
use klyx.Sched.Task.{Task, Kernel, is_dead, tasks_cap}
use klyx.Sched.Flush.{Printf, Result, panic, flush_signals}

-- `tasks[current_task].status != TASK_DEAD && !tasks[current_task].paused`.
abbrev pub is_runnable : Task → Bool
is_runnable t = not (is_dead t.status) && not t.paused

-- `tasks[pid] = t`.
abbrev pub set_task : ℕ → Task → Kernel → Kernel
set_task pid t k = record k { tasks = update k.tasks pid t }

module _ (printf : Printf) where
  -- `__flush_signals(&tasks[current_task], regs)`.
  unfoldable pub flush_current : IntRegs → Kernel → Result Kernel
  flush_current regs k =
      flush_signals printf k.current_task regs (k.tasks k.current_task) k.console >>= λ r.
      returned (record (set_task k.current_task r.0 k) { console = r.1 })

  -- The registers of the current task after its signals are handled by way of `vregs`.
  unfoldable pub flush_paused : Kernel → Result Kernel
  flush_paused k =
      let vregs = load_regs (k.tasks k.current_task).regs in
      flush_current vregs k >>= λ k'.
      returned
        (set_task k'.current_task (record (k'.tasks k'.current_task) { regs = save_regs vregs }) k')

  -- One round of the loop: `true` if the slot that it steps to can run.
  unfoldable pub try_slot : Kernel → Result (Bool × Kernel)
  try_slot k =
      let k1 = record k { current_task = (k.current_task + 1) % tasks_cap } in
      let t = k1.tasks k1.current_task in
      if is_runnable t
      then returned (true, k1)
      else if is_dead t.status
      then returned (false, k1)
      else flush_paused k1 >>= λ k2. returned (false, k2)

  -- The loop, with the rounds that are left.
  unfoldable pub find_task : ℕ → IntRegs → Kernel → Result (IntRegs × Kernel)
  find_task zero regs k =
      panic printf "Kernel panic: no avaliable processes." regs (k.tasks k.current_task).tty
        k.console
  find_task (suc tries) regs k = try_slot k >>= λ r. elim r.0 [
    | true ↦ returned (load_regs ((r.1).tasks (r.1).current_task).regs, r.1)
    | false ↦ find_task tries regs r.1
  ]

  -- The registers that the interrupt returns with, and the kernel.
  unfoldable pub sched_next_task : IntRegs → Kernel → Result (IntRegs × Kernel)
  sched_next_task regs k =
      let saved = record (k.tasks k.current_task) { regs = save_regs regs } in
      flush_current regs (set_task k.current_task saved k) >>= λ k1. find_task tasks_cap regs k1

  unfoldable pub sched_start_tasking : IntRegs → Kernel → Result (IntRegs × Kernel)
  sched_start_tasking regs k =
      let k1 = record k { current_task = 0 } in
      if is_dead (k1.tasks 0).status
      then panic printf "Kernel panic: init is not loaded." regs (k1.tasks 0).tty k1.console
      else returned (load_regs (k1.tasks 0).regs, k1)
