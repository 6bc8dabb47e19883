-- ===== src/System/Calls.antt =====
-- The system calls, the timer and the exceptions of kernel/traps.c, and the validity of the kernel.
use klyx.Prelude.{
  ℕ, ◌+◌, ◌-◌, ◌%◌, ◌^◌, ◌≡◌, ◌≢◌, refl, sym, subst, Bool, true, false, not, ◌&&◌, ◌||◌, ◌∷◌,
  Option, none, some, ◌==◌, leb, inl, inr, Bool-cases, if◌then◌else◌, arith,
}
use klyx.Machine.Regs.{IntRegs}
use klyx.Console.Tty.{ReadResult, tty_read}
use klyx.Console.Sound.{IsSound, tty_write-IsSound}
use klyx.Console.Invariant.{tty_read-IsSound}
use klyx.Sched.Signal.{sigsys, sig_count}
use klyx.Sched.Task.{Kernel, dead, is_dead, tasks_cap, sched_kill_task}
use klyx.Sched.Flush.{Printf, text, dumped}
use klyx.Sched.Queue.{IsQueue}
use klyx.Sched.Switch.{set_task}
use klyx.Traps.Syscall.{
  Env, self, read_bytes, sys_setup, sys_exit, finish_time, finish_read, sys_time, sys_tty_read,
  sys_tty_write, sys_unknown, sys_setuid, sys_setgid, sys_kill, syscall_handler, int_timer,
}
use klyx.Traps.Error.{Entry, error_entry, panic_entry, x86_error_trap, run_entry}
use klyx.System.Valid.{
  IsValid, LeavesValid, LeavesValid-if, Prints, set_task-IsValid, set_console-IsValid,
  sched_kill_task-IsValid, printf-IsSound, panic-LeavesValid, sched_next_task-LeavesValid,
  sched_start_tasking-LeavesValid,
}

IsValid-if :
    (b : Bool) (x y : IntRegs × Kernel) → IsValid x.1 → IsValid y.1 → IsValid (if b then x else y).1
IsValid-if true x y p q = p
IsValid-if false x y p q = q

-- Other memory.
pub set_memory-IsValid : (k : Kernel) (m : ℕ → ℕ) → IsValid k → IsValid (record k { memory = m })
set_memory-IsValid k m v = record {
  queues = v.queues;
  current = v.current;
  init = v.init;
  console = v.console;
}

-- Another owner of the current task.
pub set_owner-IsValid :
    (k : Kernel) (uid gid : ℕ)
    → IsValid k
    → IsValid (set_task k.current_task (record (self k) { uid = uid; gid = gid }) k)
set_owner-IsValid k uid gid v =
    set_task-IsValid k k.current_task (record (self k) { uid = uid; gid = gid }) v
      (same_ring (v.queues k.current_task))
      (λ first. subst (λ i. is_dead (k.tasks i).status ≡ false) (sym first) v.init)
  where
    same_ring : IsQueue (self k) → IsQueue (record (self k) { uid = uid; gid = gid })
    same_ring h = omega arith

sys_setuid-IsValid : (regs : IntRegs) (k : Kernel) → IsValid k → IsValid (sys_setuid regs k).1
unfolding sys_setuid
sys_setuid-IsValid regs k v =
    IsValid-if ((self k).uid == 0) _ _ (set_owner-IsValid k regs.ebx (self k).gid v) v

sys_setgid-IsValid : (regs : IntRegs) (k : Kernel) → IsValid k → IsValid (sys_setgid regs k).1
unfolding sys_setgid
sys_setgid-IsValid regs k v =
    IsValid-if ((self k).uid == 0) _ _ (set_owner-IsValid k (self k).uid regs.ebx v) v

sys_kill-IsValid : (regs : IntRegs) (k : Kernel) → IsValid k → IsValid (sys_kill regs k).1
unfolding sys_kill
sys_kill-IsValid regs k v =
    let target = (regs.ebx + (2 ^ 32 - 1)) % 2 ^ 32 in
    IsValid-if (leb tasks_cap target) _ _ v (
      IsValid-if (is_dead (k.tasks target).status) _ _ v (
        IsValid-if (leb sig_count regs.ecx) _ _ v (
          IsValid-if (regs.ecx == 0) _ _ v (
            IsValid-if ((self k).uid == 0 || (self k).uid == (k.tasks target).uid) _ _
              (sched_kill_task-IsValid target regs.ecx k v) v))))

sys_tty_write-IsValid : (regs : IntRegs) (k : Kernel) → IsValid k → IsValid (sys_tty_write regs k).1
unfolding sys_tty_write
sys_tty_write-IsValid regs k v =
    set_console-IsValid k _ v
      (tty_write-IsSound k.console (self k).tty (read_bytes k.memory regs.ebx regs.ecx) v.console)

finish_time-LeavesValid :
    (regs : IntRegs) (k : Kernel) (t : Option ℕ) → IsValid k → LeavesValid (finish_time regs k t)
unfolding finish_time
finish_time-LeavesValid regs k none v = v.console
finish_time-LeavesValid regs k (some t) v = elim (Bool-cases (regs.ebx == 0)) [
  | inl null ↦ rw null v
  | inr other ↦ rw other (set_memory-IsValid k _ v)
]

sys_tty_read-LeavesValid :
    (env : Env) (regs : IntRegs) (k : Kernel) → IsValid k → LeavesValid (sys_tty_read env regs k)
unfolding sys_tty_read finish_read
sys_tty_read-LeavesValid env regs k v =
    go (tty_read k.console (self k).tty (λ i. k.memory (regs.ebx + i)) regs.ecx env.rounds)
      (λ r e.
        tty_read-IsSound k.console (self k).tty (λ i. k.memory (regs.ebx + i)) regs.ecx env.rounds
          v.console e)
      refl
  where
    go :
        (o : Option ReadResult)
        → ((r : ReadResult)
            → tty_read k.console (self k).tty (λ i. k.memory (regs.ebx + i)) regs.ecx env.rounds
              ≡ some r
            → IsSound r.console)
        → (o ≡ tty_read k.console (self k).tty (λ i. k.memory (regs.ebx + i)) regs.ecx env.rounds)
        → LeavesValid (finish_read regs k o)
    go none sound same = v.console
    go (some r) sound same =
        set_memory-IsValid (record k { console = r.console }) _
          (set_console-IsValid k r.console v (sound r (sym same)))

module _ (printf : Printf) (prints : Prints printf) (regs : IntRegs) where
  sys_setup-LeavesValid :
      (env : Env) (k : Kernel) → IsValid k → LeavesValid (sys_setup printf env regs k)
  unfolding sys_setup
  sys_setup-LeavesValid env k v =
      LeavesValid-if k.is_tasking_avaliable _ _
        (sched_next_task-LeavesValid printf prints regs (sched_kill_task k.current_task sigsys k)
          (sched_kill_task-IsValid k.current_task sigsys k v))
        (sched_start_tasking-LeavesValid printf prints regs
          (record k { is_tasking_avaliable = true })
          (record { queues = v.queues; current = v.current; init = v.init; console = v.console }))

  sys_exit-LeavesValid :
      (env : Env) (k : Kernel) → IsValid k → LeavesValid (sys_exit printf env regs k)
  unfolding sys_exit
  sys_exit-LeavesValid env k v = elim (Bool-cases (k.current_task == 0)) [
    | inl first ↦ rw first (
        panic-LeavesValid printf prints "Attempt to kill init." regs (self k).tty k.console
          v.console)
    | inr other ↦ rw other (
        sched_next_task-LeavesValid printf prints regs
          (set_task k.current_task (record (self k) { status = dead }) k)
          (set_task-IsValid k k.current_task (record (self k) { status = dead }) v
            (same_ring (v.queues k.current_task)) (λ first. absurd (is_other other first))))
  ]
    where
      same_ring : IsQueue (self k) → IsQueue (record (self k) { status = dead })
      same_ring h = omega arith

      is_other : (k.current_task == 0) ≡ false → k.current_task ≢ 0
      is_other other first = ground arith

  sys_unknown-LeavesValid :
      (env : Env) (k : Kernel) → IsValid k → LeavesValid (sys_unknown printf env regs k)
  unfolding sys_unknown
  sys_unknown-LeavesValid env k v =
      panic-LeavesValid printf prints "Unknown syscall" regs (self k).tty _
        (printf-IsSound printf prints _ _ _ _ (printf-IsSound printf prints _ _ _ _ v.console))

  pub syscall_handler-LeavesValid :
      (env : Env) (k : Kernel) → IsValid k → LeavesValid (syscall_handler printf env regs k)
  unfolding syscall_handler sys_time
  syscall_handler-LeavesValid env k v =
      LeavesValid-if (regs.eax == 0) _ _ (sys_setup-LeavesValid env k v) (
        LeavesValid-if (regs.eax == 1) _ _ (sys_exit-LeavesValid env k v) (
          LeavesValid-if (regs.eax == 2) _ _ (sys_tty_write-IsValid regs k v) (
            LeavesValid-if (regs.eax == 3) _ _ (sys_tty_read-LeavesValid env regs k v) (
              LeavesValid-if (regs.eax == 4) _ _
                (sched_next_task-LeavesValid printf prints regs k v)
                (LeavesValid-if (regs.eax == 5) _ _ (set_memory-IsValid k _ v) (
                  LeavesValid-if (regs.eax == 6) _ _ (finish_time-LeavesValid regs k _ v) (
                    LeavesValid-if (regs.eax == 7) _ _ (sys_setuid-IsValid regs k v) (
                      LeavesValid-if (regs.eax == 8) _ _ (sys_setgid-IsValid regs k v) (
                        LeavesValid-if (regs.eax == 9) _ _ v (
                          LeavesValid-if (regs.eax == 10) _ _ v (
                            LeavesValid-if (regs.eax == 11) _ _ v (
                              LeavesValid-if (regs.eax == 12) _ _ (sys_kill-IsValid regs k v)
                                (sys_unknown-LeavesValid env k v)))))))))))))

  pub int_timer-LeavesValid :
      (env : Env) (k : Kernel) → IsValid k → LeavesValid (int_timer printf env regs k)
  unfolding int_timer
  int_timer-LeavesValid env k v =
      LeavesValid-if (k.is_tasking_avaliable && not (self k).yield_only) _ _
        (sched_next_task-LeavesValid printf prints regs k v) v

  pub run_entry-LeavesValid :
      (entry : Entry) (k : Kernel) → IsValid k → LeavesValid (run_entry printf entry regs k)
  unfolding run_entry x86_error_trap
  run_entry-LeavesValid (error_entry name sig) k v =
      let sound =
        printf-IsSound printf prints (self k).tty _ (text name ∷ dumped regs) k.console v.console in
      LeavesValid-if k.is_tasking_avaliable _ _
        (sched_next_task-LeavesValid printf prints regs _
          (sched_kill_task-IsValid k.current_task sig _ (set_console-IsValid k _ v sound)))
        sound
  run_entry-LeavesValid (panic_entry msg) k v =
      panic-LeavesValid printf prints msg regs (self k).tty k.console v.console
