-- ===== src/Tests/Traps.antt =====
-- System calls and faults on the small machine.
use klyx.Prelude.{◌-◌, ◌%◌, ◌^◌, ◌<◌, ◌≡◌, ◌≢◌, ◌⊎◌, refl, true, arith}
use klyx.Machine.Regs.{IntRegs}
use klyx.Machine.Outcome.{returned}
use klyx.Sched.Signal.{sigsegv, sigterm, signal_case, die}
use klyx.Sched.Task.{Kernel, is_dead, fresh_task, enqueue_signal, task_sig_cap}
use klyx.Sched.Switch.{is_runnable}
use klyx.Sched.Deliver.{action}
use klyx.Traps.Syscall.{self, sys_exit, sys_kill, syscall_handler}
use klyx.Traps.Error.{x86_error_trap}
use klyx.Traps.Owners.{Keeps, IsContained, syscall_handler-Keeps}
use klyx.Traps.Kill.{Sent, Refused, sys_kill_cases}
use klyx.Traps.Exit.{sys_exit-ends}
use klyx.Traps.Faults.{x86_error_trap-kills}
use klyx.Tests.World.{print_mark, no_env, world, world-AllQueues, table, call}

init_runs : is_runnable (table 0) ≡ true
unfolding fresh_task
init_runs = refl

has_room : (self (world 1)).signals_size < task_sig_cap - 1
unfolding enqueue_signal fresh_task
has_room = omega arith

sigsegv_kills : action (sigsegv % 2 ^ 8) ≡ die
unfolding signal_case
sigsegv_kills = refl

x86_error_trap-kills_example :
    (r : IntRegs × Kernel) × (x86_error_trap print_mark (call 0 0 0) "page fault" sigsegv (world 1)
      ≡ returned r)
    × (is_dead (r.1.tasks 1).status ≡ true)
    × (r.1.current_task ≢ 1)
x86_error_trap-kills_example =
    x86_error_trap-kills print_mark (call 0 0 0) "page fault" sigsegv (world 1) refl
      (world-AllQueues 1) init_runs (omega arith) (omega arith) has_room sigsegv_kills

user_is_500 : (self (world 2)).uid ≡ 500
user_is_500 = refl

setuid-IsContained : IsContained (call 7 0 0)
setuid-IsContained = record {
  writes = λ e. omega arith;
  reads = λ e. omega arith;
  names = λ e. omega arith;
  clocks = λ e. omega arith;
}

syscall_handler-Keeps_example :
    Keeps (world 2) (syscall_handler print_mark no_env (call 7 0 0) (world 2))
syscall_handler-Keeps_example =
    syscall_handler-Keeps print_mark no_env (call 7 0 0) (world 2) (world-AllQueues 2)
      setuid-IsContained (λ root. omega (arith, user_is_500, root))

sys_kill_cases_example :
    Sent (call 12 1 sigterm) (world 2) (sys_kill (call 12 1 sigterm) (world 2))
    ⊎ Refused (call 12 1 sigterm) (world 2) (sys_kill (call 12 1 sigterm) (world 2))
sys_kill_cases_example = sys_kill_cases (call 12 1 sigterm) (world 2) (omega arith)

sys_exit-ends_example :
    (r : IntRegs × Kernel) × (sys_exit print_mark no_env (call 1 0 0) (world 2) ≡ returned r)
    × (is_dead (r.1.tasks 2).status ≡ true)
    × (r.1.current_task ≢ 2)
sys_exit-ends_example =
    sys_exit-ends print_mark no_env (call 1 0 0) (world 2) (world-AllQueues 2) init_runs
      (omega arith) (omega arith)
