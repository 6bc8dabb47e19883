-- ===== src/Programs/Init.antt =====
-- The loop of `test_init` in kernel/test.c. The addresses of the programs are the linker's.
use klyx.Prelude.{ℕ, false, ◌==◌, if◌then◌else◌}
use klyx.Machine.Regs.{IntRegs}
use klyx.Machine.Outcome.{returned, ◌>>=◌}
use klyx.Sched.Task.{Kernel, sched_make_task}
use klyx.Sched.Flush.{Printf, Result}
use klyx.Traps.Syscall.{Env, syscall_handler}
use klyx.System.Boot.{Symbols}
use klyx.Programs.Calls.{scn_yield, scn_kill, syscall_2}

module _ (printf : Printf) (env : Env) (regs : IntRegs) where
  -- One `if`: a task that signal 0 does not reach is made again.
  unfoldable pub respawn : (pid eip tty : ℕ) → Kernel → Result Kernel
  respawn pid eip tty k = syscall_2 printf env regs scn_kill pid 0 k >>= λ r.
      returned (if r.0 == 0 then r.1 else (sched_make_task eip tty 0 0 0x08 0x10 false r.1).1)

  -- The three of them.
  unfoldable pub respawn_all : Symbols → Kernel → Result Kernel
  respawn_all s k =
      respawn 2 s.test_a 0 k >>= λ k1. respawn 4 s.test_a 2 k1 >>= λ k2. respawn 5 s.test_c 3 k2

  -- One round, which ends in `yield`.
  unfoldable pub init_round : Symbols → Kernel → Result (IntRegs × Kernel)
  init_round s k =
      respawn_all s k >>= λ k1. syscall_handler printf env (record regs { eax = scn_yield }) k1
