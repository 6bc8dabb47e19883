-- ===== src/Programs/Calls.antt =====
-- The system calls of include/unistd.h that the programs of kernel/test.c make and that come back to
-- the same task: a stub stores the number and the arguments into registers, and takes `eax`.
use klyx.Prelude.{ℕ}
use klyx.Machine.Regs.{IntRegs}
use klyx.Machine.Outcome.{returned, ◌>>=◌}
use klyx.Sched.Task.{Kernel}
use klyx.Sched.Flush.{Printf, Result}
use klyx.Traps.Syscall.{Env, syscall_handler}

-- The numbers `_SCN_*`.
abbrev pub scn_exit : ℕ
scn_exit = 1

abbrev pub scn_tty_write : ℕ
scn_tty_write = 2

abbrev pub scn_tty_read : ℕ
scn_tty_read = 3

abbrev pub scn_yield : ℕ
scn_yield = 4

abbrev pub scn_uname : ℕ
scn_uname = 5

abbrev pub scn_time : ℕ
scn_time = 6

abbrev pub scn_setuid : ℕ
scn_setuid = 7

abbrev pub scn_setgid : ℕ
scn_setgid = 8

abbrev pub scn_getuid : ℕ
scn_getuid = 9

abbrev pub scn_getgid : ℕ
scn_getgid = 10

abbrev pub scn_getpid : ℕ
scn_getpid = 11

abbrev pub scn_kill : ℕ
scn_kill = 12

-- `regs` are the registers of the task at the call.
module _ (printf : Printf) (env : Env) (regs : IntRegs) where
  unfoldable pub syscall_0 : (n : ℕ) → Kernel → Result (ℕ × Kernel)
  syscall_0 n k =
      syscall_handler printf env (record regs { eax = n }) k >>= λ r. returned (r.0.eax, r.1)

  unfoldable pub syscall_1 : (n a : ℕ) → Kernel → Result (ℕ × Kernel)
  syscall_1 n a k = syscall_handler printf env (record regs { eax = n; ebx = a }) k >>= λ r.
      returned (r.0.eax, r.1)

  unfoldable pub syscall_2 : (n a b : ℕ) → Kernel → Result (ℕ × Kernel)
  syscall_2 n a b k =
      syscall_handler printf env (record regs { eax = n; ebx = a; ecx = b }) k >>= λ r.
      returned (r.0.eax, r.1)

  -- The three wider stubs, which no program uses.
  unfoldable pub syscall_3 : (n a b c : ℕ) → Kernel → Result (ℕ × Kernel)
  syscall_3 n a b c k =
      syscall_handler printf env (record regs { eax = n; ebx = a; ecx = b; edx = c }) k >>= λ r.
      returned (r.0.eax, r.1)

  unfoldable pub syscall_4 : (n a b c d : ℕ) → Kernel → Result (ℕ × Kernel)
  syscall_4 n a b c d k =
      syscall_handler printf env (record regs { eax = n; ebx = a; ecx = b; edx = c; esi = d }) k
      >>= λ r. returned (r.0.eax, r.1)

  unfoldable pub syscall_5 : (n a b c d e : ℕ) → Kernel → Result (ℕ × Kernel)
  syscall_5 n a b c d e k =
      syscall_handler printf env
        (record regs { eax = n; ebx = a; ecx = b; edx = c; esi = d; edi = e }) k
      >>= λ r. returned (r.0.eax, r.1)
