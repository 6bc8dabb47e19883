-- ===== src/Programs/Login.antt =====
-- `login` of kernel/test.c. The console input of each `tty_read` is an `Env` of a list; a login that
-- outlives it has not returned.
use klyx.Prelude.{ℕ, ◌-◌, Bool, not, List, [], ◌∷◌, String, ◌==◌, if◌then◌else◌}
use klyx.Prelude.Int.{is_zero}
use klyx.Machine.Regs.{IntRegs}
use klyx.Machine.Memory.{Memory, memset, strcmp}
use klyx.Machine.Outcome.{returned, halted, ◌>>=◌}
use klyx.Sched.Task.{Kernel}
use klyx.Sched.Flush.{Printf, Result}
use klyx.Traps.Syscall.{Env, self}
use klyx.Programs.Calls.{
  scn_tty_read, scn_setuid, scn_setgid, scn_getuid, scn_getgid, syscall_0, syscall_1, syscall_2,
}

-- `!strcmp(buf, name)`.
abbrev pub names : Memory → ℕ → List ℕ → Bool
names m buf name = is_zero (strcmp m buf name)

-- The size of `buf`.
abbrev pub login_cap : ℕ
login_cap = 512

abbrev pub refused_text : String
refused_text = "login: login must be runned as root\n"

abbrev pub prompt_text : String
prompt_text = "You need to login first.\nAvaliable accounts: root alice bob eva.\nLogin: "

module _ (printf : Printf) (env : Env) (regs : IntRegs) where
  -- `setuid(id); setgid(id);`
  unfoldable pub become : ℕ → Kernel → Result Kernel
  become id k = syscall_1 printf env regs scn_setuid id k >>= λ r.
      syscall_1 printf env regs scn_setgid id r.1 >>= λ s. returned s.1

  -- A message of the task itself.
  abbrev pub say : String → Kernel → Kernel
  say message k = record k { console = printf (self k).tty message [] k.console }

  -- The loop, with `buf` at an address.
  unfoldable pub login_loop : (buf : ℕ) → List Env → Kernel → Result Kernel
  login_loop buf [] k = halted k.console
  login_loop buf (input ∷ inputs) k =
      syscall_2 printf input regs scn_tty_read buf (login_cap - 1)
        (say prompt_text (record k { memory = memset k.memory buf 0 login_cap }))
      >>= λ r.
          if names r.1.memory buf (b'r' ∷ b'o' ∷ b'o' ∷ b't' ∷ [])
          then returned r.1
          else if names r.1.memory buf (b'a' ∷ b'l' ∷ b'i' ∷ b'c' ∷ b'e' ∷ [])
          then become 1001 r.1
          else if names r.1.memory buf (b'b' ∷ b'o' ∷ b'b' ∷ [])
          then become 1002 r.1
          else if names r.1.memory buf (b'e' ∷ b'v' ∷ b'a' ∷ [])
          then become 1000 r.1
          else login_loop buf inputs r.1

  unfoldable pub login : (buf : ℕ) → List Env → Kernel → Result Kernel
  login buf inputs k = syscall_0 printf env regs scn_getuid k >>= λ u.
      if not (u.0 == 0)
      then returned (say refused_text u.1)
      else syscall_0 printf env regs scn_getgid u.1 >>= λ g.
          if not (g.0 == 0) then returned (say refused_text g.1) else login_loop buf inputs g.1
