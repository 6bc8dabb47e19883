-- ===== src/Programs/Session.antt =====
-- The loop of `shell` in kernel/test.c, and the tasks `test_a`, `test_b` and `test_c`.
use klyx.Prelude.{ℕ, zero, suc, ◌+◌, List, [], ◌∷◌, String}
use klyx.Machine.Regs.{IntRegs}
use klyx.Machine.Outcome.{returned, halted, ◌>>=◌}
use klyx.Sched.Signal.{sigkill, sigstop, sigcont}
use klyx.Sched.Task.{Kernel}
use klyx.Sched.Flush.{pointed, Printf, Result}
use klyx.Traps.Syscall.{Env, self, syscall_handler}
use klyx.Programs.Calls.{
  scn_exit, scn_tty_write, scn_yield, scn_getuid, scn_getgid, scn_getpid, syscall_2,
}
use klyx.Programs.Login.{login}
use klyx.Programs.Command.{
  ShellCommand, Branch, branch, empty, help, ud, exit, kill, stop, cont, show_uid, show_gid,
  show_pid, show_uname, fib, show_time, enc_passwords, strcpy_screen, kdbg, su, unknown,
  parse_shell, shell_help, screen_text,
}
use klyx.Programs.Shell.{
  Places, Turn, Shell, ShellEnd, left, astray, set_owner, restore, put_bytes, print_as, ask,
  signal_tty2, print_call, print_uname, print_time, fib_loop, run_enc, raise_ud, raise_int3,
}

-- The rounds of `fib` are at most this many.
abbrev pub fib_fuel : ℕ
fib_fuel = 100

-- The text that `test_c` prints.
abbrev pub reverse_text : String
reverse_text = "Force of inverse!\n!esrevni fo ecroF\n"

-- What a shell goes on with when a part of it has ended.
abbrev pub resume : (Shell → Result ShellEnd) → ShellEnd → Result ShellEnd
resume go (left s) = go s
resume go (astray regs k) = returned (astray regs k)

-- A part of the shell that leaves `encp` alone.
abbrev pub on_kernel : Shell → Result Kernel → Result ShellEnd
on_kernel s o = o >>= λ k. returned (left (record s { kernel = k }))

module _ (printf : Printf) (regs : IntRegs) (places : Places) where
  -- The body of one `else if`.
  unfoldable pub run_command : Branch → (depth : ℕ) → Turn → Shell → Result ShellEnd
  run_command help depth turn s =
      on_kernel s (returned (print_as printf regs places shell_help [] s.kernel))
  run_command ud depth turn s = raise_ud printf regs places s.kernel
  run_command kill depth turn s =
      on_kernel s (signal_tty2 printf regs places turn.line sigkill s.kernel)
  run_command stop depth turn s =
      on_kernel s (signal_tty2 printf regs places turn.line sigstop s.kernel)
  run_command cont depth turn s =
      on_kernel s (signal_tty2 printf regs places turn.line sigcont s.kernel)
  run_command show_uid depth turn s =
      on_kernel s (print_call printf regs places turn.line scn_getuid "UID: %d\n" s.kernel)
  run_command show_gid depth turn s =
      on_kernel s (print_call printf regs places turn.line scn_getgid "GID: %d\n" s.kernel)
  run_command show_pid depth turn s =
      on_kernel s (print_call printf regs places turn.line scn_getpid "PID: %d\n" s.kernel)
  run_command show_uname depth turn s =
      on_kernel s (print_uname printf regs places depth turn.line s.kernel)
  run_command fib depth turn s =
      on_kernel s (returned (fib_loop printf regs places fib_fuel 1 1 s.kernel))
  run_command show_time depth turn s =
      on_kernel s (print_time printf regs places depth turn.clock s.kernel)
  run_command enc_passwords depth turn s =
      run_enc printf regs places depth turn s >>= λ t. returned (left t)
  run_command strcpy_screen depth turn s =
      let k = s.kernel in
      let c = k.console in
      let shown = record c { con_addr = put_bytes c.con_addr 0 screen_text } in
      on_kernel s (returned (record k { console = shown }))
  run_command kdbg depth turn s = raise_int3 printf regs places turn s
  run_command unknown depth turn s = on_kernel s (
      returned (
        print_as printf regs places "Unknown command: `%s`\n"
          (pointed s.kernel.memory (places.buf depth) ∷ []) s.kernel))
  run_command empty depth turn s = returned (left s)

  -- `cend: printf("\n");`
  unfoldable pub end_line : Shell → Shell
  end_line s = record s { kernel = print_as printf regs places "\n" [] s.kernel }

  -- The ladder on a line. `inner` is a call of `shell`, and `next` the rounds of the loop to come.
  unfoldable pub run_line :
      (inner next : Shell → Result ShellEnd)
      → ShellCommand
      → (depth : ℕ) → Turn
      → Shell
      → Result ShellEnd
  run_line inner next exit depth turn s = returned (left s)
  run_line inner next su depth turn s =
      inner (record s { kernel = set_owner 0 0 s.kernel }) >>= λ e.
      resume next (restore (self s.kernel).uid (self s.kernel).gid e)
  run_line inner next (branch b) depth turn s = run_command b depth turn s >>= λ e. resume next e

  -- The loop, with fuel for the lines that it and the shells inside it read.
  unfoldable pub shell : (fuel depth : ℕ) → Shell → Result ShellEnd
  shell zero depth s = halted s.kernel.console
  shell (suc fuel) depth s = elim s.turns [
    | [] ↦ halted s.kernel.console
    | turn ∷ turns ↦ ask printf regs places "$ " depth turn.line s.kernel >>= λ k.
        run_line (λ t. shell fuel (depth + 1) t) (λ t. shell fuel depth (end_line t))
          (parse_shell k.memory (places.buf depth)) depth turn
          (record s { kernel = k; turns = turns })
  ]

  -- The end of `test_a`, `exit();`.
  unfoldable pub exit_task : Env → ShellEnd → Result (IntRegs × Kernel)
  exit_task env (left t) = syscall_handler printf env (record regs { eax = scn_exit }) t.kernel
  exit_task env (astray r k) = returned (r, k)

  -- `names` are the lines that `login` reads into its `buf`.
  unfoldable pub test_a :
      (fuel buf : ℕ) → Env → (names : List Env) → Shell → Result (IntRegs × Kernel)
  test_a fuel buf env names s = login printf env regs buf names s.kernel >>= λ k.
      shell fuel 0 (record s { kernel = k }) >>= λ e. exit_task env e

  unfoldable pub test_c :
      (fuel buf : ℕ) → Env → (names : List Env) → Shell → Result (IntRegs × Kernel)
  test_c fuel buf env names s =
      test_a fuel buf env names
        (record s { kernel = print_as printf regs places reverse_text [] s.kernel })

  -- A round of the loop of `test_b`, with its text "B" at an address. It ends in `yield`.
  unfoldable pub test_b_round : (letter : ℕ) → Env → Kernel → Result (IntRegs × Kernel)
  test_b_round letter env k = syscall_2 printf env regs scn_tty_write letter 1 k >>= λ r.
      syscall_handler printf env (record regs { eax = scn_yield }) r.1
