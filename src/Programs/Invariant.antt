-- ===== src/Programs/Invariant.antt =====
-- The commands of the shell in kernel/test.c, one by one, and the state that the kernel keeps.
use klyx.Prelude.{
  ℕ, ◌≢◌, refl, Bool, true, false, List, [], ◌∷◌, Option, none, some, ◌==◌, if◌then◌else◌,
}
use klyx.Machine.Regs.{IntRegs}
use klyx.Machine.Outcome.{returned, After, After->>=}
use klyx.Sched.Task.{Kernel}
use klyx.Sched.Flush.{word, Printf, Result}
use klyx.Sched.Signal.{sigill}
use klyx.Traps.Syscall.{Env}
use klyx.Traps.Error.{error_entry, run_entry}
use klyx.Traps.Debug.{string_at}
use klyx.System.Valid.{IsValid, Prints}
use klyx.System.Calls.{run_entry-LeavesValid}
use klyx.System.Events.{int_breakpoint}
use klyx.System.Safety.{int_breakpoint-LeavesValid}
use klyx.Programs.Crypt.{crypt}
use klyx.Programs.Enc.{encp_cap}
use klyx.Programs.Command.{
  Branch, empty, help, ud, kill, stop, cont, show_uid, show_gid, show_pid, show_uname, fib,
  show_time, enc_passwords, strcpy_screen, kdbg, unknown,
}
use klyx.Programs.Shell.{
  Places, Turn, Shell, left, astray, print_as, enc_verdict, enc_check, enc_repeat, enc_begin,
  run_enc, raise_ud, raise_int3, same_regs, line_at,
}
use klyx.Programs.Valid.{
  HandlerValid, ShellValid, EndValid, LeavesValid-After, on_kernel-EndValid, print_as-IsValid,
  ask-IsValid, signal_tty2-IsValid, print_call-IsValid, print_uname-IsValid, print_time-IsValid,
  fib_loop-IsValid,
}
use klyx.Programs.Session.{run_command}

module _ (printf : Printf) (prints : Prints printf) (regs : IntRegs) (places : Places) where
  enc_verdict-ShellValid :
      (again cr : List ℕ) (s : Shell)
      → ShellValid s
      → ShellValid (enc_verdict printf regs places again cr s)
  unfolding enc_verdict
  enc_verdict-ShellValid again cr s v = print_as-IsValid printf prints regs places _ _ _ (
      print_as-IsValid printf prints regs places _ _ _
        (print_as-IsValid printf prints regs places "crypt() work. please wait...\n" [] s.kernel v))

  enc_check-ShellValid :
      (depth : ℕ) (s : Shell) → ShellValid s → ShellValid (enc_check printf regs places depth s)
  unfolding enc_check
  enc_check-ShellValid depth s v = go (s.kernel.memory (places.buf depth) == 0) (
      crypt (some (line_at printf regs places depth s.kernel)) (some (string_at encp_cap s.encp 0)))
    where
      go :
          (b : Bool) (o : Option (List ℕ))
          → ShellValid (
              if b then s else elim o as (λ _. Shell) [
                | none ↦ s
                | some cr ↦
                    enc_verdict printf regs places (line_at printf regs places depth s.kernel) cr s
              ])
      go true o = v
      go false none = v
      go false (some cr) = enc_verdict-ShellValid _ cr s v

  enc_repeat-ShellValid :
      (depth : ℕ) (input : Env) (cr : List ℕ) (s : Shell)
      → ShellValid s
      → After ShellValid (enc_repeat printf regs places depth input cr s)
  unfolding enc_repeat
  enc_repeat-ShellValid depth input cr s v =
      After->>= IsValid ShellValid _ _
        (ask-IsValid printf prints regs places "Enter the same password: " depth input _
          (print_as-IsValid printf prints regs places "%p\n" (word places.encp ∷ []) s.kernel v))
        (λ k p. enc_check-ShellValid depth _ p)

  enc_begin-ShellValid :
      (depth : ℕ) (input : Env) (s : Shell)
      → ShellValid s
      → After ShellValid (enc_begin printf regs places depth input s)
  unfolding enc_begin
  enc_begin-ShellValid depth input s v =
      go (s.kernel.memory (places.buf depth) == 0)
        (crypt (some places.pass_saver) (some (line_at printf regs places depth s.kernel)))
    where
      working : Shell
      working = record s {
        kernel = print_as printf regs places "crypt() work. please wait...\n" [] s.kernel;
      }

      works : ShellValid working
      works = print_as-IsValid printf prints regs places _ [] s.kernel v

      go :
          (b : Bool) (o : Option (List ℕ))
          → After ShellValid (
              if b then returned s else elim o as (λ _. Result Shell) [
                | none ↦ returned working
                | some cr ↦ enc_repeat printf regs places depth input cr working
              ])
      go true o = v
      go false none = works
      go false (some cr) = enc_repeat-ShellValid depth input cr working works

  run_enc-ShellValid :
      (depth : ℕ) (turn : Turn) (s : Shell)
      → ShellValid s
      → After ShellValid (run_enc printf regs places depth turn s)
  unfolding run_enc
  run_enc-ShellValid depth turn s v =
      After->>= IsValid ShellValid _ _
        (ask-IsValid printf prints regs places "Enter a password: " depth turn.password s.kernel v)
        (λ k p. enc_begin-ShellValid depth turn.again (record s { kernel = k }) p)

  debugged-EndValid :
      (b : Bool) (s : Shell) (r : IntRegs × Kernel)
      → IsValid r.1
      → EndValid (if b then left (record s { kernel = r.1 }) else astray r.0 r.1)
  debugged-EndValid true s r p = p
  debugged-EndValid false s r p = p

  raise_int3-EndValid :
      (turn : Turn) (s : Shell)
      → IsValid s.kernel
      → After EndValid (raise_int3 printf regs places turn s)
  unfolding raise_int3
  raise_int3-EndValid turn s v =
      After->>= HandlerValid EndValid
        (int_breakpoint printf turn.debug_lines turn.debug_rounds regs s.kernel) _
        (LeavesValid-After _ (
          int_breakpoint-LeavesValid printf prints turn.debug_lines turn.debug_rounds regs s.kernel
            v))
        (λ r p. debugged-EndValid (same_regs r.0 regs) s r p)

  raise_ud-EndValid : (k : Kernel) → IsValid k → After EndValid (raise_ud printf regs places k)
  unfolding raise_ud
  raise_ud-EndValid k v =
      After->>= HandlerValid EndValid
        (run_entry printf (error_entry "invalid opcode" sigill) regs k) _
        (LeavesValid-After _
          (run_entry-LeavesValid printf prints regs (error_entry "invalid opcode" sigill) k v))
        (λ r p. p)

  -- If printf prints by con_putchar alone, each branch of the shell's ladder but exit and su,
  -- which end the shell and start another one, and strcpy, which writes the screen behind the
  -- consoles, leaves a valid kernel if it finds one and runs without an interrupt but for the keys
  -- that it reads: the rings of signals and keys, the cursors, the screen that shows the displayed
  -- console, a current task of the table and a live init; also when an invalid opcode or the
  -- debugger ends the shell.
  pub run_command-EndValid :
      (cmd : Branch) (depth : ℕ) (turn : Turn) (s : Shell)
      → cmd ≢ strcpy_screen
      → IsValid s.kernel
      → After EndValid (run_command printf regs places cmd depth turn s)
  unfolding run_command
  run_command-EndValid empty depth turn s ne v = v
  run_command-EndValid help depth turn s ne v =
      print_as-IsValid printf prints regs places _ [] s.kernel v
  run_command-EndValid unknown depth turn s ne v =
      print_as-IsValid printf prints regs places _ _ s.kernel v
  run_command-EndValid ud depth turn s ne v = raise_ud-EndValid s.kernel v
  run_command-EndValid kdbg depth turn s ne v = raise_int3-EndValid turn s v
  run_command-EndValid kill depth turn s ne v =
      on_kernel-EndValid s _ (signal_tty2-IsValid printf prints regs places turn.line _ s.kernel v)
  run_command-EndValid stop depth turn s ne v =
      on_kernel-EndValid s _ (signal_tty2-IsValid printf prints regs places turn.line _ s.kernel v)
  run_command-EndValid cont depth turn s ne v =
      on_kernel-EndValid s _ (signal_tty2-IsValid printf prints regs places turn.line _ s.kernel v)
  run_command-EndValid show_uid depth turn s ne v =
      on_kernel-EndValid s _ (print_call-IsValid printf prints regs places turn.line _ _ s.kernel v)
  run_command-EndValid show_gid depth turn s ne v =
      on_kernel-EndValid s _ (print_call-IsValid printf prints regs places turn.line _ _ s.kernel v)
  run_command-EndValid show_pid depth turn s ne v =
      on_kernel-EndValid s _ (print_call-IsValid printf prints regs places turn.line _ _ s.kernel v)
  run_command-EndValid show_uname depth turn s ne v =
      on_kernel-EndValid s _
        (print_uname-IsValid printf prints regs places depth turn.line s.kernel v)
  run_command-EndValid show_time depth turn s ne v =
      on_kernel-EndValid s _
        (print_time-IsValid printf prints regs places depth turn.clock s.kernel v)
  run_command-EndValid fib depth turn s ne v =
      fib_loop-IsValid printf prints regs places _ 1 1 s.kernel v
  run_command-EndValid enc_passwords depth turn s ne v =
      After->>= ShellValid EndValid _ _ (run_enc-ShellValid depth turn s v) (λ t p. p)
  run_command-EndValid strcpy_screen depth turn s ne v = absurd (ne refl)
