-- ===== src/Programs/Ladder.antt =====
-- The commands of the shell in kernel/test.c and the task table.
use klyx.Prelude.{ℕ, refl, Bool, true, false, List, [], Option, none, some, ◌==◌, if◌then◌else◌}
use klyx.Machine.Regs.{IntRegs}
use klyx.Machine.Outcome.{returned, panicked, halted, ◌>>=◌, After, After->>=, After-weaken}
use klyx.Console.State.{Console}
use klyx.Console.Keyboard.{Scan}
use klyx.Sched.Signal.{sigill}
use klyx.Sched.Task.{Kernel}
use klyx.Sched.Flush.{Printf, Result}
use klyx.Traps.Syscall.{Env, self, syscall_handler}
use klyx.Traps.Debug.{breakpoint}
use klyx.Traps.Error.{error_entry, run_entry}
use klyx.System.Events.{int_breakpoint}
use klyx.Programs.Crypt.{crypt}
use klyx.Programs.Calls.{syscall_0, syscall_1}
use klyx.Programs.Command.{
  Branch, empty, help, ud, kill, stop, cont, show_uid, show_gid, show_pid, show_uname, fib,
  show_time, enc_passwords, strcpy_screen, kdbg, unknown,
}
use klyx.Programs.Shell.{
  Places, Turn, Shell, ShellEnd, left, astray, print_as, print_call, print_uname, enc_repeat,
  enc_begin, run_enc, raise_ud, raise_int3, same_regs, line_at,
}
use klyx.Programs.Session.{on_kernel, run_command}
use klyx.Programs.Kept.{Kept, Kept-trans, same_tasks-Kept}
use klyx.Programs.Parts.{
  ShellKept, Kept-print_as, ask-Kept, signal_tty2-Kept, print_time-Kept, fib_loop-Kept,
  enc_repeat-Kept,
}

abbrev CallKept : Kernel → IntRegs × Kernel → Type 0
CallKept k r = Kept k r.1

-- A shell that has returned has kept the table.
abbrev pub LeftKept : Kernel → ShellEnd → Type 0
LeftKept k (left s) = Kept k s.kernel
LeftKept k (astray regs k') = Unit

pub LeftKept-trans : {k l : Kernel} → Kept k l → (e : ShellEnd) → LeftKept l e → LeftKept k e
LeftKept-trans p (left t) q = Kept-trans p q
LeftKept-trans p (astray r k) q = tt

module _ (printf : Printf) (regs : IntRegs) (places : Places) where
  enc_begin-Kept :
      (depth : ℕ) (input : Env) (s : Shell)
      → After (ShellKept s.kernel) (enc_begin printf regs places depth input s)
  unfolding enc_begin
  enc_begin-Kept depth input s =
      go (s.kernel.memory (places.buf depth) == 0)
        (crypt (some places.pass_saver) (some (line_at printf regs places depth s.kernel)))
    where
      working : Shell
      working = record s {
        kernel = print_as printf regs places "crypt() work. please wait...\n" [] s.kernel;
      }

      works : Kept s.kernel working.kernel
      works = Kept-print_as printf regs places _ _ (same_tasks-Kept s.kernel s.kernel refl refl)

      go :
          (b : Bool) (o : Option (List ℕ))
          → After (ShellKept s.kernel) (
              if b then returned s else elim o as (λ _. Result Shell) [
                | none ↦ returned working
                | some cr ↦ enc_repeat printf regs places depth input cr working
              ])
      go true o = same_tasks-Kept s.kernel s.kernel refl refl
      go false none = works
      go false (some cr) =
          After-weaken (ShellKept working.kernel) (ShellKept s.kernel)
            (enc_repeat printf regs places depth input cr working) (λ t p. Kept-trans works p)
            (enc_repeat-Kept printf regs places depth input cr working)

  run_enc-Kept :
      (depth : ℕ) (turn : Turn) (s : Shell)
      → After (ShellKept s.kernel) (run_enc printf regs places depth turn s)
  unfolding run_enc
  run_enc-Kept depth turn s =
      After->>= (Kept s.kernel) (ShellKept s.kernel) _ _
        (ask-Kept printf regs places "Enter a password: " depth turn.password s.kernel)
        (λ k p.
          After-weaken (ShellKept k) (ShellKept s.kernel)
            (enc_begin printf regs places depth turn.again (record s { kernel = k }))
            (λ t q. Kept-trans p q) (enc_begin-Kept depth turn.again (record s { kernel = k })))

  debugged-LeftKept :
      (b : Bool) (s : Shell) (q : IntRegs) (k : Kernel)
      → Kept s.kernel k
      → LeftKept s.kernel (if b then left (record s { kernel = k }) else astray q k)
  debugged-LeftKept true s q k p = p
  debugged-LeftKept false s q k p = tt

  int_breakpoint-Kept :
      (lines : ℕ) (rounds : List (List Scan)) (k : Kernel)
      → After (CallKept k) (int_breakpoint printf lines rounds regs k)
  unfolding int_breakpoint
  int_breakpoint-Kept lines rounds k =
      go (breakpoint printf k.memory (self k).tty lines rounds regs k.console)
    where
      go :
          (o : Result (IntRegs × Console))
          → After (CallKept k) (o >>= λ r. returned (r.0, record k { console = r.1 }))
      go (returned r) = same_tasks-Kept k _ refl refl
      go (panicked msg c) = tt
      go (halted c) = tt

  raise_int3-LeftKept :
      (turn : Turn) (s : Shell) → After (LeftKept s.kernel) (raise_int3 printf regs places turn s)
  unfolding raise_int3
  raise_int3-LeftKept turn s =
      After->>= (CallKept s.kernel) (LeftKept s.kernel)
        (int_breakpoint printf turn.debug_lines turn.debug_rounds regs s.kernel) _
        (int_breakpoint-Kept turn.debug_lines turn.debug_rounds s.kernel)
        (λ r p. debugged-LeftKept (same_regs r.0 regs) s r.0 r.1 p)

  raise_ud-LeftKept : (k : Kernel) → After (LeftKept k) (raise_ud printf regs places k)
  unfolding raise_ud
  raise_ud-LeftKept k = go (run_entry printf (error_entry "invalid opcode" sigill) regs k)
    where
      go :
          (o : Result (IntRegs × Kernel))
          → After (LeftKept k) (o >>= λ r. returned (astray r.0 r.1))
      go (returned r) = tt
      go (panicked msg c) = tt
      go (halted c) = tt

  on_kernel-LeftKept :
      (s : Shell) (m : Result Kernel)
      → After (Kept s.kernel) m
      → After (LeftKept s.kernel) (on_kernel s m)
  on_kernel-LeftKept s m h = After->>= (Kept s.kernel) (LeftKept s.kernel) m _ h (λ k p. p)

  pub run_command-LeftKept :
      (cmd : Branch) (depth : ℕ) (turn : Turn) (s : Shell)
      → After (LeftKept s.kernel) (run_command printf regs places cmd depth turn s)
  unfolding run_command print_call print_uname syscall_0 syscall_1 syscall_handler
  run_command-LeftKept help depth turn s =
      Kept-print_as printf regs places _ _ (same_tasks-Kept s.kernel s.kernel refl refl)
  run_command-LeftKept ud depth turn s = raise_ud-LeftKept s.kernel
  run_command-LeftKept kill depth turn s =
      on_kernel-LeftKept s _ (signal_tty2-Kept printf regs places turn.line _ s.kernel)
  run_command-LeftKept stop depth turn s =
      on_kernel-LeftKept s _ (signal_tty2-Kept printf regs places turn.line _ s.kernel)
  run_command-LeftKept cont depth turn s =
      on_kernel-LeftKept s _ (signal_tty2-Kept printf regs places turn.line _ s.kernel)
  run_command-LeftKept show_uid depth turn s =
      Kept-print_as printf regs places _ _ (same_tasks-Kept s.kernel s.kernel refl refl)
  run_command-LeftKept show_gid depth turn s =
      Kept-print_as printf regs places _ _ (same_tasks-Kept s.kernel s.kernel refl refl)
  run_command-LeftKept show_pid depth turn s =
      Kept-print_as printf regs places _ _ (same_tasks-Kept s.kernel s.kernel refl refl)
  run_command-LeftKept show_uname depth turn s =
      Kept-print_as printf regs places _ _ (same_tasks-Kept s.kernel _ refl refl)
  run_command-LeftKept fib depth turn s = fib_loop-Kept printf regs places _ 1 1 s.kernel
  run_command-LeftKept show_time depth turn s =
      on_kernel-LeftKept s _ (print_time-Kept printf regs places depth turn.clock s.kernel)
  run_command-LeftKept enc_passwords depth turn s =
      After->>= (ShellKept s.kernel) (LeftKept s.kernel) _ _ (run_enc-Kept depth turn s) (λ t p. p)
  run_command-LeftKept strcpy_screen depth turn s = same_tasks-Kept s.kernel _ refl refl
  run_command-LeftKept kdbg depth turn s = raise_int3-LeftKept turn s
  run_command-LeftKept unknown depth turn s =
      Kept-print_as printf regs places _ _ (same_tasks-Kept s.kernel s.kernel refl refl)
  run_command-LeftKept empty depth turn s = same_tasks-Kept s.kernel s.kernel refl refl
