-- ===== src/Programs/Turns.antt =====
-- The turns that the shell of kernel/test.c takes, and the fuel of its loop.
use klyx.Prelude.{
  ℕ, ◌≤◌, ◌≡◌, refl, Bool, true, false, List, Option, none, some, length, ◌==◌, ◌∷◌, [],
  if◌then◌else◌,
}
use klyx.Programs.Enc.{encp_cap, first_copy}
use klyx.Programs.Shell.{enc_check, enc_verdict}
use klyx.Traps.Debug.{string_at}
use klyx.Sched.Flush.{word}
use klyx.Machine.Regs.{IntRegs}
use klyx.Machine.Outcome.{returned, panicked, halted, ◌>>=◌, After, After->>=}
use klyx.Sched.Signal.{sigill}
use klyx.Sched.Task.{Kernel}
use klyx.Sched.Flush.{Printf, Result}
use klyx.Traps.Syscall.{Env}
use klyx.Traps.Error.{error_entry, run_entry}
use klyx.System.Events.{int_breakpoint}
use klyx.Programs.Crypt.{crypt}
use klyx.Programs.Command.{
  Branch, empty, help, ud, kill, stop, cont, show_uid, show_gid, show_pid, show_uname, fib,
  show_time, enc_passwords, strcpy_screen, kdbg, unknown,
}
use klyx.Programs.Shell.{
  Places, Turn, Shell, ShellEnd, left, astray, print_as, ask, enc_repeat, enc_begin, run_enc,
  raise_ud, raise_int3, same_regs, line_at,
}
use klyx.Programs.Session.{on_kernel, run_command}

-- What a part leaves of the turns.
abbrev pub Same : List Turn → ShellEnd → Type 0
Same ts (left s) = s.turns ≡ ts
Same ts (astray regs k) = Unit

abbrev pub SameShell : List Turn → Shell → Type 0
SameShell ts s = s.turns ≡ ts

-- At most `n` turns are left.
abbrev pub AtMost : ℕ → ShellEnd → Type 0
AtMost n (left s) = length s.turns ≤ n
AtMost n (astray regs k) = Unit

on_kernel-Same : (s : Shell) (m : Result Kernel) → After (Same s.turns) (on_kernel s m)
on_kernel-Same s (returned k) = refl
on_kernel-Same s (panicked msg c) = tt
on_kernel-Same s (halted c) = tt

pub Same-AtMost : (ts : List Turn) (n : ℕ) → length ts ≤ n → (e : ShellEnd) → Same ts e → AtMost n e
Same-AtMost ts n le (left s) p = rw p le
Same-AtMost ts n le (astray r k) p = tt

module _ (printf : Printf) (regs : IntRegs) (places : Places) where
  enc_check-turns :
      (depth : ℕ) (s : Shell) → SameShell s.turns (enc_check printf regs places depth s)
  unfolding enc_check enc_verdict
  enc_check-turns depth s = go (s.kernel.memory (places.buf depth) == 0) (
      crypt (some (line_at printf regs places depth s.kernel)) (some (string_at encp_cap s.encp 0)))
    where
      go :
          (b : Bool) (o : Option (List ℕ))
          → SameShell s.turns (
              if b then s else elim o as (λ _. Shell) [
                | none ↦ s
                | some cr ↦
                    enc_verdict printf regs places (line_at printf regs places depth s.kernel) cr s
              ])
      go true o = refl
      go false none = refl
      go false (some cr) = refl

  enc_repeat-turns :
      (depth : ℕ) (input : Env) (cr : List ℕ) (s : Shell)
      → After (SameShell s.turns) (enc_repeat printf regs places depth input cr s)
  unfolding enc_repeat
  enc_repeat-turns depth input cr s = go (
      ask printf regs places "Enter the same password: " depth input
        (print_as printf regs places "%p\n" (word places.encp ∷ []) s.kernel))
    where
      go :
          (m : Result Kernel)
          → After (SameShell s.turns) (
              m >>= λ k. returned (
                enc_check printf regs places depth (record s {
                  kernel = k;
                  encp = first_copy cr (line_at printf regs places depth s.kernel) s.encp;
                })))
      go (returned k) = enc_check-turns depth _
      go (panicked msg c) = tt
      go (halted c) = tt

  enc_begin-turns :
      (depth : ℕ) (input : Env) (s : Shell)
      → After (SameShell s.turns) (enc_begin printf regs places depth input s)
  unfolding enc_begin
  enc_begin-turns depth input s =
      go (s.kernel.memory (places.buf depth) == 0)
        (crypt (some places.pass_saver) (some (line_at printf regs places depth s.kernel)))
    where
      working : Shell
      working = record s {
        kernel = print_as printf regs places "crypt() work. please wait...\n" [] s.kernel;
      }

      go :
          (b : Bool) (o : Option (List ℕ))
          → After (SameShell s.turns) (
              if b then returned s else elim o as (λ _. Result Shell) [
                | none ↦ returned working
                | some cr ↦ enc_repeat printf regs places depth input cr working
              ])
      go true o = refl
      go false none = refl
      go false (some cr) = enc_repeat-turns depth input cr working

  run_enc-Same :
      (depth : ℕ) (turn : Turn) (s : Shell)
      → After (Same s.turns) (run_enc printf regs places depth turn s >>= λ t. returned (left t))
  unfolding run_enc
  run_enc-Same depth turn s =
      After->>= (SameShell s.turns) (Same s.turns) (run_enc printf regs places depth turn s) _
        (go (ask printf regs places "Enter a password: " depth turn.password s.kernel)) (λ t p. p)
    where
      go :
          (m : Result Kernel)
          → After
              (SameShell s.turns)
              (m >>= λ k. enc_begin printf regs places depth turn.again (record s { kernel = k }))
      go (returned k) = enc_begin-turns depth turn.again _
      go (panicked msg c) = tt
      go (halted c) = tt

  raise_int3-Same :
      (turn : Turn) (s : Shell) → After (Same s.turns) (raise_int3 printf regs places turn s)
  unfolding raise_int3
  raise_int3-Same turn s =
      go (int_breakpoint printf turn.debug_lines turn.debug_rounds regs s.kernel)
    where
      choose :
          (b : Bool) (r : IntRegs × Kernel)
          → Same s.turns (if b then left (record s { kernel = r.1 }) else astray r.0 r.1)
      choose true r = refl
      choose false r = tt

      go :
          (m : Result (IntRegs × Kernel))
          → After (Same s.turns) (
              m >>= λ r.
              returned
                (if same_regs r.0 regs then left (record s { kernel = r.1 }) else astray r.0 r.1))
      go (returned r) = choose (same_regs r.0 regs) r
      go (panicked msg c) = tt
      go (halted c) = tt

  raise_ud-Same : (ts : List Turn) (k : Kernel) → After (Same ts) (raise_ud printf regs places k)
  unfolding raise_ud
  raise_ud-Same ts k = go (run_entry printf (error_entry "invalid opcode" sigill) regs k)
    where
      go : (m : Result (IntRegs × Kernel)) → After (Same ts) (m >>= λ r. returned (astray r.0 r.1))
      go (returned r) = tt
      go (panicked msg c) = tt
      go (halted c) = tt

  pub run_command-Same :
      (cmd : Branch) (depth : ℕ) (turn : Turn) (s : Shell)
      → After (Same s.turns) (run_command printf regs places cmd depth turn s)
  unfolding run_command
  run_command-Same empty depth turn s = refl
  run_command-Same ud depth turn s = raise_ud-Same s.turns s.kernel
  run_command-Same kdbg depth turn s = raise_int3-Same turn s
  run_command-Same enc_passwords depth turn s = run_enc-Same depth turn s
  run_command-Same help depth turn s = refl
  run_command-Same fib depth turn s = refl
  run_command-Same strcpy_screen depth turn s = refl
  run_command-Same unknown depth turn s = refl
  run_command-Same kill depth turn s = on_kernel-Same s _
  run_command-Same stop depth turn s = on_kernel-Same s _
  run_command-Same cont depth turn s = on_kernel-Same s _
  run_command-Same show_uid depth turn s = on_kernel-Same s _
  run_command-Same show_gid depth turn s = on_kernel-Same s _
  run_command-Same show_pid depth turn s = on_kernel-Same s _
  run_command-Same show_uname depth turn s = on_kernel-Same s _
  run_command-Same show_time depth turn s = on_kernel-Same s _
