-- ===== src/Programs/Parts.antt =====
-- The parts of the shell in kernel/test.c and the task table.
use klyx.Prelude.{
  ℕ, zero, suc, ◌+◌, refl, Bool, true, false, List, [], ◌∷◌, Option, none, some, String, ◌==◌, ltb,
  inl, inr, Bool-cases, if◌then◌else◌,
}
use klyx.Machine.Regs.{IntRegs}
use klyx.Machine.Memory.{memset}
use klyx.Machine.Outcome.{returned, ◌>>=◌, After, After->>=, After-weaken}
use klyx.Console.Tty.{tty_read, ReadResult}
use klyx.Sched.Task.{Kernel}
use klyx.Sched.Flush.{Arg, word, Printf}
use klyx.Time.Clock.{time}
use klyx.Traps.Syscall.{
  Env, self, sys_tty_read, sys_time, finish_read, finish_time, syscall_handler,
}
use klyx.Programs.Crypt.{crypt}
use klyx.Programs.Enc.{encp_cap}
use klyx.Traps.Debug.{string_at}
use klyx.Programs.Calls.{scn_tty_read, scn_time, scn_kill, syscall_1, syscall_2}
use klyx.Programs.Shell.{
  Places, Shell, print_as, ask, signal_tty2, print_time, fib_loop, enc_verdict, enc_check,
  enc_repeat, line_at,
}
use klyx.Programs.Kept.{Kept, Kept-trans, same_tasks-Kept, sys_kill-Kept}

abbrev CallKept : Kernel → ℕ × Kernel → Type 0
CallKept k r = Kept k r.1

abbrev pub ShellKept : Kernel → Shell → Type 0
ShellKept k s = Kept k s.kernel

module _ (printf : Printf) (regs : IntRegs) (places : Places) where
  pub Kept-print_as :
      {k l : Kernel} (format : String) (args : List Arg)
      → Kept k l
      → Kept k (print_as printf regs places format args l)
  unfolding print_as
  Kept-print_as {k} {l} format args p = Kept-trans p (same_tasks-Kept l _ refl refl)

  tty_read-Kept :
      (env : Env) (ptr n : ℕ) (k : Kernel)
      → After (CallKept k) (syscall_2 printf env regs scn_tty_read ptr n k)
  unfolding syscall_2 syscall_handler sys_tty_read finish_read
  tty_read-Kept env ptr n k =
      go (tty_read k.console (self k).tty (λ i. k.memory (ptr + i)) n env.rounds)
    where
      go :
          (o : Option ReadResult)
          → After (CallKept k) (
              finish_read (record regs { eax = scn_tty_read; ebx = ptr; ecx = n }) k o >>= λ r.
              returned (r.0.eax, r.1))
      go none = tt
      go (some r) = same_tasks-Kept k _ refl refl

  pub ask-Kept :
      (prompt : String) (depth : ℕ) (env : Env) (k : Kernel)
      → After (Kept k) (ask printf regs places prompt depth env k)
  unfolding ask print_as
  ask-Kept prompt depth env k =
      let ready =
        print_as printf regs places prompt []
          (record k { memory = memset k.memory (places.buf depth) 0 512 }) in
      After->>= (CallKept ready) (Kept k) _ _ (tty_read-Kept env (places.buf depth) 511 ready)
        (λ r p. Kept-trans (same_tasks-Kept k ready refl refl) p)

  pub signal_tty2-Kept :
      (env : Env) (sig : ℕ) (k : Kernel) → After (Kept k) (signal_tty2 printf regs places env sig k)
  unfolding signal_tty2 syscall_2 syscall_handler
  signal_tty2-Kept env sig k =
      Kept-print_as "check tty2\n" []
        (sys_kill-Kept (record regs { eax = scn_kill; ebx = 3; ecx = sig }) k refl)

  pub print_time-Kept :
      (depth : ℕ) (env : Env) (k : Kernel)
      → After (Kept k) (print_time printf regs places depth env k)
  unfolding print_time syscall_1 syscall_handler sys_time finish_time
  print_time-Kept depth env k =
      After->>= (CallKept k) (Kept k) _ _ (go (time env.rtc env.upd))
        (λ r p. Kept-print_as "%d\n" _ p)
    where
      go :
          (o : Option ℕ)
          → After (CallKept k) (
              finish_time (record regs { eax = scn_time; ebx = places.result depth }) k o >>= λ r.
              returned (r.0.eax, r.1))
      go none = tt
      go (some t) = elim (Bool-cases (places.result depth == 0)) [
        | inl null ↦ rw null (same_tasks-Kept k k refl refl)
        | inr other ↦ rw other (same_tasks-Kept k _ refl refl)
      ]

  pub fib_loop-Kept : (fuel a b : ℕ) (k : Kernel) → Kept k (fib_loop printf regs places fuel a b k)
  unfolding fib_loop
  fib_loop-Kept zero a b k = same_tasks-Kept k k refl refl
  fib_loop-Kept (suc fuel) a b k = go (ltb a 100) (
      Kept-trans (Kept-print_as "%d\n" _ (same_tasks-Kept k k refl refl))
        (fib_loop-Kept fuel (a + b) a _))
    where
      go :
          {l : Kernel} (more : Bool)
          → Kept k l
          → Kept k (elim more as (λ _. Kernel) [ true ↦ l | false ↦ k ])
      go true p = p
      go false p = same_tasks-Kept k k refl refl

  enc_verdict-Kept :
      (again cr : List ℕ) (s : Shell)
      → ShellKept s.kernel (enc_verdict printf regs places again cr s)
  unfolding enc_verdict
  enc_verdict-Kept again cr s =
      Kept-print_as _ _
        (Kept-print_as _ _ (Kept-print_as _ _ (same_tasks-Kept s.kernel s.kernel refl refl)))

  enc_check-Kept :
      (depth : ℕ) (s : Shell) → ShellKept s.kernel (enc_check printf regs places depth s)
  unfolding enc_check
  enc_check-Kept depth s = go (s.kernel.memory (places.buf depth) == 0) (
      crypt (some (line_at printf regs places depth s.kernel)) (some (string_at encp_cap s.encp 0)))
    where
      go :
          (b : Bool) (o : Option (List ℕ))
          → ShellKept s.kernel (
              if b then s else elim o as (λ _. Shell) [
                | none ↦ s
                | some cr ↦
                    enc_verdict printf regs places (line_at printf regs places depth s.kernel) cr s
              ])
      go true o = same_tasks-Kept s.kernel s.kernel refl refl
      go false none = same_tasks-Kept s.kernel s.kernel refl refl
      go false (some cr) = enc_verdict-Kept _ cr s

  pub enc_repeat-Kept :
      (depth : ℕ) (input : Env) (cr : List ℕ) (s : Shell)
      → After (ShellKept s.kernel) (enc_repeat printf regs places depth input cr s)
  unfolding enc_repeat
  enc_repeat-Kept depth input cr s =
      After->>= (Kept s.kernel) (ShellKept s.kernel) _ _
        (After-weaken (Kept printed) (Kept s.kernel) _
          (λ k p. Kept-trans (Kept-print_as _ _ (same_tasks-Kept s.kernel s.kernel refl refl)) p)
          (ask-Kept _ depth input _))
        (λ k p. Kept-trans p (enc_check-Kept depth _))
    where
      printed : Kernel
      printed = print_as printf regs places "%p\n" (word places.encp ∷ []) s.kernel
