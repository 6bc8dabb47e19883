-- ===== src/Programs/Valid.antt =====
-- The commands of the shell in kernel/test.c and the state that the kernel keeps.
use klyx.Prelude.{ℕ, zero, suc, ◌+◌, Bool, true, false, List, [], ◌∷◌, String, ltb}
use klyx.Machine.Regs.{IntRegs}
use klyx.Machine.Memory.{memset}
use klyx.Machine.Outcome.{returned, panicked, halted, After, After->>=}
use klyx.Sched.Task.{Kernel}
use klyx.Sched.Flush.{Arg, word, Printf, Result}
use klyx.Traps.Syscall.{Env, self}
use klyx.System.Valid.{IsValid, LeavesValid, Prints, printf-IsSound, set_console-IsValid}
use klyx.System.Calls.{set_memory-IsValid, syscall_handler-LeavesValid}
use klyx.Programs.Calls.{scn_tty_read, syscall_0, syscall_1, syscall_2}
use klyx.Programs.Shell.{
  Places, Shell, ShellEnd, left, astray, print_as, ask, signal_tty2, print_call, print_uname,
  print_time, fib_loop,
}
use klyx.Programs.Session.{on_kernel}

abbrev pub CallValid : ℕ × Kernel → Type 0
CallValid r = IsValid r.1

abbrev pub HandlerValid : IntRegs × Kernel → Type 0
HandlerValid r = IsValid r.1

abbrev pub ShellValid : Shell → Type 0
ShellValid s = IsValid s.kernel

-- The kernel of a shell that has returned, and that of one that runs elsewhere.
abbrev pub EndValid : ShellEnd → Type 0
EndValid (left s) = IsValid s.kernel
EndValid (astray regs k) = IsValid k

pub LeavesValid-After : (o : Result (IntRegs × Kernel)) → LeavesValid o → After HandlerValid o
LeavesValid-After (returned r) h = h
LeavesValid-After (panicked msg c) h = tt
LeavesValid-After (halted c) h = tt

pub on_kernel-EndValid :
    (s : Shell) (m : Result Kernel) → After IsValid m → After EndValid (on_kernel s m)
on_kernel-EndValid s m h = After->>= IsValid EndValid m _ h (λ k p. p)

module _ (printf : Printf) (prints : Prints printf) (regs : IntRegs) (places : Places) where
  pub print_as-IsValid :
      (format : String) (args : List Arg) (k : Kernel)
      → IsValid k
      → IsValid (print_as printf regs places format args k)
  unfolding print_as
  print_as-IsValid format args k v =
      set_console-IsValid k _ v
        (printf-IsSound printf prints (self k).tty format args k.console v.console)

  syscall_0-CallValid :
      (env : Env) (n : ℕ) (k : Kernel) → IsValid k → After CallValid (syscall_0 printf env regs n k)
  unfolding syscall_0
  syscall_0-CallValid env n k v =
      After->>= HandlerValid CallValid _ _
        (LeavesValid-After _
          (syscall_handler-LeavesValid printf prints (record regs { eax = n }) env k v))
        (λ r p. p)

  syscall_1-CallValid :
      (env : Env) (n a : ℕ) (k : Kernel)
      → IsValid k
      → After CallValid (syscall_1 printf env regs n a k)
  unfolding syscall_1
  syscall_1-CallValid env n a k v =
      After->>= HandlerValid CallValid _ _
        (LeavesValid-After _
          (syscall_handler-LeavesValid printf prints (record regs { eax = n; ebx = a }) env k v))
        (λ r p. p)

  syscall_2-CallValid :
      (env : Env) (n a b : ℕ) (k : Kernel)
      → IsValid k
      → After CallValid (syscall_2 printf env regs n a b k)
  unfolding syscall_2
  syscall_2-CallValid env n a b k v =
      After->>= HandlerValid CallValid _ _
        (LeavesValid-After _ (
          syscall_handler-LeavesValid printf prints (record regs { eax = n; ebx = a; ecx = b }) env
            k v))
        (λ r p. p)

  pub ask-IsValid :
      (prompt : String) (depth : ℕ) (env : Env) (k : Kernel)
      → IsValid k
      → After IsValid (ask printf regs places prompt depth env k)
  unfolding ask
  ask-IsValid prompt depth env k v =
      After->>= CallValid IsValid _ _
        (syscall_2-CallValid env scn_tty_read (places.buf depth) 511 _ (
          print_as-IsValid prompt [] _
            (set_memory-IsValid k (memset k.memory (places.buf depth) 0 512) v)))
        (λ r p. p)

  pub signal_tty2-IsValid :
      (env : Env) (sig : ℕ) (k : Kernel)
      → IsValid k
      → After IsValid (signal_tty2 printf regs places env sig k)
  unfolding signal_tty2
  signal_tty2-IsValid env sig k v =
      After->>= CallValid IsValid _ _ (syscall_2-CallValid env _ 3 sig k v)
        (λ r p. print_as-IsValid "check tty2\n" [] r.1 p)

  pub print_call-IsValid :
      (env : Env) (n : ℕ) (format : String) (k : Kernel)
      → IsValid k
      → After IsValid (print_call printf regs places env n format k)
  unfolding print_call
  print_call-IsValid env n format k v =
      After->>= CallValid IsValid _ _ (syscall_0-CallValid env n k v)
        (λ r p. print_as-IsValid format _ r.1 p)

  pub print_uname-IsValid :
      (depth : ℕ) (env : Env) (k : Kernel)
      → IsValid k
      → After IsValid (print_uname printf regs places depth env k)
  unfolding print_uname
  print_uname-IsValid depth env k v =
      After->>= CallValid IsValid _ _ (syscall_1-CallValid env _ (places.osname depth) k v)
        (λ r p. print_as-IsValid "Kernel version: %s\n" _ r.1 p)

  pub print_time-IsValid :
      (depth : ℕ) (env : Env) (k : Kernel)
      → IsValid k
      → After IsValid (print_time printf regs places depth env k)
  unfolding print_time
  print_time-IsValid depth env k v =
      After->>= CallValid IsValid _ _ (syscall_1-CallValid env _ (places.result depth) k v)
        (λ r p. print_as-IsValid "%d\n" _ r.1 p)

  pub fib_loop-IsValid :
      (fuel a b : ℕ) (k : Kernel) → IsValid k → IsValid (fib_loop printf regs places fuel a b k)
  unfolding fib_loop
  fib_loop-IsValid zero a b k v = v
  fib_loop-IsValid (suc fuel) a b k v =
      go (ltb a 100) (fib_loop-IsValid fuel (a + b) a _ (print_as-IsValid "%d\n" (word a ∷ []) k v))
    where
      go :
          {l : Kernel} (more : Bool)
          → IsValid l
          → IsValid (elim more as (λ _. Kernel) [ true ↦ l | false ↦ k ])
      go true p = p
      go false p = v
