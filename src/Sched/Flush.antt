-- ===== src/Sched/Flush.antt =====
-- `__flush_signals` of kernel/sched.c and `panic` of kernel/main.c. What they print goes through
-- `printf` (kernel/thirdparty/printf.c), which is a parameter: it is given the tty of the current task,
-- which `con_putchar` reads, the format, its arguments and the consoles.
use klyx.Prelude.{
  ℕ, zero, suc, ◌+◌, ◌-◌, ◌%◌, Bool, true, false, not, ◌&&◌, List, [], ◌∷◌, Option, none, some,
  String, ◌==◌, if◌then◌else◌,
}
use klyx.Machine.Regs.{IntRegs}
use klyx.Machine.Outcome.{Outcome, returned, panicked, ◌>>=◌}
use klyx.Console.State.{Console}
use klyx.Sched.Signal.{Action, die, go_on, stop, skip, signal_case}
use klyx.Sched.Task.{Task, dead, is_dead, task_sig_cap}

-- A variable argument of `printf`; a `char *` into memory is given with the memory.
pub data Arg : Type 0 where
  word : ℕ → Arg
  text : String → Arg
  pointed : (ℕ → ℕ) → ℕ → Arg

abbrev pub Printf : Type 0
Printf = (tty : ℕ) → String → List Arg → Console → Console

abbrev pub Result : Type 0 → Type 0
Result = Outcome Console

-- The arguments of a register dump, in its order.
abbrev pub dumped : IntRegs → List Arg
dumped r =
    word r.eax
    ∷ word r.ebx
    ∷ word r.ecx
    ∷ word r.edx
    ∷ word r.esi
    ∷ word r.edi
    ∷ word r.eip
    ∷ word r.esp
    ∷ word r.ebp
    ∷ word r.cs
    ∷ word r.ss
    ∷ word r.es
    ∷ word r.ds
    ∷ word r.fs
    ∷ word r.gs
    ∷ []

-- The format of a register dump.
abbrev pub dump_format : String
dump_format =
    "\tEAX: %016X\tEBX: %016X\n\tECX: %016X\tEDX: %016X\n\tESI: %016X\tEDI: %016X\n\tEIP: %016X\tESP: %016X\n\tEBP: %016X\n\tCS: %016X\tSS: %016X\n\tES: %016X\tDS: %016X\n\tFS: %016X\tGS: %016X\n"

-- `sig_end`.
abbrev pub advance_read : Task × Console → Task × Console
advance_read (task, c) =
    (record task { signals_read_head = (task.signals_read_head + 1) % task_sig_cap }, c)

-- The test of the loop.
abbrev pub has_signals : Task → Bool
has_signals task = not (task.signals_size == 0) && not (is_dead task.status)

module _ (printf : Printf) where
  -- `printf("-")`, so many times.
  unfoldable pub print_rule : ℕ → ℕ → Console → Console
  print_rule tty zero c = c
  print_rule tty (suc n) c = print_rule tty n (printf tty "-" [] c)

  -- Prints, then stops in `for(;;)`. All its callers pass registers.
  unfoldable pub panic : {A : Type 0} → String → IntRegs → ℕ → Console → Result A
  panic msg regs tty c =
      let c1 = print_rule tty 80 (printf tty "\n\n" [] c) in
      let c2 = printf tty dump_format (dumped regs) c1 in
      panicked msg (printf tty "\n\nKernel panic: `%s`.\n" (text msg ∷ []) c2)

  -- The labels `sig_die`, `sig_cont` and `sig_stop`. `current` is `current_task`.
  unfoldable pub act : Action → (current : ℕ) → IntRegs → Task → Console → Result (Task × Console)
  act die current regs task c =
      if current == 0
      then panic "Attempt to kill init." regs task.tty c
      else returned (record task { status = dead }, c)
  act go_on current regs task c = returned (record task { paused = false }, c)
  act stop current regs task c = returned (record task { paused = true }, c)
  act skip current regs task c = returned (task, c)

  -- The message of a `case`.
  unfoldable pub announce : Option String → ℕ → Console → Console
  announce none tty c = c
  announce (some msg) tty c = printf tty msg [] c

  -- One round of the loop. `task` is the record of the current task in every call.
  unfoldable pub flush_round : (current : ℕ) → IntRegs → Task → Console → Result (Task × Console)
  flush_round current regs task c =
      let t = record task { signals_size = task.signals_size - 1 } in
      let (msg, action) = signal_case (t.signals t.signals_read_head) in
      act action current regs t (announce msg t.tty c) >>= λ r. returned (advance_read r)

  -- The loop, with fuel. Every round takes one signal, so `signals_size` rounds are enough.
  unfoldable pub flush_loop : ℕ → (current : ℕ) → IntRegs → Task → Console → Result (Task × Console)
  flush_loop zero current regs task c = returned (task, c)
  flush_loop (suc fuel) current regs task c = elim (has_signals task) [
    | true ↦ flush_round current regs task c >>= λ r. flush_loop fuel current regs r.0 r.1
    | false ↦ returned (task, c)
  ]

  unfoldable pub flush_signals : (current : ℕ) → IntRegs → Task → Console → Result (Task × Console)
  flush_signals current regs task c = flush_loop task.signals_size current regs task c
