-- ===== src/Traps/Error.antt =====
-- `x86_error_trap` of kernel/traps.c and the entries that call it or `panic`. An entry that ends in
-- `INT_END` returns to the task whose registers the handler leaves.
use klyx.Prelude.{ℕ, ◌∷◌, String, Option, none, some, ◌==◌, if◌then◌else◌}
use klyx.Machine.Regs.{IntRegs}
use klyx.Machine.Outcome.{halted}
use klyx.Sched.Signal.{sigfpe, sigsegv, sigill, sigtrap}
use klyx.Sched.Task.{Kernel, sched_kill_task}
use klyx.Sched.Flush.{Printf, Result, text, dumped, panic}
use klyx.Sched.Switch.{sched_next_task}
use klyx.Traps.Syscall.{self}

-- The format of its message: the name, then the registers.
abbrev pub trap_format : String
trap_format =
    "\n\n%s:\n\tEAX: %016X\tEBX: %016X\n\tECX: %016X\tEDX: %016X\n\tESI: %016X\tEDI: %016X\n\tEIP: %016X\tESP: %016X\n\tEBP: %016X\n\tCS: %016X\tSS: %016X\n\tES: %016X\tDS: %016X\n\tFS: %016X\tGS: %016X\n"

-- What an entry of the descriptor table does with an exception.
pub data Entry : Type 0 where
  error_entry : String → ℕ → Entry
  panic_entry : String → Entry

-- The exceptions, by vector, whose entry ends in `INT_END` or in `panic`. Vector 0 is not among them:
-- `x86_trap_do_divide_by_0` has no `INT_END` and runs on into what the linker puts behind it.
unfoldable pub trap_entry : ℕ → Option Entry
trap_entry vector =
    if vector == 0x02
    then some (panic_entry "NMI. WTF?")
    else if vector == 0x04
    then some (error_entry "x86 overflow" sigsegv)
    else if vector == 0x05
    then some (error_entry "x86 bound" sigsegv)
    else if vector == 0x06
    then some (error_entry "invalid opcode" sigill)
    else if vector == 0x07
    then some (error_entry "device no avaliable" sigfpe)
    else if vector == 0x08
    then some (panic_entry "double fault")
    else if vector == 0x09
    then some (error_entry "coprocessor segment overrun" sigfpe)
    else if vector == 0x0a
    then some (panic_entry "invalid TSS")
    else if vector == 0x0b
    then some (error_entry "segment XXXX not present" sigsegv)
    else if vector == 0x0c
    then some (error_entry "stack segment fault" sigsegv)
    else if vector == 0x0d
    then some (error_entry "general protection" sigsegv)
    else if vector == 0x0e
    then some (error_entry "page fault" sigsegv)
    else if vector == 0x10
    then some (error_entry "FPU error" sigfpe)
    else if vector == 0x11
    then some (error_entry "alignment" sigsegv)
    else if vector == 0x12
    then some (error_entry "x86 trap" sigtrap)
    else if vector == 0x13
    then some (panic_entry "SIMD")
    else none

module _ (printf : Printf) where
  unfoldable pub x86_error_trap : IntRegs → String → (sig : ℕ) → Kernel → Result (IntRegs × Kernel)
  x86_error_trap regs name sig k =
      let c = printf (self k).tty trap_format (text name ∷ dumped regs) k.console in
      let k1 = record k { console = c } in
      if k.is_tasking_avaliable
      then sched_next_task printf regs (sched_kill_task k.current_task sig k1)
      else halted c

  unfoldable pub run_entry : Entry → IntRegs → Kernel → Result (IntRegs × Kernel)
  run_entry (error_entry name sig) regs k = x86_error_trap regs name sig k
  run_entry (panic_entry msg) regs k = panic printf msg regs (self k).tty k.console
