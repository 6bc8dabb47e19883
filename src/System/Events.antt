-- ===== src/System/Events.antt =====
-- What reaches the kernel, in any order, each event up to its end before the next one: the entries of the
-- descriptor table, and what the tasks of kernel/test.c do to the kernel without an interrupt, since they run
-- in ring 0: they call `sched_make_task` and `printf`, write the owner of the current task and write memory.
use klyx.Prelude.{ℕ, Bool, List, [], ◌∷◌, String}
use klyx.Machine.Regs.{IntRegs}
use klyx.Machine.Outcome.{returned, ◌>>=◌}
use klyx.Machine.Memory.{Memory}
use klyx.Console.Keyboard.{Scan, int_keyboard}
use klyx.Sched.Task.{Kernel, sched_make_task}
use klyx.Sched.Flush.{Arg, Printf, Result}
use klyx.Sched.Switch.{set_task}
use klyx.Traps.Syscall.{Env, self, syscall_handler, int_timer}
use klyx.Traps.Debug.{breakpoint}
use klyx.Traps.Error.{Entry, run_entry}

pub data Event : Type 0 where
  timer : Env → Event
  keyboard : Scan → Event
  syscall : Env → Event
  exception : Entry → Event
  debug : (lines : ℕ) → List (List Scan) → Event
  make_task : (eip tty fs gs cs generic_segment : ℕ) → Bool → Event
  print : String → List Arg → Event
  own : (uid gid : ℕ) → Event
  store : Memory → Event

module _ (printf : Printf) where
  -- `x86_trap_breakpoint`, in the kernel.
  unfoldable pub int_breakpoint :
      (lines : ℕ) → List (List Scan) → IntRegs → Kernel → Result (IntRegs × Kernel)
  int_breakpoint lines rounds regs k =
      breakpoint printf k.memory (self k).tty lines rounds regs k.console >>= λ r.
      returned (r.0, record k { console = r.1 })

  -- One event, with the registers that it interrupts.
  unfoldable pub handle : Event → IntRegs → Kernel → Result (IntRegs × Kernel)
  handle (timer env) regs k = int_timer printf env regs k
  handle (keyboard scan) regs k =
      returned (regs, record k { console = int_keyboard scan k.console })
  handle (syscall env) regs k = syscall_handler printf env regs k
  handle (exception entry) regs k = run_entry printf entry regs k
  handle (debug lines rounds) regs k = int_breakpoint lines rounds regs k
  handle (make_task eip tty fs gs cs generic_segment yield_only) regs k =
      returned (regs, (sched_make_task eip tty fs gs cs generic_segment yield_only k).1)
  handle (print format args) regs k =
      returned (regs, record k { console = printf (self k).tty format args k.console })
  handle (own uid gid) regs k =
      returned (regs, set_task k.current_task (record (self k) { uid = uid; gid = gid }) k)
  handle (store m) regs k = returned (regs, record k { memory = m })

  -- Events in order, each with the registers that it finds; the run ends with the first one that does
  -- not return.
  unfoldable pub run : List (Event × IntRegs) → IntRegs → Kernel → Result (IntRegs × Kernel)
  run [] regs k = returned (regs, k)
  run ((e, found) ∷ es) regs k = handle e found k >>= λ r. run es r.0 r.1
