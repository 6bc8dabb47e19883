-- ===== src/Tests/System.antt =====
-- The start of the kernel and a run of it, the tables, and the entry of an interrupt, on concrete values.
use klyx.Prelude.{
  ℕ, ◌+◌, ◌-◌, ◌≤◌, ◌<◌, ◌≡◌, true, false, List, [], ◌∷◌, refl, ◌==◌, if◌then◌else◌, arith,
}
use klyx.Machine.Regs.{IntRegs, load_regs}
use klyx.Machine.Outcome.{returned, ◌>>=◌}
use klyx.Machine.Tables.{IdtDesc}
use klyx.Machine.Start.{Hardware, no_gdt_desc, gdt_init, idt_cap, tss_cap}
use klyx.Machine.Segments.{Segments, gdt_init-Segments}
use klyx.Machine.Entry.{Words, regs_at, int_end}
use klyx.Sched.Signal.{sigkill}
use klyx.Sched.Task.{Kernel, task_stack_cap, stack_top, fresh_task}
use klyx.Traps.Error.{error_entry}
use klyx.System.Valid.{LeavesValid, Prints, IsValid, puts}
use klyx.Traps.Owners.{IsContained}
use klyx.System.Events.{Event, timer, keyboard, syscall, exception, own, run}
use klyx.System.Boot.{handlers, start_hardware, kernel_start}
use klyx.System.Start.{IsFresh, Started, kernel_start-Started, AreWhole, run-kernel_start}
use klyx.System.Vectors.{EntersAll, Enters, is_free, start_hardware-EntersAll}
use klyx.System.Async.{Pointers, During, interrupted, stored}
use klyx.System.Stacks.{int_end-fresh_task}
use klyx.Tests.World.{symbols, print_mark, no_env, world, blank_console, table-IsQueue, call}

abbrev no_idt_desc : IdtDesc
no_idt_desc = record {
  offset_1 = 0;
  segment = 0;
  zero1 = 0;
  gate_type = 0;
  zero2 = false;
  ring = 0;
  present = false;
  offset_2 = 0;
}

abbrev hardware : Hardware
hardware = record {
  gdt_descriptors = λ _. no_gdt_desc;
  idt_descriptors = λ _. no_idt_desc;
  gdtr = record { size = 0; descriptors = 0 };
  idtr = record { size = 0; descriptors = 0 };
  tss = λ _. 0;
  written = [];
}

-- The globals, with tasks of an earlier run still in the table, and a screen that holds something.
abbrev cold : Kernel
cold = record (world 0) {
  is_tasking_avaliable = false;
  console = record blank_console { con_addr = λ _. 0x0741 };
}

cold-IsFresh : IsFresh cold
cold-IsFresh = record {
  queues = table-IsQueue;
  rings = λ j. record { fits = omega arith; read_in = omega arith; write_at = refl };
  cursors = λ j lt. omega arith;
  display = omega arith;
  blank = λ i lt. refl;
  waits = refl;
}

print_mark-Prints : Prints print_mark
unfolding puts
print_mark-Prints tty format args c = (b'*' ∷ [], refl)

-- A switch of tasks, a key, a kill of the first shell, its fault, and an owner.
abbrev events : List (Event × IntRegs)
events =
    (syscall no_env, call 4 0 0)
    ∷ (keyboard (record { status = 1; code = 30 }), call 0 0 0)
    ∷ (syscall no_env, call 12 2 sigkill)
    ∷ (exception (error_entry "page fault" 13), call 0 0 0)
    ∷ (own 500 500, call 0 0 0)
    ∷ (timer no_env, call 0 0 0)
    ∷ []

events-AreWhole : AreWhole events
events-AreWhole = (yield_whole, (tt, (kill_whole, (tt, (tt, (tt, tt))))))
  where
    yield_whole : IsContained (call 4 0 0)
    yield_whole = record {
      writes = λ e. omega arith;
      reads = λ e. omega arith;
      names = λ e. omega arith;
      clocks = λ e. omega arith;
    }

    kill_whole : IsContained (call 12 2 sigkill)
    kill_whole = record {
      writes = λ e. omega arith;
      reads = λ e. omega arith;
      names = λ e. omega arith;
      clocks = λ e. omega arith;
    }

run-kernel_start_example : LeavesValid (
    (kernel_start print_mark no_env symbols 0xFF (call 0 0 0) hardware cold).1 >>= λ r.
    run print_mark events r.0 r.1)
run-kernel_start_example =
    run-kernel_start print_mark no_env symbols 0xFF (call 0 0 0) hardware cold print_mark-Prints
      cold-IsFresh events events-AreWhole

kernel_start-Started_example :
    (r : IntRegs × Kernel) × ((kernel_start print_mark no_env symbols 0xFF
        (call 0 0 0)
        hardware
        cold).1
      ≡ returned r)
    × (r.0.eip ≡ 0x15000)
    × Started symbols r.1
    × IsValid r.1
kernel_start-Started_example =
    kernel_start-Started print_mark no_env symbols 0xFF (call 0 0 0) hardware cold cold-IsFresh

start_hardware-EntersAll_example :
    EntersAll (start_hardware symbols 0xFF hardware).idt_descriptors (handlers symbols)
    × ((w : ℕ)
        → w < idt_cap
        → is_free w (handlers symbols) ≡ true
        → Enters 0x13000 0 ((start_hardware symbols 0xFF hardware).idt_descriptors w))
start_hardware-EntersAll_example = start_hardware-EntersAll symbols 0xFF hardware

gdt_init-Segments_example :
    Segments 0x10000 (gdt_init 0x10000 0x12000 hardware).gdt_descriptors
    × ((gdt_init 0x10000 0x12000 hardware).tss 0 ≡ 0x10)
    × ((gdt_init 0x10000 0x12000 hardware).tss 1 ≡ 0x1000000)
    × ((i : ℕ) → 2 ≤ i → i < tss_cap → (gdt_init 0x10000 0x12000 hardware).tss i ≡ 0)
gdt_init-Segments_example = gdt_init-Segments 0x10000 0x12000 hardware

-- A task with its stack pointer at 4096.
abbrev in_task : IntRegs
in_task = record (call 9 8 7) { esp = 4096 }

-- The handler's own stack, below the frame.
abbrev in_handler : ℕ → IntRegs
in_handler esp = record (call 1 1 1) { esp = esp }

abbrev no_pointers : Pointers
no_pointers = record {
  esp_stack = 0;
  eip_instr = 0;
  efl_instr = 0;
  cds_instr = 0;
  is_in_interrupt = false;
}

-- Two interrupts come during the call, and it stores a word on its caller's stack in between.
abbrev call_steps : List During
call_steps = interrupted (in_handler 4000) ∷ (stored 4200 65 ∷ (interrupted (in_handler 3900) ∷ []))

-- A frame at address 1000.
abbrev frame_of : IntRegs → Words
frame_of c a =
    if a == 1000
    then c.gs
    else if a == 1004
    then c.fs
    else if a == 1008
    then c.es
    else if a == 1012
    then c.ss
    else if a == 1016
    then c.ds
    else if a == 1020
    then c.edi
    else if a == 1024
    then c.esi
    else if a == 1028
    then c.ebp
    else if a == 1032
    then c.esp
    else if a == 1036
    then c.ebx
    else if a == 1040
    then c.edx
    else if a == 1044
    then c.ecx
    else if a == 1048
    then c.eax
    else if a == 1052
    then c.eip
    else if a == 1056
    then c.cs
    else if a == 1060
    then c.eflags
    else 0

-- The frame of a fresh task in slot 2.
abbrev fresh_frame : Words
fresh_frame = frame_of (load_regs (fresh_task 2 0x15200 1 0 0 8 16 false).regs)

fresh_frame-regs : regs_at fresh_frame 1000 ≡ load_regs (fresh_task 2 0x15200 1 0 0 8 16 false).regs
unfolding regs_at load_regs fresh_task
fresh_frame-regs = refl

int_end-fresh_task_example :
    ((int_end 1000 fresh_frame).0.eip ≡ 0x15200)
    × ((int_end 1000 fresh_frame).0.esp ≡ stack_top 2 + 12)
    × (stack_top 3 - task_stack_cap ≤ (int_end 1000 fresh_frame).0.esp)
int_end-fresh_task_example =
    int_end-fresh_task 2 0x15200 1 0 0 8 16 false 1000 fresh_frame (omega arith) fresh_frame-regs
