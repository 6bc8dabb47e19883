-- ===== src/System/Boot.antt =====
-- `kernel_start` of kernel/main.c. The addresses of the handlers, of the tables and of the first programs
-- are the linker's. Interrupts that come in between are not modelled here: until the first system call
-- the timer's does nothing, and the keyboard's are events of their own.
use klyx.Prelude.{
  ℕ, zero, suc, ◌+◌, ◌-◌, ◌/◌, ◌%◌, ◌^◌, true, false, List, [], ◌∷◌, some, update, ltb,
  if◌then◌else◌,
}
use klyx.Machine.Regs.{IntRegs}
use klyx.Machine.Tables.{IdtDesc, idt_set}
use klyx.Machine.Start.{Hardware, idt_gate_32bit_int, gdt_init, idt_init}
use klyx.Console.State.{Tty, Writer, con}
use klyx.Console.Output.{cells}
use klyx.Sched.Task.{Task, Kernel, dead, tasks_cap, sched_make_task}
use klyx.Sched.Flush.{Printf, Result}
use klyx.Traps.Syscall.{Env, syscall_handler}

pub record Symbols : Type 0 where
  pub tss : ℕ
  pub idt_descriptors : ℕ
  pub gdt_descriptors : ℕ
  pub idt_nothing : ℕ
  pub int_timer : ℕ
  pub int_keyboard : ℕ
  pub syscall_handler : ℕ
  pub x86_trap_do_divide_by_0 : ℕ
  pub x86_trap_nmi : ℕ
  pub x86_trap_breakpoint : ℕ
  pub x86_trap_overflow : ℕ
  pub x86_trap_bound : ℕ
  pub x86_trap_invalid_opcode : ℕ
  pub x86_trap_device_no_avaliable : ℕ
  pub x86_trap_double_fault : ℕ
  pub x86_trap_coprocessor_segment_overrun : ℕ
  pub x86_trap_invalid_tss : ℕ
  pub x86_trap_segment_not_present : ℕ
  pub x86_trap_stack_segment_fault : ℕ
  pub x86_trap_general_protection : ℕ
  pub x86_trap_page_fault : ℕ
  pub x86_trap_x87_error : ℕ
  pub x86_trap_alignment : ℕ
  pub x86_trap_machine : ℕ
  pub x86_trap_simd : ℕ
  pub test_init : ℕ
  pub test_a : ℕ
  pub test_b : ℕ
  pub test_c : ℕ

-- The loop over the slots from `pid` on.
unfoldable pub kill_all : (left pid : ℕ) → (ℕ → Task) → ℕ → Task
kill_all zero pid tasks = tasks
kill_all (suc left) pid tasks =
    kill_all left (pid + 1) (update tasks pid (record (tasks pid) { status = dead }))

-- The four ttys: the last one writes from right to left.
abbrev pub start_tty : Writer → Tty
start_tty w = record {
  write = some w;
  setcur = some con;
  getcur = some con;
  read = some con;
  width = 80;
  height = 25;
}

unfoldable pub set_ttys : (ℕ → Tty) → ℕ → Tty
set_ttys ttys =
    let t0 = update ttys 0 (start_tty Writer.con_putstr) in
    let t1 = update t0 1 (start_tty Writer.con_putstr) in
    let t2 = update t1 2 (start_tty Writer.con_putstr) in
    update t2 3 (start_tty Writer.con_putstr_rev)

-- `memset((void *)0xB8000, 0, 25*80*2)`, where `con_addr` points.
abbrev pub clear_screen : (ℕ → ℕ) → ℕ → ℕ
clear_screen addr i = if ltb i cells then 0 else addr i

-- The calls of `idt_set` in their order: vector, handler and ring.
abbrev pub handlers : Symbols → List (ℕ × ℕ × ℕ)
handlers s =
    (32, s.int_timer, 0)
    ∷ (33, s.int_keyboard, 0)
    ∷ (0x80, s.syscall_handler, 3)
    ∷ (0x00, s.x86_trap_do_divide_by_0, 0)
    ∷ (0x02, s.x86_trap_nmi, 0)
    ∷ (0x03, s.x86_trap_breakpoint, 0)
    ∷ (0x04, s.x86_trap_overflow, 0)
    ∷ (0x05, s.x86_trap_bound, 0)
    ∷ (0x06, s.x86_trap_invalid_opcode, 0)
    ∷ (0x07, s.x86_trap_device_no_avaliable, 0)
    ∷ (0x08, s.x86_trap_double_fault, 0)
    ∷ (0x09, s.x86_trap_coprocessor_segment_overrun, 0)
    ∷ (0x0A, s.x86_trap_invalid_tss, 0)
    ∷ (0x0B, s.x86_trap_segment_not_present, 0)
    ∷ (0x0C, s.x86_trap_stack_segment_fault, 0)
    ∷ (0x0D, s.x86_trap_general_protection, 0)
    ∷ (0x0E, s.x86_trap_page_fault, 0)
    ∷ (0x10, s.x86_trap_x87_error, 0)
    ∷ (0x11, s.x86_trap_alignment, 0)
    ∷ (0x12, s.x86_trap_machine, 0)
    ∷ (0x13, s.x86_trap_simd, 0)
    ∷ []

-- `idt_set` for each of them.
unfoldable pub set_handlers : List (ℕ × ℕ × ℕ) → (ℕ → IdtDesc) → ℕ → IdtDesc
set_handlers [] idt = idt
set_handlers ((vector, handler, ring) ∷ rest) idt =
    set_handlers rest (idt_set idt vector 0x08 handler idt_gate_32bit_int ring)

-- `outb`.
abbrev pub outb : ℕ → ℕ → Hardware → Hardware
outb port data_byte hw = record hw { written = (port, data_byte % 2 ^ 8) ∷ hw.written }

-- `uint16_t pit_div`.
abbrev pub pit_div : ℕ
pit_div = 1193182 / 60 % 2 ^ 16

-- The interrupt controllers.
unfoldable pub start_pic : Hardware → Hardware
start_pic hw = outb 0xA1 0x00 (
    outb 0x21 0x00 (
      outb 0xA1 0x01 (
        outb 0x21 0x01 (
          outb 0xA1 0x02 (
            outb 0x21 0x04
              (outb 0xA1 0x28 (outb 0x21 0x20 (outb 0xA0 0x11 (outb 0x20 0x11 hw)))))))))

-- The timer, and the mask of the first controller, which `inb` gives, without its bit 0.
unfoldable pub start_pit : (mask : ℕ) → Hardware → Hardware
start_pit mask hw =
    outb 0x21 (mask - mask % 2)
      (outb 0x40 (pit_div / 2 ^ 8) (outb 0x40 pit_div (outb 0x43 0x36 hw)))

-- The tables and the devices. No table depends on the order of the writes to ports.
unfoldable pub start_hardware : Symbols → (mask : ℕ) → Hardware → Hardware
start_hardware s mask hw =
    let hw1 =
      start_pic (idt_init s.idt_nothing s.idt_descriptors (gdt_init s.tss s.gdt_descriptors hw)) in
    let hw2 = start_pit mask hw1 in
    record hw2 { idt_descriptors = set_handlers (handlers s) hw2.idt_descriptors }

-- The five calls of `sched_make_task`.
unfoldable pub make_tasks : Symbols → Kernel → Kernel
make_tasks s k =
    let k1 = (sched_make_task s.test_init 0 0 0 0x08 0x10 true k).1 in
    let k2 = (sched_make_task s.test_a 0 0 0 0x08 0x10 false k1).1 in
    let k3 = (sched_make_task s.test_b 1 0 0 0x08 0x10 false k2).1 in
    let k4 = (sched_make_task s.test_a 2 0 0 0x08 0x10 false k3).1 in
    (sched_make_task s.test_c 3 0 0 0x08 0x10 false k4).1

-- The first system call.
unfoldable pub start_tasks : Symbols → Kernel → Kernel
start_tasks s k =
    let c = record (k.console) {
      con_addr = clear_screen (k.console).con_addr;
      ttys = set_ttys (k.console).ttys;
    } in
    let made = make_tasks s (record k { tasks = kill_all tasks_cap 0 k.tasks; console = c }) in
    record made { current_task = 0; console = record (made.console) { use_current_tty = false } }

-- All of it; `regs` are the registers at the `int $0x80`.
unfoldable pub kernel_start :
    Printf
    → Env
    → Symbols
    → (mask : ℕ) → IntRegs
    → Hardware
    → Kernel
    → Hardware × Result (IntRegs × Kernel)
kernel_start printf env s mask regs hw k = (
  start_hardware s mask hw,
  syscall_handler printf env (record regs { eax = 0 }) (start_tasks s k),
)
