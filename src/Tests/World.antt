-- ===== src/Tests/World.antt =====
-- A small machine: init, a task that has a signal waiting, a task of another user, and one console.
use klyx.Prelude.{◌≡◌, refl, Bool, ℕ, zero, suc, true, false, some, [], arith}
use klyx.Machine.Regs.{IntRegs}
use klyx.Console.State.{Console, Tty, Writer, InputBuf, con, eno}
use klyx.Console.Tty.{con_putchar}
use klyx.Sched.Signal.{sigstop}
use klyx.Sched.Task.{Task, Kernel, no_task, fresh_task, enqueue_signal}
use klyx.Sched.Flush.{Printf, Result}
use klyx.Machine.Outcome.{returned, panicked, halted}
use klyx.Sched.Queue.{IsQueue, fresh_task-IsQueue, enqueue_signal-IsQueue}
use klyx.Sched.Quiet.{AllQueues}
use klyx.Traps.Syscall.{Env}
use klyx.System.Boot.{Symbols}

abbrev no_input : InputBuf
no_input = record { scancode = λ _. 0; write_head = 0; read_head = 0; size = 0 }

abbrev screen_tty : Tty
screen_tty = record {
  write = some Writer.con_putstr;
  setcur = some con;
  getcur = some con;
  read = some con;
  width = 80;
  height = 25;
}

abbrev pub blank_console : Console
blank_console = record {
  errno = eno;
  ttys = λ _. screen_tty;
  use_current_tty = false;
  current_tty_displ = 0;
  keys_state = λ _. false;
  input = λ _. no_input;
  con_cursors = λ _. 0;
  con_addr = λ _. 0;
  vga_copies = λ _ _. 0;
}

-- Prints one character, whatever it is given.
abbrev pub print_mark : Printf
print_mark tty format args c = con_putchar tty b'*' c

abbrev pub root_task : ℕ → Task
root_task pid = fresh_task pid 4096 0 0 0 8 16 false

abbrev pub user_task : Task
user_task = record (root_task 2) { uid = 500; euid = 500 }

abbrev pub stopped_task : Task
stopped_task = enqueue_signal (root_task 1) sigstop

abbrev pub table : ℕ → Task
table zero = root_task 0
table (suc zero) = stopped_task
table (suc (suc zero)) = user_task
table (suc (suc (suc i))) = no_task

-- The kernel while `current` runs.
abbrev pub world : ℕ → Kernel
world current = record {
  tasks = table;
  current_task = current;
  is_tasking_avaliable = true;
  console = blank_console;
  memory = λ _. 0;
}

no_task-IsQueue : IsQueue no_task
no_task-IsQueue = omega arith

user_task-IsQueue : IsQueue (root_task 2) → IsQueue user_task
user_task-IsQueue h = omega arith

pub table-IsQueue : (pid : ℕ) → IsQueue (table pid)
table-IsQueue zero = fresh_task-IsQueue 0 4096 0 0 0 8 16 false
table-IsQueue (suc zero) =
    enqueue_signal-IsQueue (root_task 1) sigstop (fresh_task-IsQueue 1 4096 0 0 0 8 16 false)
table-IsQueue (suc (suc zero)) = user_task-IsQueue (fresh_task-IsQueue 2 4096 0 0 0 8 16 false)
table-IsQueue (suc (suc (suc i))) = no_task-IsQueue

pub world-AllQueues : (current : ℕ) → AllQueues (world current)
world-AllQueues current = table-IsQueue

-- The registers of an interrupt, with the number and the two arguments of a system call.
abbrev pub call : (eax ebx ecx : ℕ) → IntRegs
call eax ebx ecx = record {
  gs = 16;
  fs = 16;
  es = 16;
  ss = 16;
  ds = 16;
  edi = 1;
  esi = 2;
  ebp = 3;
  esp = 4;
  ebx = ebx;
  edx = 5;
  ecx = ecx;
  eax = eax;
  eip = 8192;
  cs = 8;
  eflags = 518;
}

-- No clock, no keys, no build date.
abbrev pub no_env : Env
no_env = record { upd = []; rtc = λ _. 0; rounds = []; build = [] }

-- Each symbol at an address of its own.
abbrev pub symbols : Symbols
symbols = record {
  tss = 0x10000;
  idt_descriptors = 0x11000;
  gdt_descriptors = 0x12000;
  idt_nothing = 0x13000;
  int_timer = 0x13100;
  int_keyboard = 0x13200;
  syscall_handler = 0x13300;
  x86_trap_do_divide_by_0 = 0x13400;
  x86_trap_nmi = 0x13500;
  x86_trap_breakpoint = 0x13600;
  x86_trap_overflow = 0x13700;
  x86_trap_bound = 0x13800;
  x86_trap_invalid_opcode = 0x13900;
  x86_trap_device_no_avaliable = 0x13A00;
  x86_trap_double_fault = 0x13B00;
  x86_trap_coprocessor_segment_overrun = 0x13C00;
  x86_trap_invalid_tss = 0x13D00;
  x86_trap_segment_not_present = 0x13E00;
  x86_trap_stack_segment_fault = 0x13F00;
  x86_trap_general_protection = 0x14000;
  x86_trap_page_fault = 0x14100;
  x86_trap_x87_error = 0x14200;
  x86_trap_alignment = 0x14300;
  x86_trap_machine = 0x14400;
  x86_trap_simd = 0x14500;
  test_init = 0x15000;
  test_a = 0x15100;
  test_b = 0x15200;
  test_c = 0x15300;
}

-- What a run returns, or `d`.
abbrev pub is_returned : {A : Type 0} → Result A → Bool
is_returned (returned a) = true
is_returned (panicked msg c) = false
is_returned (halted c) = false

abbrev pub returned_or : {A : Type 0} → A → Result A → A
returned_or d (returned a) = a
returned_or d (panicked msg c) = d
returned_or d (halted c) = d

pub returned_or-is_returned :
    {A : Type 0} (d : A) (o : Result A) → is_returned o ≡ true → o ≡ returned (returned_or d o)
returned_or-is_returned d (returned a) h = refl
returned_or-is_returned d (panicked msg c) h = cc
returned_or-is_returned d (halted c) h = cc
