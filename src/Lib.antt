-- ===== src/Lib.antt =====
-- Klyx: a model of the kernel (kernel/, include/) and what is proved of it.
--
-- The kernel keeps a table of 256 tasks (kernel/sched.c), four text consoles with their keyboard rings
-- (kernel/console.c, kernel/tty.c), a clock (kernel/time.c), the handlers of system calls, exceptions and
-- interrupts (kernel/traps.c) and an instruction emulator (kernel/i386_emulator.c). A handler gets the
-- registers of the interrupt, may change them and the tables, and ends by a return to the task whose
-- registers it leaves, or in an endless loop after a panic.
--
-- - Prelude: shared names, Boolean tests on numbers, arrays as families (`update`), lists, integers,
--   masks and fields of bits (Prelude/Bits), and ring buffers (Prelude/Ring).
-- - Machine: include/string.h over byte memory (Machine/Memory), `int_regs_t` and `regs_t`
--   (Machine/Regs), how a handler ends (Machine/Outcome): returned, panicked or halted, and the
--   descriptors of kernel/hw.c (Machine/Tables), `gdt_init` and `idt_init` (Machine/Start), and the macros
--   INT_START and INT_END of include/klyx/hw.h (Machine/Entry). What the last three do is in
--   Machine/Segments and Machine/Frames.
-- - Console: the key tables (Console/Keys), the globals (Console/State), `pop_scancode`,
--   `push_scancode`, `con_read`, `con_handle_input` (Console/Input), `con_putstr`, `con_setcur` and the
--   mirrored `con_putstr_rev` of kernel/main.c (Console/Output), the keyboard interrupt
--   (Console/Keyboard), and kernel/tty.c (Console/Tty). What they do is in Console/Ring, Console/Scroll,
--   Console/Screen, Console/Read, Console/Steady and Console/Enter; the state that all of it keeps in
--   Console/Sound and Console/Invariant.
-- - Sched: signal numbers and the switch over them (Sched/Signal), the task table (Sched/Task),
--   `__flush_signals` and `panic` (Sched/Flush), `sched_next_task` (Sched/Switch). The specification of
--   signal handling is `deliver` (Sched/Deliver); Sched/Queue sees a signal ring as a queue, Sched/Robin
--   says which task a switch chooses. Sched/Mutex is include/klyx/mutex.h, each call a test and a store
--   that the timer can separate.
-- - Time: kernel/time.c (Time/Clock), the calendar it is compared with (Time/Calendar) and what the chip
--   holds (Time/Chip).
-- - Traps: `syscall_handler_impl` and `int_timer_impl` (Traps/Syscall), the exceptions (Traps/Error), the
--   debugger (Traps/Debug).
-- - Emulator: registers by name (Emulator/Reg), operands (Emulator/Operand) and the functions on them, which
--   the source has twice, with names in _IR for the interrupt frame (Emulator/Frame) and in _TR for the
--   registers of a task (Emulator/Saved), and the instructions, which a macro makes over either set
--   (Emulator/Instr). What a write by name leaves is in Emulator/Partial and Emulator/Written, a push with a
--   pop in Emulator/Stack, and the two copies side by side in Emulator/Same and Emulator/Simulation.
-- - System: the state that every handler keeps (System/Valid, System/Calls), the events that reach the
--   kernel (System/Events) and runs of them (System/Safety), `kernel_start` (System/Boot) and what it
--   leaves (System/Start, System/Vectors, System/Stacks), and an entry as a whole, on the stack of the
--   interrupted task (System/Interrupt, System/Resume), also while it lets other interrupts in
--   (System/Async, System/Nested).
-- - Programs: the stubs of include/unistd.h (Programs/Calls) and, of kernel/test.c, `crypt`
--   (Programs/Crypt, Programs/Cipher), `login` (Programs/Login, Programs/Owner, Programs/Account) and the
--   loop of `test_init` (Programs/Init, Programs/Respawn), the comparison of the command `enc`
--   (Programs/Enc, Programs/Strings, Programs/Password), the lines of the shell
--   (Programs/Command, Programs/Named), its commands (Programs/Shell), its loop and the tasks `test_a`,
--   `test_b` and `test_c` (Programs/Session). What the shell leaves is in Programs/Valid,
--   Programs/Invariant, Programs/Kept, Programs/Parts, Programs/Ladder, Programs/Restored and
--   Programs/Ended, and how many lines it reads in Programs/Turns and Programs/Fuel.
-- - Tests: a small machine (Tests/World) on which the theorems are applied.
--
-- State is passed explicitly: `Kernel` holds the globals, a C array is a function of its index, and a
-- `word_t` is a number whose wrap-around is written out. `printf` (kernel/thirdparty/printf.c, the copy of
-- another project) is a parameter: it is given the tty of the current task, the format, the arguments and
-- the consoles, and gives the consoles.
--
-- Fuel: `__flush_signals` runs for as many rounds as signals wait, since each round takes one; the search of
-- `sched_next_task` has the 256 rounds of the source. `tty_read` and the wait for the clock take what the
-- hardware gives, round by round, as a list, and have not returned if it ends; the debugger's loop has fuel
-- for its lines, and `login` a list of the inputs of its reads. The shell takes a list of turns, one for
-- each line that it or a shell inside it reads, and fuel for as many.
--
-- Each handler and each call of a program is one step. For a handler that keeps interrupts off that is so; for
-- tty_write, tty_read, the debugger and what a task prints it is the run in which no interrupt changes the
-- kernel's variables in between, but for the keys that tty_read waits for. The byte memory is apart from the
-- variables of the kernel and the screen, while tty_read, uname and time store wherever their caller says:
-- what they do is modelled for an address in the caller's own memory.
--
-- Not modelled: what other tasks and keys do while a console call lets interrupts in, interrupts before the
-- first system call, memory protection (there is none, and that a task overwrites the kernel is left out), a
-- tty that can be read but not written (the kernel sets both functions of a tty together), the vector 0,
-- whose entry does not end. The shell that the debugger has left with other registers, or that an
-- invalid opcode has stopped, is not followed further. Of the events of System/Events, a store to memory
-- leaves the screen alone; the command `strcpy` of the shell writes the screen, so it is none of them. The
-- stack of an interrupt is modelled by its words, apart from the byte memory. The addresses of handlers,
-- tables and programs are the linker's, and those of the locals of the programs the compiler's, so they are
-- parameters.
pub mod Prelude
pub mod Machine
pub mod Console
pub mod Sched
pub mod Time
pub mod Traps
pub mod System
pub mod Emulator
pub mod Programs
pub mod Tests
