-- ===== src/Traps.antt =====
-- kernel/traps.c: the system calls, the timer, the traps of the processor and the debugger.
pub mod Syscall
pub mod Error
pub mod Debug
pub mod Lines
pub mod Owners
pub mod Kill
pub mod Faults
pub mod Exit
