-- ===== src/Emulator.antt =====
-- kernel/i386_emulator.c and include/klyx/i386_emulator.h: registers by name, operands and the five
-- instructions, once over the interrupt frame and once over the registers of a task.
pub mod Reg
pub mod Partial
pub mod Written
pub mod Operand
pub mod Frame
pub mod Saved
pub mod Instr
pub mod Blocks
pub mod Same
pub mod Simulation
pub mod Stack
