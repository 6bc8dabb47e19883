-- ===== src/Machine.antt =====
-- The machine that the kernel runs on, as far as its code sees it: registers (include/klyx/hw.h,
-- include/klyx/sched.h), byte memory (include/string.h) and the way a handler ends.
pub mod Regs
pub mod Memory
pub mod Copies
pub mod Compare
pub mod Outcome
pub mod Tables
pub mod Start
pub mod Segments
pub mod Entry
pub mod Frames
