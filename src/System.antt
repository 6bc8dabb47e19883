-- ===== src/System.antt =====
-- The kernel as a whole: the state that every handler keeps, the events that reach the kernel, and its
-- start.
pub mod Valid
pub mod Calls
pub mod Events
pub mod Safety
pub mod Boot
pub mod Filled
pub mod Start
pub mod Vectors
pub mod Stacks
pub mod Interrupt
pub mod Resume
pub mod Async
pub mod Nested
