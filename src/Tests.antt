-- ===== src/Tests.antt =====
-- Concrete runs: the kernels and tasks that the tests share, and the tests of each part.
mod World
mod Sched
mod Console
mod Machine
mod Traps
mod Time
mod System
mod Programs
mod Login
mod Shell
mod Resume
