-- ===== src/Sched.antt =====
-- kernel/sched.c and include/klyx/sched.h: the task table, signals and the round-robin switch.
pub mod Signal
pub mod Task
pub mod Flush
pub mod Switch
pub mod Queue
pub mod Deliver
pub mod Delivery
pub mod Slots
pub mod Quiet
pub mod Robin
pub mod Killed
pub mod Next
pub mod Alive
pub mod Init
pub mod Mutex
pub mod Printed
