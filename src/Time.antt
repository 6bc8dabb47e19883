-- ===== src/Time.antt =====
-- kernel/time.c: the clock chip and `mktime`.
pub mod Clock
pub mod Calendar
pub mod Chip
