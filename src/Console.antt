-- ===== src/Console.antt =====
-- kernel/console.c and kernel/tty.c: the four text consoles, their keyboard input and the table of
-- ttys. The components below define the operations; their children prove what they do.
pub mod Keys
pub mod State
pub mod Input
pub mod Ring
pub mod Output
pub mod Scroll
pub mod Screen
pub mod Keyboard
pub mod Tty
pub mod Read
pub mod Steady
pub mod Enter
pub mod Sound
pub mod Invariant
