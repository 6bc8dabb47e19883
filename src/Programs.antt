-- ===== src/Programs.antt =====
-- The programs of kernel/test.c.
pub mod Crypt
pub mod Cipher
pub mod Calls
pub mod Login
pub mod Init
pub mod Owner
pub mod Respawn
pub mod Account
pub mod Enc
pub mod Strings
pub mod Password
pub mod Command
pub mod Named
pub mod Shell
pub mod Session
pub mod Valid
pub mod Invariant
pub mod Kept
pub mod Parts
pub mod Ladder
pub mod Restored
pub mod Ended
pub mod Turns
pub mod Fuel
