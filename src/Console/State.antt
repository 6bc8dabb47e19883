-- ===== src/Console/State.antt =====
-- The globals of kernel/console.c and kernel/tty.c, and `errno` of kernel/main.c, in one record. A C
-- array is a family over its indices.
use klyx.Prelude.{ℕ, Bool, Option}

-- The codes that the code stores into `errno` (include/errno.h).
pub data Errno : Type 0 where
  eno eagain efault enobufs enosys : Errno

-- One row of the four arrays `input_scancode_buf*`.
pub record InputBuf : Type 0 where
  pub scancode : ℕ → ℕ
  pub write_head : ℕ
  pub read_head : ℕ
  pub size : ℕ

-- The functions that a `write` pointer of a tty is ever set to.
pub data Writer : Type 0 where
  con_putstr con_putstr_rev : Writer

-- The functions that `read`, `getcur` and `setcur` are ever set to.
pub data Device : Type 0 where
  con : Device

-- `tty_t`, with `none` for a null pointer. `getck` and `getsc` are never set or called.
pub record Tty : Type 0 where
  pub write : Option Writer
  pub setcur : Option Device
  pub getcur : Option Device
  pub read : Option Device
  pub width : ℕ
  pub height : ℕ

pub record Console : Type 0 where
  pub errno : Errno
  pub ttys : ℕ → Tty
  pub use_current_tty : Bool
  pub current_tty_displ : ℕ
  pub keys_state : ℕ → Bool
  pub input : ℕ → InputBuf
  pub con_cursors : ℕ → ℕ
  pub con_addr : ℕ → ℕ
  pub vga_copies : ℕ → ℕ → ℕ

abbrev pub ttys_cap : ℕ
ttys_cap = 4

abbrev pub input_buf_cap : ℕ
input_buf_cap = 1024
