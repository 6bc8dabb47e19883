-- ===== src/Console/Output.antt =====
-- The screen half of kernel/console.c, and `con_putstr_rev` of kernel/main.c.
use klyx.Prelude.{
  ℕ, ◌+◌, ◌-◌, ◌*◌, ◌/◌, ◌%◌, ◌^◌, Bool, true, ◌&&◌, List, [], ◌∷◌, length, update, ◌==◌, leb, ltb,
  if◌then◌else◌,
}
use klyx.Machine.Memory.{memcpy, memset}
use klyx.Console.State.{Console}

abbrev pub columns : ℕ
columns = 80

-- `80*25`, the cells of a screen.
abbrev pub cells : ℕ
cells = 2000

-- `80*24`, the first cell of the last row.
abbrev pub last_row : ℕ
last_row = 1920

-- `unsigned short`.
abbrev pub u16 : ℕ → ℕ
u16 n = n % 2 ^ 16

-- `int cur` is its bit pattern, so from 2 ^ 31 on it is negative and below `80*25`.
unfoldable pub con_setcur : Console → ℕ → ℕ → Console
con_setcur c tty cur =
    if leb cells cur && ltb cur (2 ^ 31)
    then c
    else record c { con_cursors = update c.con_cursors tty (u16 cur) }

unfoldable pub con_getcur : Console → ℕ → ℕ
con_getcur c tty = c.con_cursors tty

-- `0x0F00 | ch`, in 16 bits. `char` is signed, so a byte from 128 on sets the high byte.
unfoldable pub cell_of : ℕ → ℕ
cell_of ch = if ltb ch 128 then 0x0F00 + ch else 0xFF00 + ch

-- What a screen holds after `memcpy` of all rows but the first one row up, and `memset` of the last
-- one. A cell stands for the two bytes that the loops move.
unfoldable pub scroll : (ℕ → ℕ) → ℕ → ℕ
scroll screen = memset (memcpy screen 0 columns last_row) last_row 0 columns

-- Whether the `switch` has a case for `ch`; all other characters go to the screen.
unfoldable pub is_control : ℕ → Bool
is_control ch =
    if ch == b'\n'
    then true
    else if ch == b'\r'
    then true
    else if ch == b'\t'
    then true
    else if ch == 0x0b
    then true
    else ch == 0x08

-- The cursor after the `switch`.
unfoldable pub next_cursor : ℕ → ℕ → ℕ
next_cursor ch cur =
    if ch == b'\n'
    then u16 (cur + (columns - cur % columns))
    else if ch == b'\r'
    then cur - cur % columns
    else if ch == b'\t'
    then u16 (cur + (8 - cur % columns % 8))
    else if ch == 0x0b
    then u16 (cur + columns)
    else if ch == 0x08
    then u16 (cur + (2 ^ 16 - 1))
    else u16 (cur + 1)

-- The cell that `con_putstr` writes at a cursor, and the one that `con_putstr_rev` writes.
unfoldable pub straight : ℕ → ℕ
straight cur = cur

unfoldable pub mirrored : ℕ → ℕ
mirrored cur = 79 - cur % columns + cur / columns * columns

-- The two functions differ in the cell alone, which is the section's parameter.
module _ (place : ℕ → ℕ) where
  -- The `switch`: the cell, on the copy and on the screen if the console is displayed, and the cursor.
  unfoldable pub put_char : ℕ → Console → ℕ → Console
  put_char tty c ch =
      let cur = c.con_cursors tty in
      let moved = record c { con_cursors = update c.con_cursors tty (next_cursor ch cur) } in
      if is_control ch then moved else record moved {
        vga_copies = update c.vga_copies tty (update (c.vga_copies tty) (place cur) (cell_of ch));
        con_addr =
            if c.current_tty_displ == tty
            then update c.con_addr (place cur) (cell_of ch)
            else c.con_addr;
      }

  -- `if (con_cursors[tty] >= 80*25)`.
  unfoldable pub wrap_screen : ℕ → Console → Console
  wrap_screen tty c =
      if leb cells (c.con_cursors tty)
      then record c {
        con_cursors = update c.con_cursors tty last_row;
        vga_copies = update c.vga_copies tty (scroll (c.vga_copies tty));
        con_addr = if c.current_tty_displ == tty then scroll c.con_addr else c.con_addr;
      }
      else c

  -- The loop over the buffer.
  unfoldable pub put_chars : ℕ → Console → List ℕ → Console
  put_chars tty c [] = c
  put_chars tty c (ch ∷ buf) = put_chars tty (wrap_screen tty (put_char tty c ch)) buf

-- The number of characters, and the consoles after them.
unfoldable pub con_putstr : Console → ℕ → List ℕ → ℕ × Console
con_putstr c tty buf = (length buf, put_chars straight tty c buf)

unfoldable pub con_putstr_rev : Console → ℕ → List ℕ → ℕ × Console
con_putstr_rev c tty buf = (length buf, put_chars mirrored tty c buf)
