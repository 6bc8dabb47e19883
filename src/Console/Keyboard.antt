-- ===== src/Console/Keyboard.antt =====
-- `int_keyboard_impl` of kernel/traps.c: a key goes to the ring of the displayed console, and F1 to F4
-- choose the displayed console.
use klyx.Prelude.{ℕ, List, [], ◌∷◌, ltb, if◌then◌else◌}
use klyx.Prelude.Int.{ℤ, eq_int}
use klyx.Console.Keys.{f1, f2, f3, f4}
use klyx.Console.State.{Console}
use klyx.Console.Input.{con_handle_input}
use klyx.Console.Output.{cells}

-- `current_tty_displ = n; memcpy((void *)0xB8000, vga_copies[n], 80*25*2);`. Source and screen are
-- different arrays: after the loop the first `cells` cells of the screen are those of the copy.
unfoldable pub copy_cells : (from to : ℕ → ℕ) → ℕ → ℕ
copy_cells from to i = if ltb i cells then from i else to i

unfoldable pub show_tty : ℕ → Console → Console
show_tty n c = record c { current_tty_displ = n; con_addr = copy_cells (c.vga_copies n) c.con_addr }

-- The `switch` on the key.
unfoldable pub switch_tty : ℤ → Console → Console
switch_tty ch c =
    if eq_int ch f1
    then show_tty 0 c
    else if eq_int ch f2
    then show_tty 1 c
    else if eq_int ch f3
    then show_tty 2 c
    else if eq_int ch f4
    then show_tty 3 c
    else c

-- What the two ports of the keyboard controller give during one interrupt.
pub record Scan : Type 0 where
  pub status : ℕ
  pub code : ℕ

unfoldable pub int_keyboard : Scan → Console → Console
int_keyboard s c = let (ch, c') = con_handle_input s.status s.code c in switch_tty ch c'

-- Several interrupts, in order.
unfoldable pub int_keyboards : List Scan → Console → Console
int_keyboards [] c = c
int_keyboards (s ∷ ss) c = int_keyboards ss (int_keyboard s c)
