-- ===== src/Tests/Console.antt =====
-- Keys and characters on a blank console.
use klyx.Prelude.{
  ◌-◌, ◌≡◌, refl, inl, true, false, List, [], ◌∷◌, ◌++◌, length, none, some, update, ◌==◌,
  if◌then◌else◌, arith,
}
use klyx.Console.State.{Console, con, input_buf_cap}
use klyx.Console.Keys.{scan_code_table_default, scan_code_table_special}
use klyx.Console.Input.{
  pop_from, pop_scancode, push_to, push_scancode, scan_code_char, con_read, con_handle_input,
}
use klyx.Console.Ring.{
  IsRing, waiting, displayed, Took, Popped, push_scancode-waiting, pop_scancode-waiting,
}
use klyx.Console.Output.{
  con_putstr, con_putstr_rev, put_chars, wrap_screen, put_char, is_control, next_cursor,
}
use klyx.Console.Screen.{IsOnScreen, Printed, con_putstr-Printed, con_putstr_rev-Printed}
use klyx.Console.Keyboard.{Scan, int_keyboard, int_keyboards, switch_tty}
use klyx.Console.Tty.{write_by, echo, put_key, read_round, read_loop, ReadResult, tty_read}
use klyx.Console.Enter.{HasEnter, still, tty_read-returns}
use klyx.Console.Read.{IsLine, tty_read-IsLine}
use klyx.Tests.World.{blank_console}

blank_IsRing : IsRing (displayed blank_console)
blank_IsRing = omega arith

push_scancode-waiting_example :
    ((push_scancode blank_console 30).0
      ≡ (if length (waiting (displayed blank_console)) == input_buf_cap - 1 then false else true))
    × (waiting (displayed (push_scancode blank_console 30).1) ≡ (
        if (push_scancode blank_console 30).0
        then waiting (displayed blank_console) ++ (30 ∷ [])
        else waiting (displayed blank_console)))
    × Took blank_console (push_scancode blank_console 30).1
push_scancode-waiting_example = push_scancode-waiting blank_console 30 blank_IsRing

one_key : IsRing (displayed (push_scancode blank_console 30).1)
one_key = (push_scancode-waiting blank_console 30 blank_IsRing).2.valid

pop_scancode-waiting_example :
    Popped
      (waiting (displayed (push_scancode blank_console 30).1))
      (push_scancode blank_console 30).1
      (pop_scancode (push_scancode blank_console 30).1)
pop_scancode-waiting_example = pop_scancode-waiting (push_scancode blank_console 30).1 one_key

con_putstr-Printed_example :
    IsOnScreen 2 (con_putstr blank_console 2 (b'a' ∷ b'\n' ∷ [])).1
    × Printed 2 blank_console (con_putstr blank_console 2 (b'a' ∷ b'\n' ∷ [])).1
con_putstr-Printed_example = con_putstr-Printed blank_console 2 (b'a' ∷ b'\n' ∷ []) (omega arith)

con_putstr_rev-Printed_example :
    IsOnScreen 0 (con_putstr_rev blank_console 0 (b'a' ∷ b'\n' ∷ [])).1
    × Printed 0 blank_console (con_putstr_rev blank_console 0 (b'a' ∷ b'\n' ∷ [])).1
con_putstr_rev-Printed_example =
    con_putstr_rev-Printed blank_console 0 (b'a' ∷ b'\n' ∷ []) (omega arith)

-- The keys A and Enter, one interrupt before each of two rounds.
abbrev keys : List (List Scan)
keys = (record { status = 1; code = 30 } ∷ []) ∷ (record { status = 1; code = 28 } ∷ []) ∷ []

abbrev nothing_read : ReadResult
nothing_read = record { count = 0; buf = λ _. 0; console = blank_console; rest = [] }

abbrev typed : ReadResult
typed = elim (tty_read blank_console 0 (λ _. 0) 8 keys) [ none ↦ nothing_read | some r ↦ r ]

abbrev letter : ReadResult
letter = record { count = 1; buf = update (λ _. 0) 0 b'a'; console = typed.console; rest = [] }

reads_letter : tty_read blank_console 0 (λ _. 0) 8 keys ≡ some letter
unfolding tty_read read_loop read_round put_key echo write_by int_keyboards int_keyboard
    con_handle_input con_read pop_scancode push_scancode push_to pop_from scan_code_char
    scan_code_table_default scan_code_table_special switch_tty con_putstr put_chars wrap_screen
    put_char is_control next_cursor
reads_letter = refl

tty_read-IsLine_example : IsLine 8 (λ _. 0) 1 (update (λ _. 0) 0 b'a')
tty_read-IsLine_example = tty_read-IsLine blank_console 0 (λ _. 0) 8 keys reads_letter

-- A console on which the key Enter waits.
abbrev entered : Console
entered = (push_scancode blank_console 28).1

entered-IsRing : IsRing (entered.input 0)
unfolding push_scancode push_to
entered-IsRing = omega arith

entered-HasEnter : HasEnter (waiting (entered.input 0))
unfolding push_scancode push_to scan_code_char scan_code_table_default scan_code_table_special
entered-HasEnter = inl refl

entered_here : entered.current_tty_displ ≡ 0
unfolding push_scancode
entered_here = refl

entered_device : (entered.ttys 0).read ≡ some con
unfolding push_scancode
entered_device = refl

tty_read-returns_example :
    (r : ReadResult) × (tty_read entered 0 (λ _. 0) 8 (still (entered.input 0).size) ≡ some r)
tty_read-returns_example =
    tty_read-returns entered 0 (λ _. 0) 8 (omega arith) entered_device entered_here entered-IsRing
      entered-HasEnter
