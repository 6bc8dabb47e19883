-- ===== src/Console/Input.antt =====
-- The keyboard half of kernel/console.c: the ring of scan codes of each console, the interrupt side
-- that fills it and the reader that drains it.
use klyx.Prelude.{ℕ, ◌+◌, ◌-◌, ◌%◌, Bool, true, false, update, ◌==◌, leb, if◌then◌else◌, get_or}
use klyx.Prelude.Int.{ℤ, pos, is_zero}
use klyx.Console.Keys.{eof, scan_code_table_default, scan_code_table_special}
use klyx.Console.State.{Console, InputBuf, eagain, input_buf_cap}

-- `--size`, the oldest scan code, and the read head one on.
unfoldable pub pop_from : InputBuf → ℕ × InputBuf
pop_from b = (
  b.scancode b.read_head,
  record b { size = b.size - 1; read_head = (b.read_head + 1) % input_buf_cap },
)

-- The scan code that is popped, or 0 and EAGAIN.
unfoldable pub pop_scancode : Console → ℕ × Console
pop_scancode c =
    let b = c.input c.current_tty_displ in
    let (sc, b') = pop_from b in
    if b.size == 0
    then (0, record c { errno = eagain })
    else (sc, record c { input = update c.input c.current_tty_displ b' })

unfoldable pub push_to : InputBuf → ℕ → InputBuf
push_to b ch = record b {
  size = b.size + 1;
  scancode = update b.scancode b.write_head ch;
  write_head = (b.write_head + 1) % input_buf_cap;
}

-- False if the ring is full; it holds one less than its capacity.
unfoldable pub push_scancode : Console → ℕ → Bool × Console
push_scancode c ch =
    let b = c.input c.current_tty_displ in
    if b.size == input_buf_cap - 1
    then (false, c)
    else (true, record c { input = update c.input c.current_tty_displ (push_to b ch) })

-- `scan_code_table_special[sc] ? scan_code_table_special[sc] : scan_code_table_default[sc]`.
unfoldable pub scan_code_char : ℕ → ℤ
scan_code_char sc =
    let special = get_or scan_code_table_special sc (pos 0) in
    if is_zero special then pos (get_or scan_code_table_default sc 0) else special

unfoldable pub con_read : Console → ℕ → ℤ × Console
con_read c tty =
    let (sc, c') = pop_scancode c in
    if tty == c.current_tty_displ then (scan_code_char sc, c') else (eof, c)

-- `status` is what port 0x64 gives and `code` what port 0x60 gives. `x & 1` and `x & 0x80` are the
-- bits of weight 1 and 128.
unfoldable pub con_handle_input : (status code : ℕ) → Console → ℤ × Console
con_handle_input status code c =
    let pressed = record c { keys_state = update c.keys_state code true } in
    let (_, pushed) = push_scancode pressed code in
    if status % 2 == 0
    then (pos 0, c)
    else if leb 128 code
    then (pos 0, record c { keys_state = update c.keys_state (code % 128) false })
    else if c.keys_state code
    then (pos 0, c)
    else if is_zero (get_or scan_code_table_special code (pos 0))
    then (scan_code_char code, pushed)
    else (scan_code_char code, pressed)
