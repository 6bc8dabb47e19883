-- ===== src/Console/Tty.antt =====
-- kernel/tty.c and `con_putchar` of kernel/console.c. The functions that a tty points to are those of
-- `Writer` and `Device`. `tty_read` waits for the keyboard: what the interrupts bring in before each
-- round of its loop is an argument, and the loop that outlives the list has not returned.
use klyx.Prelude.{
  ℕ, ◌+◌, ◌-◌, Bool, true, false, List, [], ◌∷◌, Option, none, some, update, ◌==◌, leb, ltb,
  if◌then◌else◌,
}
use klyx.Prelude.Int.{pos, negsuc}
use klyx.Console.State.{Console, Writer, Errno, eno, eagain, efault, enosys, con, ttys_cap}
use klyx.Console.Input.{con_read}
use klyx.Console.Output
use klyx.Console.Keyboard.{Scan, int_keyboards}

-- `ttys[td].write(td, buf, count)`, for the bytes of `buf`.
unfoldable pub write_by : Writer → Console → ℕ → List ℕ → ℕ × Console
write_by Writer.con_putstr c td buf = Output.con_putstr c td buf
write_by Writer.con_putstr_rev c td buf = Output.con_putstr_rev c td buf

-- An error of a call.
abbrev pub with_errno : Errno → Console → Console
with_errno e c = record c { errno = e }

unfoldable pub tty_write : Console → ℕ → List ℕ → ℕ × Console
tty_write c td buf = if leb ttys_cap td then (0, with_errno efault c) else elim (c.ttys td).write [
  | none ↦ (0, with_errno enosys c)
  | some w ↦ write_by w (with_errno eno c) td buf
]

-- `tty_write(use_current_tty ? current_tty_displ : tasks[current_task].tty, …)`, where `tty` is the tty
-- of the current task.
unfoldable pub con_putchar : ℕ → ℕ → Console → Console
con_putchar tty ch c =
    (tty_write c (if c.use_current_tty then c.current_tty_displ else tty) (ch ∷ [])).1

-- An echo. `tty_read` does not test the pointer: through a null one it would jump to address 0. The kernel
-- sets `read` and `write` of a tty together, so a tty that is read has one.
unfoldable pub echo : ℕ → List ℕ → Console → Console
echo td buf c = elim (c.ttys td).write [ none ↦ c | some w ↦ (write_by w c td buf).1 ]

-- The locals of the loop of `tty_read`, with the consoles.
pub record Line : Type 0 where
  pub text_cur : ℕ
  pub buf : ℕ → ℕ
  pub end_of_loop : Bool
  pub console : Console

-- The `switch` on a character that is not negative, so never TTY_CC_EOF.
unfoldable pub put_key : (td count ch : ℕ) → Line → Line
put_key td count ch l =
    if ch == b'\n'
    then record l { end_of_loop = true; console = echo td (ch ∷ []) l.console }
    else if ch == 0
    then l
    else if ch == 0x08
    then if l.text_cur == 0 then l else record l {
      text_cur = l.text_cur - 1;
      buf = update l.buf (l.text_cur - 1) 0;
      console = echo td (0x08 ∷ b' ' ∷ 0x08 ∷ []) l.console;
    }
    else if ltb l.text_cur count
    then record l {
      text_cur = l.text_cur + 1;
      buf = update l.buf l.text_cur ch;
      console = echo td (ch ∷ []) l.console;
    }
    else l

abbrev pub is_eagain : Errno → Bool
is_eagain eagain = true
is_eagain _ = false

-- One round: a read, the two tests that skip the `switch`, and the `switch`.
unfoldable pub read_round : (td count : ℕ) → Line → Line
read_round td count l =
    let (res, c) = con_read (with_errno eno l.console) td in
    let l' = record l { console = c } in
    if is_eagain c.errno then l' else elim res [ pos ch ↦ put_key td count ch l' | negsuc n ↦ l' ]

-- The loop over the rounds, and the interrupts that no round has seen when it ends.
unfoldable pub read_loop :
    (td count : ℕ) → List (List Scan) → Line → Option (Line × List (List Scan))
read_loop td count [] l = none
read_loop td count (scans ∷ rounds) l =
    let l1 = read_round td count (record l { console = int_keyboards scans l.console }) in
    elim l1.end_of_loop [ true ↦ some (l1, rounds) | false ↦ read_loop td count rounds l1 ]

-- What a call that has returned leaves: the number of bytes, the buffer, the consoles.
pub record ReadResult : Type 0 where
  pub count : ℕ
  pub buf : ℕ → ℕ
  pub console : Console
  pub rest : List (List Scan)

unfoldable pub tty_read :
    Console → (td : ℕ) → (ℕ → ℕ) → (count : ℕ) → List (List Scan) → Option ReadResult
tty_read c td buf count rounds =
    if leb ttys_cap td
    then some (record { count = 0; buf = buf; console = with_errno efault c; rest = rounds })
    else elim (c.ttys td).read [
      | none ↦ some (record { count = 0; buf = buf; console = with_errno enosys c; rest = rounds })
      | some con ↦
          elim (read_loop td count rounds
            (record { text_cur = 0; buf = buf; end_of_loop = false; console = c })) [
              | none ↦ none
              | some (l, rest) ↦
                  some
                    (record { count = l.text_cur; buf = l.buf; console = l.console; rest = rest })
            ]
    ]

-- `tty_getcur` and `tty_setcur` test the pointer `read`, and call another one.
unfoldable pub tty_getcur : Console → ℕ → ℕ × Console
tty_getcur c td = if leb ttys_cap td then (0, with_errno efault c) else elim (c.ttys td).read [
  | none ↦ (0, with_errno enosys c)
  | some con ↦ (Output.con_getcur c td, c)
]

unfoldable pub tty_setcur : Console → ℕ → ℕ → Console
tty_setcur c td cur = if leb ttys_cap td then with_errno efault c else elim (c.ttys td).read [
  | none ↦ with_errno enosys c
  | some con ↦ Output.con_setcur c td cur
]
