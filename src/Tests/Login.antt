-- ===== src/Tests/Login.antt =====
-- A login as eva.
use klyx.Prelude.{ℕ, ◌-◌, ◌≡◌, Bool, true, false, ◌+◌, List, [], ◌∷◌, Option, none, some, refl}
use klyx.Machine.Memory.{memset, strcmp}
use klyx.Machine.Outcome.{returned}
use klyx.Console.Keyboard.{Scan, switch_tty, int_keyboard, int_keyboards}
use klyx.Console.Keys.{scan_code_table_default, scan_code_table_special}
use klyx.Console.Input.{
  pop_from, pop_scancode, push_to, push_scancode, scan_code_char, con_read, con_handle_input,
}
use klyx.Console.Output.{con_putstr, put_chars, wrap_screen, put_char, is_control, next_cursor}
use klyx.Console.Tty.{
  ReadResult, tty_write, write_by, con_putchar, echo, put_key, read_round, read_loop, tty_read,
}
use klyx.Sched.Task.{Task, Kernel, active, no_task}
use klyx.Traps.Syscall.{Env, put_buffer, finish_read, sys_tty_read, syscall_handler}
use klyx.Programs.Calls.{scn_tty_read, syscall_2}
use klyx.Programs.Login.{login_cap, login}
use klyx.Programs.Owner.{OwnedBy, at_prompt}
use klyx.Programs.Account.{account_named, login-returned}
use klyx.Tests.World.{print_mark, no_env, world, call}

abbrev key : ℕ → List Scan
key code = record { status = 1; code = code } ∷ []

-- The keys E, V, A and Enter, one interrupt before each of four rounds.
abbrev typing : Env
typing = record no_env { rounds = key 18 ∷ (key 47 ∷ (key 30 ∷ (key 28 ∷ []))) }

-- Where the buffer of the task is.
abbrev buf_at : ℕ
buf_at = 0x3FFFF000

-- A shell of root.
abbrev root_shell : Task
root_shell = record no_task { status = active }

abbrev cold : Kernel
cold = record (world 1) { tasks = λ _. root_shell }

-- The shell at the prompt.
abbrev ready : Kernel
ready = at_prompt print_mark no_env (call 0 0 0) buf_at cold

abbrev typed : Option ReadResult
typed = tty_read ready.console 0 (λ i. ready.memory (buf_at + i)) (login_cap - 1) typing.rounds

abbrev line_or : ReadResult → Option ReadResult → ReadResult
line_or d none = d
line_or d (some r) = r

abbrev is_some : Option ReadResult → Bool
is_some none = false
is_some (some r) = true

line_or-is_some :
    (d : ReadResult) (o : Option ReadResult) → is_some o ≡ true → o ≡ some (line_or d o)
line_or-is_some d none h = cc
line_or-is_some d (some r) h = refl

-- The line that is read.
abbrev line : ReadResult
line = line_or (record { count = 0; buf = λ _. 0; console = ready.console; rest = [] }) typed

types_line : typed ≡ some line
unfolding tty_read read_loop read_round put_key echo write_by int_keyboards int_keyboard
    con_handle_input con_read pop_scancode push_scancode push_to pop_from scan_code_char
    scan_code_table_default scan_code_table_special switch_tty tty_write con_putchar con_putstr
    put_chars wrap_screen put_char is_control next_cursor
types_line =
    line_or-is_some (record { count = 0; buf = λ _. 0; console = ready.console; rest = [] }) typed
      refl

-- The kernel behind the call.
abbrev after_read : ℕ × Kernel
after_read = (
  line.count,
  record ready {
    console = line.console;
    memory = put_buffer ready.memory buf_at (login_cap - 1) line.buf;
  },
)

reads_name :
    syscall_2 print_mark typing (call 0 0 0) scn_tty_read buf_at (login_cap - 1) ready
    ≡ returned after_read
unfolding syscall_2 syscall_handler sys_tty_read finish_read
reads_name = rw types_line refl

names_eva : account_named after_read.1.memory buf_at ≡ some 1000
unfolding memset strcmp tty_read read_loop read_round put_key echo write_by int_keyboards
    int_keyboard con_handle_input con_read pop_scancode push_scancode push_to pop_from
    scan_code_char scan_code_table_default scan_code_table_special switch_tty tty_write con_putchar
    con_putstr put_chars wrap_screen put_char is_control next_cursor
names_eva = refl

login-returned_example :
    (k' : Kernel) × (login print_mark no_env (call 0 0 0) buf_at (typing ∷ []) cold ≡ returned k')
    × OwnedBy 1000 cold k'
login-returned_example =
    login-returned print_mark no_env (call 0 0 0) buf_at typing [] cold refl refl reads_name
      names_eva
