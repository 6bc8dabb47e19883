-- ===== src/Programs/Command.antt =====
-- The command lines of `shell` in kernel/test.c.
use klyx.Prelude.{ℕ, List, [], ◌∷◌, String, ◌==◌, if◌then◌else◌}
use klyx.Machine.Memory.{Memory}
use klyx.Programs.Login.{names}

-- The branches of the ladder that run to its end, by the line that they are for.
pub data Branch : Type 0 where
  empty help ud kill stop cont show_uid show_gid show_pid show_uname fib show_time : Branch
  enc_passwords strcpy_screen kdbg unknown : Branch

-- What a line asks for: `exit` leaves the loop, and `su` runs a shell in the shell.
pub data ShellCommand : Type 0 where
  exit su : ShellCommand
  branch : Branch → ShellCommand

-- The ladder of tests on the line in `buf`.
unfoldable pub parse_shell : Memory → (buf : ℕ) → ShellCommand
parse_shell m buf =
    if m buf == 0
    then branch empty
    else if names m buf (b'h' ∷ b'e' ∷ b'l' ∷ b'p' ∷ [])
    then branch help
    else if names m buf (b'u' ∷ b'd' ∷ [])
    then branch ud
    else if names m buf (b'e' ∷ b'x' ∷ b'i' ∷ b't' ∷ [])
    then exit
    else if names m buf (b'k' ∷ b'i' ∷ b'l' ∷ b'l' ∷ [])
    then branch kill
    else if names m buf (b's' ∷ b't' ∷ b'o' ∷ b'p' ∷ [])
    then branch stop
    else if names m buf (b'c' ∷ b'o' ∷ b'n' ∷ b't' ∷ [])
    then branch cont
    else if names m buf (b'u' ∷ b'i' ∷ b'd' ∷ [])
    then branch show_uid
    else if names m buf (b'g' ∷ b'i' ∷ b'd' ∷ [])
    then branch show_gid
    else if names m buf (b'p' ∷ b'i' ∷ b'd' ∷ [])
    then branch show_pid
    else if names m buf (b'u' ∷ b'n' ∷ b'a' ∷ b'm' ∷ b'e' ∷ [])
    then branch show_uname
    else if names m buf (b'f' ∷ b'i' ∷ b'b' ∷ [])
    then branch fib
    else if names m buf (b't' ∷ b'i' ∷ b'm' ∷ b'e' ∷ [])
    then branch show_time
    else if names m buf (b'e' ∷ b'n' ∷ b'c' ∷ [])
    then branch enc_passwords
    else if names m buf (b's' ∷ b't' ∷ b'r' ∷ b'c' ∷ b'p' ∷ b'y' ∷ [])
    then branch strcpy_screen
    else if names m buf (b'k' ∷ b'd' ∷ b'b' ∷ b'g' ∷ [])
    then branch kdbg
    else if names m buf (b's' ∷ b'u' ∷ [])
    then su
    else branch unknown

-- The text of `help`.
abbrev pub shell_help : String
shell_help =
    "List of commands:\n\thelp ud exit uname time\n\tfib enc strcpy kdbg\n\tkill stop cont pid\n\tuid gid su\nKernel info:\n\tF1-F4 - switch to TTY\n\tSource code: https://github.com/Kolya142/klyx\n\tLicense: GNU GPL2.0\n"

-- The bytes that `strcpy` puts at 0xB8000.
abbrev pub screen_text : List ℕ
screen_text =
    b'Y' ∷ b' ' ∷ b'o' ∷ b' ' ∷ b'u' ∷ b' ' ∷ b' ' ∷ b' ' ∷ b'c' ∷ b' ' ∷ b'a' ∷ b' ' ∷ b'n' ∷ b' '
    ∷ b' ' ∷ b' ' ∷ b'p' ∷ b' ' ∷ b'r' ∷ b' ' ∷ b'i' ∷ b' ' ∷ b'n' ∷ b' ' ∷ b't' ∷ b' ' ∷ b' '
    ∷ b' ' ∷ b't' ∷ b' ' ∷ b'e' ∷ b' ' ∷ b'x' ∷ b' ' ∷ b't' ∷ b' ' ∷ b' ' ∷ b' ' ∷ b'u' ∷ b' '
    ∷ b's' ∷ b' ' ∷ b'i' ∷ b' ' ∷ b'n' ∷ b' ' ∷ b'g' ∷ b' ' ∷ b' ' ∷ b' ' ∷ b's' ∷ b' ' ∷ b't'
    ∷ b' ' ∷ b'r' ∷ b' ' ∷ b'c' ∷ b' ' ∷ b'p' ∷ b' ' ∷ b'y' ∷ b' ' ∷ b'!' ∷ b' ' ∷ []
