-- ===== src/Tests/Shell.antt =====
-- A session as eva: the shell takes root by `su`, and both shells end by `exit`.
use klyx.Prelude.{
  zero, suc, get_or, ◌≤◌, ℕ, ◌+◌, ◌≡◌, ◌≢◌, Bool, true, false, List, [], ◌∷◌, refl, arith,
}
use klyx.Machine.Regs.{IntRegs}
use klyx.Programs.Named.{named, parse_shell-named}
use klyx.Machine.Memory.{Memory, memset, strcmp}
use klyx.Console.Keyboard.{switch_tty, int_keyboard, int_keyboards}
use klyx.Console.Keys.{scan_code_table_default, scan_code_table_special}
use klyx.Console.Input.{
  pop_from, pop_scancode, push_to, push_scancode, scan_code_char, con_read, con_handle_input,
}
use klyx.Console.Output.{con_putstr, put_chars, wrap_screen, put_char, is_control, next_cursor}
use klyx.Console.Tty.{
  tty_write, write_by, con_putchar, echo, put_key, read_round, read_loop, tty_read,
}
use klyx.Traps.Syscall.{finish_read, sys_tty_read, sys_setuid, sys_setgid, syscall_handler}
use klyx.Programs.Calls.{syscall_0, syscall_1, syscall_2}
use klyx.Programs.Login.{become, login_loop}
use klyx.Programs.Command.{kill, strcpy_screen, parse_shell}
use klyx.Programs.Valid.{EndValid}
use klyx.Programs.Invariant.{run_command-EndValid}
use klyx.System.Valid.{IsValid, Prints, puts}
use klyx.Programs.Shell.{ask, print_as, set_owner, restore}
use klyx.Programs.Session.{run_line, run_command, end_line}
use klyx.Machine.Outcome.{returned, panicked, halted, After}
use klyx.Console.Keyboard.{Scan}
use klyx.Sched.Task.{Task, Kernel, active, no_task, is_dead}
use klyx.Sched.Flush.{Result}
use klyx.Traps.Syscall.{Env, self}
use klyx.Programs.Login.{login}
use klyx.Programs.Owner.{Account}
use klyx.Programs.Shell.{Places, Turn, Shell, ShellEnd, left, astray}
use klyx.Programs.Session.{shell, test_a}
use klyx.Programs.Kept.{Kept}
use klyx.Programs.Restored.{shell-Kept}
use klyx.Sched.Queue.{IsQueue}
use klyx.Programs.Ended.{test_a-ends}
use klyx.Programs.Fuel.{shell-fuel}
use klyx.Tests.World.{print_mark, no_env, world, call, returned_or, returned_or-is_returned}

is_kill : kill ≢ strcpy_screen
is_kill e = cc

-- A key goes down and up again before a round.
abbrev tap : ℕ → List Scan
tap code = record { status = 1; code = code } ∷ (record { status = 1; code = code + 128 } ∷ [])

abbrev keys : List (List Scan) → Env
keys rounds = record no_env { rounds = rounds }

-- "eva", "su" and "exit", each with Enter.
abbrev types_eva : Env
types_eva = keys (tap 18 ∷ (tap 47 ∷ (tap 30 ∷ (tap 28 ∷ []))))

abbrev types_su : Env
types_su = keys (tap 31 ∷ (tap 22 ∷ (tap 28 ∷ [])))

abbrev types_exit : Env
types_exit = keys (tap 18 ∷ (tap 45 ∷ (tap 23 ∷ (tap 20 ∷ (tap 28 ∷ [])))))

abbrev turn : Env → Turn
turn line = record {
  line = line;
  password = no_env;
  again = no_env;
  clock = no_env;
  debug_lines = 0;
  debug_rounds = [];
}

abbrev places : Places
places = record {
  buf = λ depth. 0x3FFFF000 + depth;
  osname = λ depth. 0x3FFFE000;
  result = λ depth. 0x3FFFD000;
  encp = 0x20000;
  pass_saver = b'K' ∷ [];
}

-- Every slot has a live task of root; slot 1 runs.
abbrev root_task : Task
root_task = record no_task { status = active }

abbrev start : Shell
start = record {
  kernel = record (world 1) { tasks = λ _. root_task };
  encp = λ _. 0;
  turns = turn types_su ∷ (turn types_exit ∷ (turn types_exit ∷ []));
}

abbrev is_left : Result ShellEnd → Bool
is_left (returned (left s)) = true
is_left (returned (astray r k)) = false
is_left (panicked msg c) = false
is_left (halted c) = false

abbrev shell_or : Shell → Result ShellEnd → Shell
shell_or d (returned (left s)) = s
shell_or d (returned (astray r k)) = d
shell_or d (panicked msg c) = d
shell_or d (halted c) = d

shell_or-is_left :
    (d : Shell) (o : Result ShellEnd) → is_left o ≡ true → o ≡ returned (left (shell_or d o))
shell_or-is_left d (returned (left s)) h = refl
shell_or-is_left d (returned (astray r k)) h = cc
shell_or-is_left d (panicked msg c) h = cc
shell_or-is_left d (halted c) h = cc

-- The kernel behind the login.
abbrev logged : Kernel
logged =
    returned_or start.kernel
      (login print_mark no_env (call 0 0 0) 0x3FFFF800 (types_eva ∷ []) start.kernel)

-- The shell behind `exit`.
abbrev ended : Shell
ended = shell_or start (shell print_mark (call 0 0 0) places 3 0 (record start { kernel = logged }))

logs_in :
    login print_mark no_env (call 0 0 0) 0x3FFFF800 (types_eva ∷ []) start.kernel ≡ returned logged
unfolding login login_loop become syscall_0 syscall_1 syscall_2 syscall_handler sys_setuid
    sys_setgid sys_tty_read finish_read memset strcmp tty_read read_loop read_round put_key echo
    write_by int_keyboards int_keyboard con_handle_input con_read pop_scancode push_scancode push_to
    pop_from scan_code_char scan_code_table_default scan_code_table_special switch_tty tty_write
    con_putchar con_putstr put_chars wrap_screen put_char is_control next_cursor
logs_in =
    returned_or-is_returned start.kernel
      (login print_mark no_env (call 0 0 0) 0x3FFFF800 (types_eva ∷ []) start.kernel) refl

ends :
    shell print_mark (call 0 0 0) places 3 0 (record start { kernel = logged })
    ≡ returned (left ended)
unfolding shell run_line run_command ask print_as end_line set_owner restore parse_shell login
    login_loop become syscall_0 syscall_1 syscall_2 syscall_handler sys_setuid sys_setgid
    sys_tty_read finish_read memset strcmp tty_read read_loop read_round put_key echo write_by
    int_keyboards int_keyboard con_handle_input con_read pop_scancode push_scancode push_to pop_from
    scan_code_char scan_code_table_default scan_code_table_special switch_tty tty_write con_putchar
    con_putstr put_chars wrap_screen put_char is_control next_cursor
ends =
    shell_or-is_left start
      (shell print_mark (call 0 0 0) places 3 0 (record start { kernel = logged })) refl

root_task-IsQueue : IsQueue root_task
root_task-IsQueue = omega arith

shell-Kept_example : Kept logged ended.kernel
shell-Kept_example =
    shell-Kept print_mark (call 0 0 0) places 3 0 (record start { kernel = logged }) ends

test_a-ends_example :
    (id : ℕ) × Account id
    × ((self ended.kernel).uid ≡ id)
    × ((self ended.kernel).gid ≡ 0)
    × (r : IntRegs × Kernel) × (test_a print_mark
          (call 0 0 0)
          places
          3
          0x3FFFF800
          no_env
          (types_eva ∷ [])
          start
        ≡ returned r)
    × (is_dead (r.1.tasks 1).status ≡ true)
    × (r.1.current_task ≢ 1)
test_a-ends_example =
    test_a-ends print_mark (call 0 0 0) places 3 0x3FFFF800 no_env (types_eva ∷ []) start
      (λ j. root_task-IsQueue) refl refl refl (omega arith) (λ z. omega arith) logs_in ends

shell-fuel_example :
    shell print_mark (call 0 0 0) places 3 0 start
    ≡ shell print_mark (call 0 0 0) places 100 0 start
shell-fuel_example =
    shell-fuel print_mark (call 0 0 0) places 3 100 0 start (omega arith) (omega arith)

-- "su", and what an earlier line has left behind it.
abbrev su_line : Memory
su_line zero = b's'
su_line (suc zero) = b'u'
su_line (suc (suc zero)) = 0
su_line (suc (suc (suc i))) = b'x'

su_line-stored : (j : ℕ) → j ≤ 2 → su_line (0 + j) ≡ get_or (b's' ∷ b'u' ∷ []) j 0
su_line-stored zero le = refl
su_line-stored (suc zero) le = refl
su_line-stored (suc (suc zero)) le = refl
su_line-stored (suc (suc (suc j))) le = absurd (omega arith)

parse_shell-named_example : parse_shell su_line 0 ≡ named (b's' ∷ b'u' ∷ [])
parse_shell-named_example =
    parse_shell-named su_line 0 (b's' ∷ b'u' ∷ []) (omega arith, (omega arith, tt)) su_line-stored

print_mark-Prints : Prints print_mark
unfolding puts
print_mark-Prints tty format args c = (b'*' ∷ [], refl)

start-IsValid : IsValid start.kernel
start-IsValid = record {
  queues = λ j. root_task-IsQueue;
  current = omega arith;
  init = refl;
  console = record {
    rings = λ j. record { fits = omega arith; read_in = omega arith; write_at = refl };
    cursors = λ j lt. omega arith;
    display = omega arith;
    shown = λ i lt. refl;
  };
}

run_command-EndValid_example :
    After EndValid (run_command print_mark (call 0 0 0) places kill 0 (turn no_env) start)
run_command-EndValid_example =
    run_command-EndValid print_mark print_mark-Prints (call 0 0 0) places kill 0 (turn no_env) start
      is_kill start-IsValid
