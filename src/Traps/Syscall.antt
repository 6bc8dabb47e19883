-- ===== src/Traps/Syscall.antt =====
-- `syscall_handler_impl` and `int_timer_impl` of kernel/traps.c. `INT_BECAME_ASYNC` lets interrupts in
-- while a console call runs: the keyboard's are the rounds of `tty_read`; that other tasks run in
-- between is not modelled.
use klyx.Prelude.{
  String, ◌*◌, ℕ, zero, suc, ◌+◌, ◌-◌, ◌%◌, ◌^◌, true, not, ◌&&◌, ◌||◌, List, [], ◌∷◌, ◌++◌, Option,
  none, some, ◌==◌, leb, if◌then◌else◌,
}
use klyx.Machine.Regs.{IntRegs}
use klyx.Machine.Memory.{Memory, strcpy, store32}
use klyx.Machine.Outcome.{returned, halted}
use klyx.Console.Keyboard.{Scan}
use klyx.Console.Tty.{tty_write, tty_read, ReadResult}
use klyx.Sched.Signal.{sigsys, sig_count}
use klyx.Sched.Task.{Task, Kernel, dead, is_dead, tasks_cap, sched_kill_task}
use klyx.Sched.Flush.{Printf, Result, word, dumped, panic}
use klyx.Sched.Switch.{set_task, sched_next_task, sched_start_tasking}
use klyx.Time.Clock.{time}

-- What a call finds around it: the registers of the clock and the values of its status register while
-- `time` waits, the keyboard interrupts while `tty_read` waits, and the bytes of `__DATE__ " " __TIME__`,
-- which the build puts in.
pub record Env : Type 0 where
  pub upd : List ℕ
  pub rtc : ℕ → ℕ
  pub rounds : List (List Scan)
  pub build : List ℕ

-- The bytes at `ptr`.
unfoldable pub read_bytes : Memory → (ptr count : ℕ) → List ℕ
read_bytes m ptr zero = []
read_bytes m ptr (suc n) = m ptr ∷ read_bytes m (ptr + 1) n

-- "klyx", "No node name.", "0.0.1" and "i386".
abbrev pub sysname : List ℕ
sysname = b'k' ∷ b'l' ∷ b'y' ∷ b'x' ∷ []

abbrev pub nodename : List ℕ
nodename =
    b'N' ∷ b'o' ∷ b' ' ∷ b'n' ∷ b'o' ∷ b'd' ∷ b'e' ∷ b' ' ∷ b'n' ∷ b'a' ∷ b'm' ∷ b'e' ∷ b'.' ∷ []

abbrev pub version_str : List ℕ
version_str = b'0' ∷ b'.' ∷ b'0' ∷ b'.' ∷ b'1' ∷ []

abbrev pub machine : List ℕ
machine = b'i' ∷ b'3' ∷ b'8' ∷ b'6' ∷ []

-- `struct utsname` is five arrays of this size.
abbrev pub utsname_name_cap : ℕ
utsname_name_cap = 128

-- `case 5`: the five strings.
unfoldable pub write_uname : List ℕ → (out : ℕ) → Memory → Memory
write_uname build out m =
    let m1 = strcpy m out sysname in
    let m2 = strcpy m1 (out + utsname_name_cap) nodename in
    let m3 = strcpy m2 (out + 2 * utsname_name_cap) version_str in
    let m4 = strcpy m3 (out + 3 * utsname_name_cap) (version_str ++ (b' ' ∷ build)) in
    strcpy m4 (out + 4 * utsname_name_cap) machine

-- -1 in a register.
abbrev pub minus_one : ℕ
minus_one = 2 ^ 32 - 1

-- `regs->eax = v; break;`
abbrev pub give : ℕ → IntRegs → Kernel → IntRegs × Kernel
give v regs k = (record regs { eax = v }, k)

-- The record of the current task.
abbrev pub self : Kernel → Task
self k = k.tasks k.current_task

-- `case 7`.
unfoldable pub sys_setuid : IntRegs → Kernel → IntRegs × Kernel
sys_setuid regs k =
    if (self k).uid == 0
    then give 0 regs (set_task k.current_task (record (self k) { uid = regs.ebx }) k)
    else give minus_one regs k

-- `case 8`.
unfoldable pub sys_setgid : IntRegs → Kernel → IntRegs × Kernel
sys_setgid regs k =
    if (self k).uid == 0
    then give 0 regs (set_task k.current_task (record (self k) { gid = regs.ebx }) k)
    else give minus_one regs k

-- `case 12`. `target` is `regs->ebx-1` in `size_t`. The last branch but one leaves `eax` as it is.
unfoldable pub sys_kill : IntRegs → Kernel → IntRegs × Kernel
sys_kill regs k =
    let target = (regs.ebx + (2 ^ 32 - 1)) % 2 ^ 32 in
    if leb tasks_cap target
    then give minus_one regs k
    else if is_dead (k.tasks target).status
    then give minus_one regs k
    else if leb sig_count regs.ecx
    then give minus_one regs k
    else if regs.ecx == 0
    then give 0 regs k
    else if (self k).uid == 0 || (self k).uid == (k.tasks target).uid
    then (regs, sched_kill_task target regs.ecx k)
    else give minus_one regs k

-- `case 2`, with no key and no other task in between.
unfoldable pub sys_tty_write : IntRegs → Kernel → IntRegs × Kernel
sys_tty_write regs k =
    let (n, c) = tty_write k.console (self k).tty (read_bytes k.memory regs.ebx regs.ecx) in
    give n regs (record k { console = c })

-- The bytes of a buffer that a call has filled, in memory.
abbrev pub put_buffer : Memory → (ptr count : ℕ) → (ℕ → ℕ) → Memory
put_buffer m ptr count buf a = if leb ptr a && leb (a + 1) (ptr + count) then buf (a - ptr) else m a

-- The end of `case 3`, for a buffer outside the kernel's variables, which the code does not test. A read that
-- does not end within the rounds has not returned.
unfoldable pub finish_read : IntRegs → Kernel → Option ReadResult → Result (IntRegs × Kernel)
finish_read regs k none = halted k.console
finish_read regs k (some r) = returned (
    give r.count regs
      (record k { console = r.console; memory = put_buffer k.memory regs.ebx regs.ecx r.buf }))

-- `case 3`.
unfoldable pub sys_tty_read : Env → IntRegs → Kernel → Result (IntRegs × Kernel)
sys_tty_read env regs k =
    finish_read regs k
      (tty_read k.console (self k).tty (λ i. k.memory (regs.ebx + i)) regs.ecx env.rounds)

-- The end of `case 6`, whose wait may not have ended. Nothing is stored through a null pointer, and
-- `eax` stays.
unfoldable pub finish_time : IntRegs → Kernel → Option ℕ → Result (IntRegs × Kernel)
finish_time regs k none = halted k.console
finish_time regs k (some t) =
    returned (regs, if regs.ebx == 0 then k else record k { memory = store32 k.memory regs.ebx t })

-- `case 6`.
unfoldable pub sys_time : Env → IntRegs → Kernel → Result (IntRegs × Kernel)
sys_time env regs k = finish_time regs k (time env.rtc env.upd)

-- The format of the dump of `default`.
abbrev pub unknown_format : String
unknown_format =
    "\n\n\tEAX: %016X\tEBX: %016X\n\tECX: %016X\tEDX: %016X\n\tESI: %016X\tEDI: %016X\n\tEIP: %016X\tESP: %016X\n\tEBP: %016X\n\tCS: %016X\tSS: %016X\n\tES: %016X\tDS: %016X\n\tFS: %016X\tGS: %016X\n"

module _ (printf : Printf) (env : Env) where
  -- `case 0`.
  unfoldable pub sys_setup : IntRegs → Kernel → Result (IntRegs × Kernel)
  sys_setup regs k =
      if k.is_tasking_avaliable
      then sched_next_task printf regs (sched_kill_task k.current_task sigsys k)
      else sched_start_tasking printf regs (record k { is_tasking_avaliable = true })

  -- `case 1`.
  unfoldable pub sys_exit : IntRegs → Kernel → Result (IntRegs × Kernel)
  sys_exit regs k =
      if k.current_task == 0
      then panic printf "Attempt to kill init." regs (self k).tty k.console
      else sched_next_task printf regs
          (set_task k.current_task (record (self k) { status = dead }) k)

  -- `default`.
  unfoldable pub sys_unknown : IntRegs → Kernel → Result (IntRegs × Kernel)
  sys_unknown regs k =
      let tty = (self k).tty in
      let c1 = printf tty "Syscall: %08X\n" (word regs.eax ∷ []) k.console in
      panic printf "Unknown syscall" regs tty (printf tty unknown_format (dumped regs) c1)

  unfoldable pub syscall_handler : IntRegs → Kernel → Result (IntRegs × Kernel)
  syscall_handler regs k =
      if regs.eax == 0
      then sys_setup regs k
      else if regs.eax == 1
      then sys_exit regs k
      else if regs.eax == 2
      then returned (sys_tty_write regs k)
      else if regs.eax == 3
      then sys_tty_read env regs k
      else if regs.eax == 4
      then sched_next_task printf regs k
      else if regs.eax == 5
      then returned
          (give 69420 regs (record k { memory = write_uname env.build regs.ebx k.memory }))
      else if regs.eax == 6
      then sys_time env regs k
      else if regs.eax == 7
      then returned (sys_setuid regs k)
      else if regs.eax == 8
      then returned (sys_setgid regs k)
      else if regs.eax == 9
      then returned (give (self k).uid regs k)
      else if regs.eax == 10
      then returned (give (self k).gid regs k)
      else if regs.eax == 11
      then returned (give (k.current_task + 1) regs k)
      else if regs.eax == 12
      then returned (sys_kill regs k)
      else sys_unknown regs k

  unfoldable pub int_timer : IntRegs → Kernel → Result (IntRegs × Kernel)
  int_timer regs k =
      if k.is_tasking_avaliable && not (self k).yield_only
      then sched_next_task printf regs k
      else returned (regs, k)
