-- ===== src/Programs/Shell.antt =====
-- `shell` of kernel/test.c. What it finds outside, line by line, is a list of turns; a shell that outlives
-- it has not returned. That other tasks run in between is not modelled.
use klyx.Prelude.{
  ℕ, zero, suc, ◌+◌, ◌-◌, ◌*◌, ◌/◌, Bool, true, false, ◌&&◌, List, [], ◌∷◌, String, none, some,
  update, ◌==◌, ltb, if◌then◌else◌,
}
use klyx.Machine.Regs.{IntRegs}
use klyx.Machine.Memory.{Memory, memset, strcpy, strlen, load32}
use klyx.Machine.Outcome.{returned, ◌>>=◌}
use klyx.Console.Keyboard.{Scan}
use klyx.Sched.Signal.{sigill}
use klyx.Sched.Task.{Kernel}
use klyx.Sched.Flush.{Arg, word, text, pointed, Printf, Result}
use klyx.Sched.Switch.{set_task}
use klyx.Traps.Syscall.{Env, self, utsname_name_cap}
use klyx.Traps.Debug.{string_at}
use klyx.Traps.Error.{error_entry, run_entry}
use klyx.System.Events.{int_breakpoint}
use klyx.Programs.Calls.{
  scn_tty_read, scn_uname, scn_time, scn_kill, syscall_0, syscall_1, syscall_2,
}
use klyx.Programs.Crypt.{crypt}
use klyx.Programs.Enc.{encp_cap, first_copy, is_same}

-- The size of `buf`.
abbrev pub shell_cap : ℕ
shell_cap = 512

-- Where the compiler and the linker put the variables: the locals by the depth of the call, the static
-- array `encp`, and the text of include/pass_saver.inc.
pub record Places : Type 0 where
  pub buf : ℕ → ℕ
  pub osname : ℕ → ℕ
  pub result : ℕ → ℕ
  pub encp : ℕ
  pub pass_saver : List ℕ

-- What one line of input finds: the keys of the line and of the two passwords, the clock, and the lines and
-- keys of the debugger.
pub record Turn : Type 0 where
  pub line : Env
  pub password : Env
  pub again : Env
  pub clock : Env
  pub debug_lines : ℕ
  pub debug_rounds : List (List Scan)

-- The kernel, the bytes of `encp`, and the turns to come.
pub record Shell : Type 0 where
  pub kernel : Kernel
  pub encp : Memory
  pub turns : List Turn

-- A shell has returned, or the processor runs elsewhere: in the task that an exception has switched to, or
-- where the debugger has put it.
pub data ShellEnd : Type 0 where
  left : Shell → ShellEnd
  astray : IntRegs → Kernel → ShellEnd

-- `tasks[current_task].uid = uid; tasks[current_task].gid = gid;`
unfoldable pub set_owner : (uid gid : ℕ) → Kernel → Kernel
set_owner uid gid k = set_task k.current_task (record (self k) { uid = uid; gid = gid }) k

-- The end of `su`.
unfoldable pub restore : (old_uid old_gid : ℕ) → ShellEnd → ShellEnd
restore old_uid old_gid (left s) = left (record s { kernel = set_owner old_uid old_gid s.kernel })
restore old_uid old_gid (astray regs k) = astray regs k

-- Bytes over the cells of a screen: the low byte of a cell, then the high one.
unfoldable pub put_bytes : (ℕ → ℕ) → (cell : ℕ) → List ℕ → ℕ → ℕ
put_bytes screen cell [] = screen
put_bytes screen cell (ch ∷ []) = update screen cell (screen cell / 256 * 256 + ch)
put_bytes screen cell (ch ∷ (attr ∷ s)) =
    put_bytes (update screen cell (ch + attr * 256)) (cell + 1) s

-- Whether the registers behind an exception are those before it.
abbrev pub same_regs : IntRegs → IntRegs → Bool
same_regs r q =
    r.gs == q.gs
    && r.fs == q.fs
    && r.es == q.es
    && r.ss == q.ss
    && r.ds == q.ds
    && r.edi == q.edi
    && r.esi == q.esi
    && r.ebp == q.ebp
    && r.esp == q.esp
    && r.ebx == q.ebx
    && r.edx == q.edx
    && r.ecx == q.ecx
    && r.eax == q.eax
    && r.eip == q.eip
    && r.cs == q.cs
    && r.eflags == q.eflags

-- `regs` are the registers of the task at the calls.
module _ (printf : Printf) (regs : IntRegs) (places : Places) where
  -- A `printf` of the task.
  unfoldable pub print_as : String → List Arg → Kernel → Kernel
  print_as format args k = record k { console = printf (self k).tty format args k.console }

  -- `memset(buf, 0, 512); printf(prompt); tty_read(buf, 511);`
  unfoldable pub ask : String → (depth : ℕ) → Env → Kernel → Result Kernel
  ask prompt depth input k =
      syscall_2 printf input regs scn_tty_read (places.buf depth) (shell_cap - 1)
        (print_as prompt [] (record k { memory = memset k.memory (places.buf depth) 0 shell_cap }))
      >>= λ r. returned r.1

  -- `kill(3, sig); printf("check tty2\n");`
  unfoldable pub signal_tty2 : Env → (sig : ℕ) → Kernel → Result Kernel
  signal_tty2 env sig k =
      syscall_2 printf env regs scn_kill 3 sig k >>= λ r. returned (print_as "check tty2\n" [] r.1)

  -- What a call of no arguments gives, printed.
  unfoldable pub print_call : Env → (n : ℕ) → String → Kernel → Result Kernel
  print_call env n format k =
      syscall_0 printf env regs n k >>= λ r. returned (print_as format (word r.0 ∷ []) r.1)

  -- `struct utsname osname; uname(&osname);` and its version, which is the fourth array.
  unfoldable pub print_uname : (depth : ℕ) → Env → Kernel → Result Kernel
  print_uname depth env k = syscall_1 printf env regs scn_uname (places.osname depth) k >>= λ r.
      returned (
        print_as "Kernel version: %s\n"
          (pointed r.1.memory (places.osname depth + 3 * utsname_name_cap) ∷ []) r.1)

  -- `time(NULL)`, which reads its `__result`.
  unfoldable pub print_time : (depth : ℕ) → Env → Kernel → Result Kernel
  print_time depth env k = syscall_1 printf env regs scn_time (places.result depth) k >>= λ r.
      returned (print_as "%d\n" (word (load32 r.1.memory (places.result depth)) ∷ []) r.1)

  -- The loop of `fib`, with fuel.
  unfoldable pub fib_loop : (fuel a b : ℕ) → Kernel → Kernel
  fib_loop zero a b k = k
  fib_loop (suc fuel) a b k = elim (ltb a 100) [
    | true ↦ fib_loop fuel (a + b) a (print_as "%d\n" (word a ∷ []) k)
    | false ↦ k
  ]

  -- The line in `buf`.
  abbrev pub line_at : (depth : ℕ) → Kernel → List ℕ
  line_at depth k = string_at shell_cap k.memory (places.buf depth)

  -- `enc` from its last `crypt` on, which has given `cr`.
  unfoldable pub enc_verdict : (again cr : List ℕ) → Shell → Shell
  enc_verdict again cr s =
      let encp = strcpy s.encp 0 cr in
      let k1 = print_as "crypt() work. please wait...\n" [] s.kernel in
      let k2 = print_as "%d.\n" (word (strlen again) ∷ []) k1 in
      let verdict = if is_same again encp then "" else "not " in
      record s {
        kernel = print_as "Passwords are %sthe same.\n" (text verdict ∷ []) k2;
        encp = encp;
      }

  -- `enc` behind the second line.
  unfoldable pub enc_check : (depth : ℕ) → Shell → Shell
  enc_check depth s =
      if s.kernel.memory (places.buf depth) == 0
      then s
      else elim (crypt (some (line_at depth s.kernel)) (some (string_at encp_cap s.encp 0))) [
        | none ↦ s
        | some cr ↦ enc_verdict (line_at depth s.kernel) cr s
      ]

  -- `enc` behind its first `crypt`, which has given `cr`.
  unfoldable pub enc_repeat : (depth : ℕ) → Env → (cr : List ℕ) → Shell → Result Shell
  enc_repeat depth input cr s =
      let encp = first_copy cr (line_at depth s.kernel) s.encp in
      ask "Enter the same password: " depth input (print_as "%p\n" (word places.encp ∷ []) s.kernel)
      >>= λ k. returned (enc_check depth (record s { kernel = k; encp = encp }))

  -- `enc` behind the first line.
  unfoldable pub enc_begin : (depth : ℕ) → Env → Shell → Result Shell
  enc_begin depth input s =
      if s.kernel.memory (places.buf depth) == 0
      then returned s
      else let working = record s {
        kernel = print_as "crypt() work. please wait...\n" [] s.kernel;
      } in
        elim (crypt (some places.pass_saver) (some (line_at depth s.kernel))) [
          | none ↦ returned working
          | some cr ↦ enc_repeat depth input cr working
        ]

  unfoldable pub run_enc : (depth : ℕ) → Turn → Shell → Result Shell
  run_enc depth turn s = ask "Enter a password: " depth turn.password s.kernel >>= λ k.
      enc_begin depth turn.again (record s { kernel = k })

  -- `asm("ud2")`: the exception switches to another task.
  unfoldable pub raise_ud : Kernel → Result ShellEnd
  raise_ud k = run_entry printf (error_entry "invalid opcode" sigill) regs k >>= λ r.
      returned (astray r.0 r.1)

  -- `INT3`.
  unfoldable pub raise_int3 : Turn → Shell → Result ShellEnd
  raise_int3 turn s =
      int_breakpoint printf turn.debug_lines turn.debug_rounds regs s.kernel >>= λ r.
      returned (if same_regs r.0 regs then left (record s { kernel = r.1 }) else astray r.0 r.1)
