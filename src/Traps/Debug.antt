-- ===== src/Traps/Debug.antt =====
-- `__read_hex` and the debugger console of `x86_trap_breakpoint_impl` in kernel/traps.c.
use klyx.Prelude.{
  ℕ, zero, suc, ◌+◌, ◌-◌, ◌*◌, ◌%◌, ◌^◌, Bool, ◌&&◌, List, [], ◌∷◌, String, none, some, ◌==◌, leb,
  if◌then◌else◌,
}
use klyx.Prelude.Int.{is_zero}
use klyx.Machine.Regs.{IntRegs}
use klyx.Machine.Memory.{Memory, memcmp, strcmp, load32}
use klyx.Machine.Outcome.{returned, halted}
use klyx.Console.State.{Console}
use klyx.Console.Keyboard.{Scan}
use klyx.Console.Tty.{tty_read}
use klyx.Sched.Flush.{Printf, Result, word, dumped, dump_format}

-- `size_t`.
abbrev pub u32 : ℕ → ℕ
u32 n = n % 2 ^ 32

abbrev between : ℕ → ℕ → ℕ → Bool
between lo c hi = leb lo c && leb c hi

-- One character: the shift, then the digit if it is one.
unfoldable pub hex_digit : ℕ → ℕ → ℕ
hex_digit ptr c =
    let shifted = u32 (ptr * 2 ^ 4) in
    if between b'0' c b'9'
    then u32 (shifted + (c - b'0'))
    else if between b'A' c b'F'
    then u32 (shifted + (c - b'A' + 10))
    else if between b'a' c b'f'
    then u32 (shifted + (c - b'a' + 10))
    else shifted

-- The loop over the bytes of a string.
unfoldable pub read_hex : ℕ → List ℕ → ℕ
read_hex ptr [] = ptr
read_hex ptr (c ∷ s) = read_hex (hex_digit ptr c) s

-- The bytes from `i` on before the first zero, at most `n` of them.
unfoldable pub string_at : ℕ → (ℕ → ℕ) → ℕ → List ℕ
string_at zero buf i = []
string_at (suc n) buf i =
    let rest = string_at n buf (i + 1) in if buf i == 0 then [] else buf i ∷ rest

abbrev pub line_cap : ℕ
line_cap = 512

-- The number after a command, `__read_hex(&buf[at])`.
unfoldable pub argument : (ℕ → ℕ) → ℕ → ℕ
argument buf at = read_hex 0 (string_at (line_cap - at) buf at)

-- A literal of the source, as `memcmp` reads it.
abbrev pub literal : List ℕ → ℕ → ℕ
literal [] i = 0
literal (c ∷ s) zero = c
literal (c ∷ s) (suc i) = literal s i

-- `!memcmp(buf, lit, n)` and `!strcmp(buf, lit)`.
unfoldable pub has_prefix : (ℕ → ℕ) → List ℕ → ℕ → Bool
has_prefix buf lit n = is_zero (memcmp buf 0 (literal lit) 0 n)

unfoldable pub is_line : (ℕ → ℕ) → List ℕ → Bool
is_line buf lit = is_zero (strcmp buf 0 lit)

-- What a line asks for.
pub data Command : Type 0 where
  nothing help cont show_regs unknown : Command
  peek : ℕ → Command
  set_si set_di set_sp set_bp set_cs set_ss set_es set_ds set_fs set_gs : ℕ → Command
  set_a set_b set_c set_d jump : ℕ → Command

-- The ladder of tests.
unfoldable pub parse_command : (ℕ → ℕ) → Command
parse_command buf =
    if buf 0 == 0
    then nothing
    else if is_line buf (b'h' ∷ b'e' ∷ b'l' ∷ b'p' ∷ [])
    then help
    else if is_line buf (b'c' ∷ b'o' ∷ b'n' ∷ b't' ∷ [])
    then cont
    else if is_line buf (b'r' ∷ b'e' ∷ b'g' ∷ b's' ∷ [])
    then show_regs
    else if has_prefix buf (b'p' ∷ b'e' ∷ b'e' ∷ b'k' ∷ []) 4
    then (if buf 4 == b' ' then peek (argument buf 5) else unknown)
    else if has_prefix buf (b's' ∷ b'e' ∷ b't' ∷ b's' ∷ b'i' ∷ []) 5
    then set_si (argument buf 6)
    else if has_prefix buf (b's' ∷ b'e' ∷ b't' ∷ b'd' ∷ b'i' ∷ []) 5
    then set_di (argument buf 6)
    else if has_prefix buf (b's' ∷ b'e' ∷ b't' ∷ b's' ∷ b'p' ∷ []) 5
    then set_sp (argument buf 6)
    else if has_prefix buf (b's' ∷ b'e' ∷ b't' ∷ b'b' ∷ b'p' ∷ []) 5
    then set_bp (argument buf 6)
    else if has_prefix buf (b's' ∷ b'e' ∷ b't' ∷ b'c' ∷ b's' ∷ []) 5
    then set_cs (argument buf 6)
    else if has_prefix buf (b's' ∷ b'e' ∷ b't' ∷ b's' ∷ b's' ∷ []) 5
    then set_ss (argument buf 6)
    else if has_prefix buf (b's' ∷ b'e' ∷ b't' ∷ b'e' ∷ b's' ∷ []) 5
    then set_es (argument buf 6)
    else if has_prefix buf (b's' ∷ b'e' ∷ b't' ∷ b'd' ∷ b's' ∷ []) 5
    then set_ds (argument buf 6)
    else if has_prefix buf (b's' ∷ b'e' ∷ b't' ∷ b'f' ∷ b's' ∷ []) 5
    then set_fs (argument buf 6)
    else if has_prefix buf (b's' ∷ b'e' ∷ b't' ∷ b'g' ∷ b's' ∷ []) 5
    then set_gs (argument buf 6)
    else if has_prefix buf (b's' ∷ b'e' ∷ b't' ∷ b'a' ∷ []) 4
    then set_a (argument buf 5)
    else if has_prefix buf (b's' ∷ b'e' ∷ b't' ∷ b'b' ∷ []) 4
    then set_b (argument buf 5)
    else if has_prefix buf (b's' ∷ b'e' ∷ b't' ∷ b'c' ∷ []) 4
    then set_c (argument buf 5)
    else if has_prefix buf (b's' ∷ b'e' ∷ b't' ∷ b'd' ∷ []) 4
    then set_d (argument buf 5)
    else if has_prefix buf (b'j' ∷ b'u' ∷ b'm' ∷ b'p' ∷ []) 4
    then jump (argument buf 5)
    else unknown

-- What a command does to the registers.
unfoldable pub apply_command : Command → IntRegs → IntRegs
apply_command (set_si v) regs = record regs { esi = v }
apply_command (set_di v) regs = record regs { edi = v }
apply_command (set_sp v) regs = record regs { esp = v }
apply_command (set_bp v) regs = record regs { ebp = v }
apply_command (set_cs v) regs = record regs { cs = v }
apply_command (set_ss v) regs = record regs { ss = v }
apply_command (set_es v) regs = record regs { es = v }
apply_command (set_ds v) regs = record regs { ds = v }
apply_command (set_fs v) regs = record regs { fs = v }
apply_command (set_gs v) regs = record regs { gs = v }
apply_command (set_a v) regs = record regs { eax = v }
apply_command (set_b v) regs = record regs { ebx = v }
apply_command (set_c v) regs = record regs { ecx = v }
apply_command (set_d v) regs = record regs { edx = v }
apply_command (jump v) regs = record regs { eip = v }
apply_command _ regs = regs

-- The text of `help`.
abbrev pub help_text : String
help_text =
    "List of commands:\n\thelp cont regs\n\tpeek <hex memory address>\n\tseta <value>\n\tsetb <value>\n\tsetc <value>\n\tsetd <value>\n\tsetsi <value>\n\tsetdi <value>\n\tjump  <value>\n\tsetsp <value>\n\tsetbp <value>\n\tsetcs <value>\n\tsetss <value>\n\tsetes <value>\n\tsetds <value>\n\tsetfs <value>\n\tsetgs <value>\n"

-- The format of the banner: the registers between two lines.
abbrev pub debug_format : String
debug_format =
    "\n\nDEBUG TRAP:\n\tEAX: %016X\tEBX: %016X\n\tECX: %016X\tEDX: %016X\n\tESI: %016X\tEDI: %016X\n\tEIP: %016X\tESP: %016X\n\tEBP: %016X\n\tCS: %016X\tSS: %016X\n\tES: %016X\tDS: %016X\n\tFS: %016X\tGS: %016X\nEntering debugger console..\n"

module _ (printf : Printf) (memory : Memory) (tty : ℕ) where
  -- What a command prints.
  unfoldable pub print_command : Command → IntRegs → Console → Console
  print_command help regs c = printf tty help_text [] c
  print_command show_regs regs c = printf tty dump_format (dumped regs) c
  print_command (peek ptr) regs c =
      printf tty "*(size_t*)%d=%08X\n" (word ptr ∷ word (load32 memory ptr) ∷ []) c
  print_command _ regs c = c

  -- The loop of the console: a prompt, a line into a cleared buffer, its command, until `cont`. The fuel
  -- bounds the lines; a loop that outlives it, or that waits for a line, has not returned.
  unfoldable pub debug_loop : ℕ → List (List Scan) → IntRegs → Console → Result (IntRegs × Console)
  debug_loop zero rounds regs c = halted c
  debug_loop (suc fuel) rounds regs c =
      elim (tty_read (printf tty "DBG$ " [] c) tty (λ _. 0) (line_cap - 1) rounds) [
        | none ↦ halted c
        | some r ↦ elim (parse_command r.buf) [
          | cont ↦ returned (regs, r.console)
          | other ↦
              debug_loop fuel r.rest (apply_command other regs) (print_command other regs r.console)
        ]
      ]

  unfoldable pub breakpoint : ℕ → List (List Scan) → IntRegs → Console → Result (IntRegs × Console)
  breakpoint fuel rounds regs c =
      debug_loop fuel rounds regs (printf tty debug_format (dumped regs) c)
