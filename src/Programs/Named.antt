-- ===== src/Programs/Named.antt =====
-- The lines of the shell in kernel/test.c and the names of its commands.
use klyx.Prelude.{
  ℕ, ◌+◌, ◌≡◌, ◌↔◌, ◌∙◌, refl, sym, ap, ap₂, Bool, true, false, ◌&&◌, List, [], ◌∷◌, get_or, ◌==◌,
  ◌≤◌, length, ==_iff, ==_ne, ltb, ◌<◌, arith, Bool-cases, inl, inr, if◌then◌else◌,
}
use klyx.Machine.Memory.{Memory}
use klyx.Programs.Login.{names}
use klyx.Programs.Strings.{NonZero, strcmp-same}
use klyx.Programs.Command.{
  ShellCommand, branch, empty, help, ud, exit, kill, stop, cont, show_uid, show_gid, show_pid,
  show_uname, fib, show_time, enc_passwords, strcpy_screen, kdbg, su, unknown, parse_shell,
}

-- The names, with what they ask for.
abbrev pub commands : List (List ℕ × ShellCommand)
commands =
    (b'h' ∷ b'e' ∷ b'l' ∷ b'p' ∷ [], branch help)
    ∷ (b'u' ∷ b'd' ∷ [], branch ud)
    ∷ (b'e' ∷ b'x' ∷ b'i' ∷ b't' ∷ [], exit)
    ∷ (b'k' ∷ b'i' ∷ b'l' ∷ b'l' ∷ [], branch kill)
    ∷ (b's' ∷ b't' ∷ b'o' ∷ b'p' ∷ [], branch stop)
    ∷ (b'c' ∷ b'o' ∷ b'n' ∷ b't' ∷ [], branch cont)
    ∷ (b'u' ∷ b'i' ∷ b'd' ∷ [], branch show_uid)
    ∷ (b'g' ∷ b'i' ∷ b'd' ∷ [], branch show_gid)
    ∷ (b'p' ∷ b'i' ∷ b'd' ∷ [], branch show_pid)
    ∷ (b'u' ∷ b'n' ∷ b'a' ∷ b'm' ∷ b'e' ∷ [], branch show_uname)
    ∷ (b'f' ∷ b'i' ∷ b'b' ∷ [], branch fib)
    ∷ (b't' ∷ b'i' ∷ b'm' ∷ b'e' ∷ [], branch show_time)
    ∷ (b'e' ∷ b'n' ∷ b'c' ∷ [], branch enc_passwords)
    ∷ (b's' ∷ b't' ∷ b'r' ∷ b'c' ∷ b'p' ∷ b'y' ∷ [], branch strcpy_screen)
    ∷ (b'k' ∷ b'd' ∷ b'b' ∷ b'g' ∷ [], branch kdbg)
    ∷ (b's' ∷ b'u' ∷ [], su)
    ∷ []

-- Whether two lines are the same, byte by byte.
abbrev same_line : List ℕ → List ℕ → Bool
same_line [] [] = true
same_line [] (d ∷ t) = false
same_line (c ∷ s) [] = false
same_line (c ∷ s) (d ∷ t) = c == d && same_line s t

-- The command of a line in a list of names.
abbrev pub look_up : List ℕ → List (List ℕ × ShellCommand) → ShellCommand
look_up line [] = branch unknown
look_up line ((name, cmd) ∷ more) = if same_line line name then cmd else look_up line more

abbrev pub named : List ℕ → ShellCommand
named [] = branch empty
named (c ∷ s) = look_up (c ∷ s) commands

same_line_iff : (s t : List ℕ) → (same_line s t ≡ true) ↔ (s ≡ t)
same_line_iff [] [] = (λ z. refl, λ e. refl)
same_line_iff [] (d ∷ t) = (λ z. cc, λ e. cc)
same_line_iff (c ∷ s) [] = (λ z. cc, λ e. cc)
same_line_iff (c ∷ s) (d ∷ t) = elim (Bool-cases (c == d)) [
  | inl same ↦
      let rest = same_line_iff s t in
      let first : c ≡ d = (==_iff c d).0 same in
      rw same (λ z. ap₂ (λ x xs. x ∷ xs) first (rest.0 z), λ e. rest.1 cc)
  | inr other ↦
      let apart : c ≡ d → (c == d) ≡ true = (==_iff c d).1 in
      rw other (λ z. cc, λ e. sym other ∙ apart cc)
]

-- A Boolean that is true exactly when another one is.
iff_eq : (a b : Bool) → (a ≡ true) ↔ (b ≡ true) → a ≡ b
iff_eq true true h = refl
iff_eq false false h = refl
iff_eq true false h = sym (h.0 refl)
iff_eq false true h = h.1 refl

-- The names have no zeros.
abbrev AllNonZero : List (List ℕ × ShellCommand) → Type 0
AllNonZero [] = Unit
AllNonZero ((name, cmd) ∷ more) = NonZero name × AllNonZero more

-- The ladder on the names of a list.
abbrev ladder : Memory → (buf : ℕ) → List (List ℕ × ShellCommand) → ShellCommand
ladder m buf [] = branch unknown
ladder m buf ((name, cmd) ∷ more) = if names m buf name then cmd else ladder m buf more

-- No zero among the bytes, as a test.
abbrev is_text : List ℕ → Bool
is_text [] = true
is_text (c ∷ s) = ltb 0 c && is_text s

abbrev all_text : List (List ℕ × ShellCommand) → Bool
all_text [] = true
all_text ((name, cmd) ∷ more) = is_text name && all_text more

is_text-NonZero : (s : List ℕ) → is_text s ≡ true → NonZero s
is_text-NonZero [] h = tt
is_text-NonZero (c ∷ s) h = elim (Bool-cases (ltb 0 c)) [
  | inl more ↦ (positive c more, is_text-NonZero s (rw more at h))
  | inr none ↦ absurd (never (rw none at h))
]
  where
    positive : (c : ℕ) → ltb 0 c ≡ true → 0 < c
    positive c e = ground arith

    never : false ≡ true → ⊥
    never e = cc

literals : (table : List (List ℕ × ShellCommand)) → all_text table ≡ true → AllNonZero table
literals [] h = tt
literals ((name, cmd) ∷ more) h = elim (Bool-cases (is_text name)) [
  | inl good ↦ (is_text-NonZero name good, literals more (rw good at h))
  | inr bad ↦ absurd (never (rw bad at h))
]
  where
    never : false ≡ true → ⊥
    never e = cc

module _ (m : Memory) (buf : ℕ) where
  names-same_line :
      (line t : List ℕ)
      → NonZero line
      → NonZero t
      → ((j : ℕ) → j ≤ length line → m (buf + j) ≡ get_or line j 0)
      → names m buf t ≡ same_line line t
  names-same_line line t nl nt stored =
      let strings = strcmp-same line t m buf nl nt stored in
      let lines = same_line_iff line t in
      iff_eq (names m buf t) (same_line line t)
        (λ z. lines.1 (strings.0 z), λ z. strings.1 (lines.0 z))

  ladder-look_up :
      (line : List ℕ) (table : List (List ℕ × ShellCommand))
      → NonZero line
      → AllNonZero table
      → ((j : ℕ) → j ≤ length line → m (buf + j) ≡ get_or line j 0)
      → ladder m buf table ≡ look_up line table
  ladder-look_up line [] nl nt stored = refl
  ladder-look_up line ((name, cmd) ∷ more) nl nt stored =
      ap₂ (λ b rest. if b then cmd else rest) (names-same_line line name nl nt.0 stored)
        (ladder-look_up line more nl nt.1 stored)

  commands-AllNonZero : AllNonZero commands
  commands-AllNonZero = literals commands refl

  -- The ladder of strcmp in the shell takes a line, a string with its zero in the buffer, for the
  -- command of the table whose name is the whole line, byte by byte, for nothing if it is empty,
  -- and for unknown otherwise.
  pub parse_shell-named :
      (line : List ℕ)
      → NonZero line
      → ((j : ℕ) → j ≤ length line → m (buf + j) ≡ get_or line j 0)
      → parse_shell m buf ≡ named line
  unfolding parse_shell
  parse_shell-named [] nl stored =
      let end : m buf ≡ 0 = start ∙ stored 0 (omega arith) in rw end refl
    where
      start : m buf ≡ m (buf + 0)
      start = let here : buf ≡ buf + 0 = omega arith in ap m here
  parse_shell-named (c ∷ s) nl stored =
      let first : m buf ≡ c = start ∙ stored 0 (omega arith) in
      let alive : (c == 0) ≡ false = ==_ne c 0 (λ z. omega (arith, nl.0)) in
      ap (λ x. if x == 0 then branch empty else ladder m buf commands) first
      ∙ ap (λ b. if b then branch empty else ladder m buf commands) alive
      ∙ ladder-look_up (c ∷ s) commands nl commands-AllNonZero stored
    where
      start : m buf ≡ m (buf + 0)
      start = let here : buf ≡ buf + 0 = omega arith in ap m here
