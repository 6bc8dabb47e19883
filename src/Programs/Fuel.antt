-- ===== src/Programs/Fuel.antt =====
-- The fuel of the shell in kernel/test.c.
use klyx.Prelude.{
  ℕ, zero, suc, ◌+◌, ◌-◌, ◌≤◌, ◌≡◌, ◌∙◌, sym, ap, subst, refl, List, [], ◌∷◌, length, arith,
}
use klyx.Machine.Regs.{IntRegs}
use klyx.Machine.Outcome.{
  returned, panicked, halted, ◌>>=◌, After, After->>=, After-weaken, >>=-cong,
}
use klyx.Sched.Task.{Kernel}
use klyx.Sched.Flush.{Printf, Result}
use klyx.Traps.Syscall.{self}
use klyx.Programs.Command.{ShellCommand, Branch, exit, su, branch, parse_shell}
use klyx.Programs.Shell.{Places, Turn, Shell, ShellEnd, left, astray, set_owner, restore, ask}
use klyx.Programs.Session.{resume, run_command, run_line, end_line, shell}
use klyx.Programs.Turns.{Same, AtMost, Same-AtMost, run_command-Same}

After-any : (m : Result Kernel) → After (λ _. Unit) m
After-any (returned a) = tt
After-any (panicked msg c) = tt
After-any (halted c) = tt

AtMost-≤ : (n m : ℕ) → n ≤ m → (e : ShellEnd) → AtMost n e → AtMost m e
AtMost-≤ n m le (left s) h = omega arith
AtMost-≤ n m le (astray r k) h = tt

restore-AtMost : (n uid gid : ℕ) (e : ShellEnd) → AtMost n e → AtMost n (restore uid gid e)
unfolding restore
restore-AtMost n uid gid (left s) h = h
restore-AtMost n uid gid (astray r k) h = tt

-- A part of the shell that leaves no more turns than it finds.
abbrev Shortens : (Shell → Result ShellEnd) → Type 0
Shortens go = (t : Shell) → After (AtMost (length t.turns)) (go t)

-- Two parts that are the same on at most `n` turns.
abbrev Agree : ℕ → (f g : Shell → Result ShellEnd) → Type 0
Agree n f g = (t : Shell) → length t.turns ≤ n → f t ≡ g t

resume-AtMost :
    (n : ℕ) (go : Shell → Result ShellEnd) (e : ShellEnd)
    → Shortens go
    → AtMost n e
    → After (AtMost n) (resume go e)
resume-AtMost n go (left t) h le =
    After-weaken (AtMost (length t.turns)) (AtMost n) (go t) (AtMost-≤ (length t.turns) n le) (h t)
resume-AtMost n go (astray r k) h le = tt

resume-Agree :
    (n : ℕ) (f g : Shell → Result ShellEnd) (e : ShellEnd)
    → Agree n f g
    → AtMost n e
    → resume f e ≡ resume g e
resume-Agree n f g (left t) h le = h t le
resume-Agree n f g (astray r k) h le = refl

module _ (printf : Printf) (regs : IntRegs) (places : Places) where
  command-AtMost :
      (b : Branch) (depth : ℕ) (turn : Turn) (s : Shell)
      → After (AtMost (length s.turns)) (run_command printf regs places b depth turn s)
  command-AtMost b depth turn s =
      After-weaken (Same s.turns) (AtMost (length s.turns)) _
        (Same-AtMost s.turns (length s.turns) (omega arith))
        (run_command-Same printf regs places b depth turn s)

  run_line-AtMost :
      (inner next : Shell → Result ShellEnd) (cmd : ShellCommand) (depth : ℕ) (turn : Turn)
      → Shortens inner
      → Shortens next
      → Shortens (run_line printf regs places inner next cmd depth turn)
  unfolding run_line
  run_line-AtMost inner next exit depth turn f h s = omega arith
  run_line-AtMost inner next su depth turn f h s =
      After->>= (AtMost (length s.turns)) (AtMost (length s.turns)) _ _
        (f (record s { kernel = set_owner 0 0 s.kernel }))
        (λ e le. resume-AtMost (length s.turns) next _ h (restore-AtMost (length s.turns) _ _ e le))
  run_line-AtMost inner next (branch b) depth turn f h s =
      After->>= (AtMost (length s.turns)) (AtMost (length s.turns)) _ _
        (command-AtMost b depth turn s) (λ e le. resume-AtMost (length s.turns) next e h le)

  run_line-Agree :
      (inner inner' next next' : Shell → Result ShellEnd) (cmd : ShellCommand) (depth : ℕ)
      (turn : Turn) (s : Shell)
      → Shortens inner
      → Agree (length s.turns) inner inner'
      → Agree (length s.turns) next next'
      → run_line printf regs places inner next cmd depth turn s
        ≡ run_line printf regs places inner' next' cmd depth turn s
  unfolding run_line
  run_line-Agree inner inner' next next' exit depth turn s f h g = refl
  run_line-Agree inner inner' next next' su depth turn s f h g =
      let root = record s { kernel = set_owner 0 0 s.kernel } in
      >>=-cong (AtMost (length s.turns)) (inner root) _ _ (f root) (λ e le.
        resume-Agree (length s.turns) next next' _ g (restore-AtMost (length s.turns) _ _ e le))
      ∙ ap (λ m. m >>= λ e. resume next' (restore (self s.kernel).uid (self s.kernel).gid e))
          (h root (omega arith))
  run_line-Agree inner inner' next next' (branch b) depth turn s f h g =
      >>=-cong (AtMost (length s.turns)) (run_command printf regs places b depth turn s) _ _
        (command-AtMost b depth turn s) (λ e le. resume-Agree (length s.turns) next next' e g le)

  -- A round of the loop, on the turns that are left.
  abbrev round : (fuel depth : ℕ) → Shell → List Turn → Result ShellEnd
  round fuel depth s [] = halted s.kernel.console
  round fuel depth s (turn ∷ turns) = ask printf regs places "$ " depth turn.line s.kernel >>= λ k.
      run_line printf regs places (λ t. shell printf regs places fuel (depth + 1) t)
        (λ t. shell printf regs places fuel depth (end_line printf regs places t))
        (parse_shell k.memory (places.buf depth)) depth turn
        (record s { kernel = k; turns = turns })

  shell-round :
      (fuel depth : ℕ) (s : Shell)
      → shell printf regs places (suc fuel) depth s ≡ round fuel depth s s.turns
  unfolding shell
  shell-round fuel depth s = go s.turns
    where
      go :
          (turns : List Turn)
          → (elim turns as (λ _. Result ShellEnd) [
            | [] ↦ halted s.kernel.console
            | turn ∷ rest ↦ ask printf regs places "$ " depth turn.line s.kernel >>= λ k.
                run_line printf regs places
                  (λ t. shell printf regs places fuel (depth + 1) t)
                  (λ t. shell printf regs places fuel depth (end_line printf regs places t))
                  (parse_shell k.memory (places.buf depth))
                  depth
                  turn
                  (record s { kernel = k; turns = rest })
          ])
            ≡ round fuel depth s turns
      go [] = refl
      go (turn ∷ turns) = refl

  round-AtMost :
      (fuel depth : ℕ) (s : Shell) (turns : List Turn)
      → ((d : ℕ) → Shortens (shell printf regs places fuel d))
      → After (AtMost (length turns)) (round fuel depth s turns)
  unfolding end_line
  round-AtMost fuel depth s [] h = tt
  round-AtMost fuel depth s (turn ∷ turns) h =
      After->>= (λ _. Unit) (AtMost (length (turn ∷ turns)))
        (ask printf regs places "$ " depth turn.line s.kernel) _ (After-any _)
        (λ k u.
          After-weaken (AtMost (length turns)) (AtMost (length (turn ∷ turns))) _
            (AtMost-≤ (length turns) (length (turn ∷ turns)) (omega arith))
            (run_line-AtMost (λ t. shell printf regs places fuel (depth + 1) t)
              (λ t. shell printf regs places fuel depth (end_line printf regs places t))
              (parse_shell k.memory (places.buf depth)) depth turn (h (depth + 1))
              (λ t. h depth (end_line printf regs places t))
              (record s { kernel = k; turns = turns })))

  shell-Shortens : (fuel depth : ℕ) → Shortens (shell printf regs places fuel depth)
  unfolding shell
  shell-Shortens zero depth s = tt
  shell-Shortens (suc fuel) depth s =
      subst (After (AtMost (length s.turns))) (sym (shell-round fuel depth s))
        (round-AtMost fuel depth s s.turns (λ d. shell-Shortens fuel d))

  round-Agree :
      (fuel fuel' depth : ℕ) (s : Shell) (turns : List Turn) (n : ℕ)
      → length turns ≤ suc n
      → ((d : ℕ) → Agree n (shell printf regs places fuel d) (shell printf regs places fuel' d))
      → round fuel depth s turns ≡ round fuel' depth s turns
  unfolding end_line
  round-Agree fuel fuel' depth s [] n le h = refl
  round-Agree fuel fuel' depth s (turn ∷ turns) n le h =
      >>=-cong (λ _. Unit) (ask printf regs places "$ " depth turn.line s.kernel) _ _ (After-any _)
        (λ k u.
          run_line-Agree (λ t. shell printf regs places fuel (depth + 1) t)
            (λ t. shell printf regs places fuel' (depth + 1) t)
            (λ t. shell printf regs places fuel depth (end_line printf regs places t))
            (λ t. shell printf regs places fuel' depth (end_line printf regs places t))
            (parse_shell k.memory (places.buf depth)) depth turn
            (record s { kernel = k; turns = turns }) (shell-Shortens fuel (depth + 1))
            (λ t l. h (depth + 1) t (omega arith))
            (λ t l. h depth (end_line printf regs places t) (omega arith)))

  round-none :
      (fuel depth : ℕ) (s : Shell) (turns : List Turn)
      → length turns ≤ 0
      → round fuel depth s turns ≡ halted s.kernel.console
  round-none fuel depth s [] le = refl
  round-none fuel depth s (turn ∷ turns) le = absurd (omega arith)

  shell-none :
      (fuel depth : ℕ) (s : Shell)
      → length s.turns ≤ 0
      → shell printf regs places fuel depth s ≡ halted s.kernel.console
  unfolding shell
  shell-none zero depth s le = refl
  shell-none (suc fuel) depth s le = shell-round fuel depth s ∙ round-none fuel depth s s.turns le

  -- Fuel for as many lines as there are turns is enough: with more of it, the shell and the shells
  -- inside it do the same.
  pub shell-fuel :
      (fuel fuel' depth : ℕ) (s : Shell)
      → length s.turns ≤ fuel
      → length s.turns ≤ fuel'
      → shell printf regs places fuel depth s ≡ shell printf regs places fuel' depth s
  shell-fuel zero fuel' depth s le le' =
      shell-none zero depth s le ∙ sym (shell-none fuel' depth s le)
  shell-fuel (suc fuel) zero depth s le le' =
      shell-none (suc fuel) depth s le' ∙ sym (shell-none zero depth s le')
  shell-fuel (suc fuel) (suc fuel') depth s le le' =
      shell-round fuel depth s
      ∙ round-Agree fuel fuel' depth s s.turns (length s.turns - 1) (omega arith)
          (λ d t l. shell-fuel fuel fuel' d t (omega arith) (omega arith))
      ∙ sym (shell-round fuel' depth s)
