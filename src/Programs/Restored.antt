-- ===== src/Programs/Restored.antt =====
-- The shell of kernel/test.c and the owners of the tasks: `su` takes root and gives it back.
use klyx.Prelude.{ℕ, zero, suc, ◌+◌, ◌≡◌, refl, List, [], ◌∷◌}
use klyx.Machine.Regs.{IntRegs}
use klyx.Machine.Outcome.{returned, halted, ◌>>=◌, After, After->>=, After-returned, After-weaken}
use klyx.Sched.Task.{Kernel}
use klyx.Sched.Flush.{Printf, Result}
use klyx.Traps.Syscall.{self}
use klyx.Programs.Command.{ShellCommand, exit, su, branch, parse_shell}
use klyx.Programs.Shell.{
  Places, Turn, Shell, ShellEnd, left, astray, set_owner, restore, print_as, ask,
}
use klyx.Programs.Session.{resume, run_line, end_line, shell}
use klyx.Programs.Ladder.{LeftKept, LeftKept-trans, run_command-LeftKept}
use klyx.Programs.Kept.{Kept, same_tasks-Kept, set_owner-Kept}
use klyx.Programs.Parts.{ask-Kept}

module _ (printf : Printf) (regs : IntRegs) (places : Places) where
  -- The rest of the loop, when a part has ended with a kept table.
  resume-LeftKept :
      (k : Kernel) (go : Shell → Result ShellEnd) (e : ShellEnd)
      → LeftKept k e
      → ((t : Shell) → After (LeftKept t.kernel) (go t))
      → After (LeftKept k) (resume go e)
  resume-LeftKept k go (left t) p h =
      After-weaken (LeftKept t.kernel) (LeftKept k) (go t) (LeftKept-trans p) (h t)
  resume-LeftKept k go (astray r l) p h = tt

  restore-LeftKept :
      (k : Kernel) (e : ShellEnd)
      → LeftKept (set_owner 0 0 k) e
      → LeftKept k (restore (self k).uid (self k).gid e)
  unfolding restore
  restore-LeftKept k (left t) p = set_owner-Kept 0 0 k t.kernel p
  restore-LeftKept k (astray r l) p = tt

  run_line-LeftKept :
      (inner next : Shell → Result ShellEnd) (cmd : ShellCommand) (depth : ℕ) (turn : Turn)
      (s : Shell)
      → ((t : Shell) → After (LeftKept t.kernel) (inner t))
      → ((t : Shell) → After (LeftKept t.kernel) (next t))
      → After (LeftKept s.kernel) (run_line printf regs places inner next cmd depth turn s)
  unfolding run_line
  run_line-LeftKept inner next exit depth turn s f h = same_tasks-Kept s.kernel s.kernel refl refl
  run_line-LeftKept inner next su depth turn s f h =
      After->>= (LeftKept (set_owner 0 0 s.kernel)) (LeftKept s.kernel) _ _
        (f (record s { kernel = set_owner 0 0 s.kernel }))
        (λ e p. resume-LeftKept s.kernel next _ (restore-LeftKept s.kernel e p) h)
  run_line-LeftKept inner next (branch b) depth turn s f h =
      After->>= (LeftKept s.kernel) (LeftKept s.kernel) _ _
        (run_command-LeftKept printf regs places b depth turn s)
        (λ e p. resume-LeftKept s.kernel next e p h)

  -- A shell that returns leaves every task as it found it, but for the signals that it has sent: after
  -- `exit`, the task has the user and the group again that it had, whatever `su` did in between.
  pub shell-LeftKept :
      (fuel depth : ℕ) (s : Shell)
      → After (LeftKept s.kernel) (shell printf regs places fuel depth s)
  unfolding shell end_line print_as
  shell-LeftKept zero depth s = tt
  shell-LeftKept (suc fuel) depth s = go s.turns (λ d t. shell-LeftKept fuel d t)
    where
      go :
          (turns : List Turn)
          → ((d : ℕ) (t : Shell) → After (LeftKept t.kernel) (shell printf regs places fuel d t))
          → After (LeftKept s.kernel) (elim turns as (λ _. Result ShellEnd) [
            | [] ↦ halted s.kernel.console
            | turn ∷ turns ↦ ask printf regs places "$ " depth turn.line s.kernel >>= λ k.
                run_line printf regs places
                  (λ t. shell printf regs places fuel (depth + 1) t)
                  (λ t. shell printf regs places fuel depth (end_line printf regs places t))
                  (parse_shell k.memory (places.buf depth))
                  depth
                  turn
                  (record s { kernel = k; turns = turns })
          ])
      go [] ih = tt
      go (turn ∷ turns) ih =
          After->>= (Kept s.kernel) (LeftKept s.kernel)
            (ask printf regs places "$ " depth turn.line s.kernel) _
            (ask-Kept printf regs places "$ " depth turn.line s.kernel)
            (λ k p. After-weaken (LeftKept k) (LeftKept s.kernel) _ (LeftKept-trans p) (
              run_line-LeftKept (λ t. shell printf regs places fuel (depth + 1) t) _
                (parse_shell k.memory (places.buf depth)) depth turn
                (record s { kernel = k; turns = turns }) (ih (depth + 1))
                (λ t.
                  After-weaken (LeftKept (end_line printf regs places t).kernel) (LeftKept t.kernel)
                    (shell printf regs places fuel depth (end_line printf regs places t))
                    (LeftKept-trans (same_tasks-Kept t.kernel _ refl refl))
                    (ih depth (end_line printf regs places t)))))

  -- A shell that returns, by exit, leaves every task but that of slot 2 exactly as it found it,
  -- and that one but for the signals that kill, stop and cont have sent it: so the task has the
  -- user and the group again that it had, whatever su did in between. The same task runs, and
  -- valid signal rings are valid again.
  pub shell-Kept :
      (fuel depth : ℕ) (s : Shell) {t : Shell}
      → shell printf regs places fuel depth s ≡ returned (left t)
      → Kept s.kernel t.kernel
  shell-Kept fuel depth s e =
      After-returned (LeftKept s.kernel) (shell printf regs places fuel depth s) e
        (shell-LeftKept fuel depth s)
