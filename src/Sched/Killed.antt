-- ===== src/Sched/Killed.antt =====
-- A task with a deadly signal is dead once its signals are handled.
use klyx.Prelude.{
  ℕ, ◌≡◌, ◌∙◌, ◌++◌, inl, inr, refl, ap, true, List, [], ◌∷◌, Option, none, some, Bool-cases,
}
use klyx.Machine.Regs.{IntRegs}
use klyx.Machine.Outcome.{returned, panicked, halted}
use klyx.Console.State.{Console}
use klyx.Sched.Signal.{die}
use klyx.Sched.Task.{Task, is_dead}
use klyx.Sched.Flush.{Printf, Result, flush_signals}
use klyx.Sched.Queue.{IsQueue, pending}
use klyx.Sched.Deliver.{Handled, action, deliver, IsDeadly, deliver-IsDeadly}
use klyx.Sched.Delivery.{Agrees, flush_signals-deliver, flush_signals-dead}

pub IsDeadly-append : (xs : List ℕ) (sig : ℕ) → action sig ≡ die → IsDeadly (xs ++ (sig ∷ []))
IsDeadly-append [] sig e = inl e
IsDeadly-append (x ∷ xs) sig e = inr (IsDeadly-append xs sig e)

module _ (printf : Printf) where
  -- A flush that returns leaves a task dead if one of its signals kills.
  pub flush_signals-IsDeadly :
      (current : ℕ) (regs : IntRegs) (t : Task) (c : Console) {r : Task × Console}
      → IsQueue t
      → IsDeadly (pending t)
      → flush_signals printf current regs t c ≡ returned r
      → is_dead r.0.status ≡ true
  flush_signals-IsDeadly current regs t c {r} q deadly e = elim (Bool-cases (is_dead t.status)) [
    | inl d ↦
        let kept : flush_signals printf current regs t c ≡ returned (t, c) =
          flush_signals-dead printf current regs t c d in
        let same : r ≡ (t, c) = cc in rw same d
    | inr alive ↦
        go (deliver current t.status t.paused (pending t)) refl _ e
          (flush_signals-deliver printf current regs t c q alive)
  ]
    where
      go :
          (h : Option Handled)
          → deliver current t.status t.paused (pending t) ≡ h
          → (o : Result (Task × Console)) → o ≡ returned r
          → Agrees t h o
          → is_dead r.0.status ≡ true
      go none d (returned s) f a = absurd a
      go none d (panicked msg c') f a = cc
      go none d (halted c') f a = absurd a
      go (some h) d (returned s) f a =
          let same : r ≡ s = cc in
          rw same (
            ap (λ u. is_dead u.status) a.0
            ∙ deliver-IsDeadly current t.status t.paused (pending t) deadly d)
      go (some h) d (panicked msg c') f a = absurd a
      go (some h) d (halted c') f a = absurd a
