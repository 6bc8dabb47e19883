-- ===== src/Sched/Delivery.antt =====
-- `__flush_signals` does what `deliver` says of the signals that wait.
use klyx.Prelude.{
  ℕ, zero, suc, ◌+◌, ◌-◌, ◌%◌, ◌≡◌, ◌≢◌, ◌∙◌, refl, ap, subst, true, false, Option, none, some,
  ◌==◌, if◌then◌else◌, Bool-cases, inl, inr, arith,
}
use klyx.Machine.Regs.{IntRegs}
use klyx.Machine.Outcome.{returned, panicked, halted, ◌>>=◌}
use klyx.Console.State.{Console}
use klyx.Sched.Signal.{Action, die, go_on, stop, skip, signal_case}
use klyx.Sched.Deliver.{Handled, action, deliver, deliver-some}
use klyx.Sched.Task.{Task, dead, is_dead, task_sig_cap}
use klyx.Sched.Flush.{
  Printf, Result, panic, act, announce, advance_read, flush_round, flush_loop, flush_signals,
  has_signals,
}
use klyx.Prelude.Ring.{window}
use klyx.Sched.Queue.{IsQueue, pending}

-- The result of the C function is the one that the specification gives, and the rest of the task is as
-- it was.
abbrev pub Agrees : Task → Option Handled → Result (Task × Console) → Type 0
Agrees t none (panicked msg c) = msg ≡ "Attempt to kill init."
Agrees t (some h) (returned (t', c)) =
    (t' ≡ record t {
      status = h.status;
      paused = h.paused;
      signals_size = t'.signals_size;
      signals_read_head = t'.signals_read_head;
    })
    × (pending t' ≡ h.rest)
    × IsQueue t'
Agrees t _ _ = ⊥

-- The task after its oldest signal is taken, for the `n` that still wait.
abbrev taken : ℕ → Task → Task
taken n t = record t {
  signals_size = n;
  signals_read_head = (t.signals_read_head + 1) % task_sig_cap;
}

taken-IsQueue : (n : ℕ) (t : Task) → IsQueue t → t.signals_size ≡ suc n → IsQueue (taken n t)
taken-IsQueue n t q e = omega arith

-- Handling goes on with a task that differs from `t` in the fields that signals change.
Agrees-weaken :
    (t u : Task) (h : Option Handled) (r : Result (Task × Console))
    → u ≡ record t {
      status = u.status;
      paused = u.paused;
      signals_size = u.signals_size;
      signals_read_head = u.signals_read_head;
    }
    → Agrees u h r
    → Agrees t h r
Agrees-weaken t u none (returned (t', c)) e a = a
Agrees-weaken t u none (panicked msg c) e a = a
Agrees-weaken t u none (halted c) e a = a
Agrees-weaken t u (some h) (returned (t', c)) e a = (
  a.0
      ∙ ap
          (λ (v : Task). record v {
            status = h.status;
            paused = h.paused;
            signals_size = t'.signals_size;
            signals_read_head = t'.signals_read_head;
          })
          e,
  a.1,
  a.2,
)
Agrees-weaken t u (some h) (panicked msg c) e a = a
Agrees-weaken t u (some h) (halted c) e a = a

has_signals-suc :
    (n : ℕ) (t : Task) → t.signals_size ≡ suc n → is_dead t.status ≡ false → has_signals t ≡ true
has_signals-suc n t e alive = ground arith

-- A dead task takes no more signals.
has_signals-dead : (t : Task) → is_dead t.status ≡ true → has_signals t ≡ false
has_signals-dead t d = ground arith

module _ (printf : Printf) (current : ℕ) (regs : IntRegs) where
  flush_loop-dead :
      (n : ℕ) (t : Task) (c : Console)
      → is_dead t.status ≡ true
      → flush_loop printf n current regs t c ≡ returned (t, c)
  unfolding flush_loop
  flush_loop-dead zero t c d = refl
  flush_loop-dead (suc n) t c d = rw (has_signals-dead t d, flush_loop)

  -- The rest of the loop after one round, for each label.
  loop_after :
      (n : ℕ) (t : Task) (c : Console)
      → IsQueue t
      → is_dead t.status ≡ false
      → t.signals_size ≡ suc n
      → ((u : Task) (c' : Console)
          → IsQueue u
          → is_dead u.status ≡ false
          → u.signals_size ≡ n
          → Agrees u
              (deliver current u.status u.paused
                (window task_sig_cap u.signals u.signals_read_head n))
              (flush_loop printf n current regs u c'))
      → (a : Action)
      → Agrees t
          (elim a [
            | die ↦
                if current == 0
                then none
                else some (record {
                  status = dead;
                  paused = t.paused;
                  rest = window task_sig_cap t.signals ((t.signals_read_head + 1) % task_sig_cap) n;
                })
            | go_on ↦
                deliver current t.status false
                  (window task_sig_cap t.signals ((t.signals_read_head + 1) % task_sig_cap) n)
            | stop ↦
                deliver current t.status true
                  (window task_sig_cap t.signals ((t.signals_read_head + 1) % task_sig_cap) n)
            | skip ↦
                deliver current t.status t.paused
                  (window task_sig_cap t.signals ((t.signals_read_head + 1) % task_sig_cap) n)
          ])
          (act printf a current regs (record t { signals_size = n }) c
            >>= (λ r. returned (advance_read r))
            >>= λ r. flush_loop printf n current regs r.0 r.1)
  unfolding act panic
  loop_after n t c q alive e ih die = elim (Bool-cases (current == 0)) [
    | inl init ↦ rw init refl
    | inr other ↦
        rw (other, flush_loop-dead n (record (taken n t) { status = dead }) c refl)
          (refl, refl, omega arith)
  ]
  loop_after n t c q alive e ih go_on =
      Agrees-weaken t (record (taken n t) { paused = false }) _ _ refl
        (ih (record (taken n t) { paused = false }) c (omega arith) alive refl)
  loop_after n t c q alive e ih stop =
      Agrees-weaken t (record (taken n t) { paused = true }) _ _ refl
        (ih (record (taken n t) { paused = true }) c (omega arith) alive refl)
  loop_after n t c q alive e ih skip =
      Agrees-weaken t (taken n t) _ _ refl (ih (taken n t) c (taken-IsQueue n t q e) alive refl)

  flush_loop-deliver :
      (n : ℕ) (t : Task) (c : Console)
      → IsQueue t
      → is_dead t.status ≡ false
      → t.signals_size ≡ n
      → Agrees t
          (deliver current t.status t.paused (window task_sig_cap t.signals t.signals_read_head n))
          (flush_loop printf n current regs t c)
  unfolding flush_loop flush_round
  flush_loop-deliver zero t c q alive e = (refl, rw e, q)
  flush_loop-deliver (suc n) t c q alive e =
      let one_less : t.signals_size - 1 ≡ n = omega arith in
      rw (has_signals-suc n t e alive, flush_loop)
        (rw one_less (
          loop_after n t (announce printf (signal_case (t.signals t.signals_read_head)).0 t.tty c) q
            alive e (flush_loop-deliver n) (action (t.signals t.signals_read_head))))

  -- __flush_signals on a live task with a valid ring agrees with the specification over the list
  -- of the signals that wait: it panics exactly when init is to die, and else returns with the
  -- status, the pause and the waiting signals that the specification gives and with all else as it
  -- was.
  pub flush_signals-deliver :
      (t : Task) (c : Console)
      → IsQueue t
      → is_dead t.status ≡ false
      → Agrees t
          (deliver current t.status t.paused (pending t))
          (flush_signals printf current regs t c)
  unfolding flush_signals
  flush_signals-deliver t c q alive = flush_loop-deliver t.signals_size t c q alive refl

  -- A dead task keeps its signals.
  pub flush_signals-dead :
      (t : Task) (c : Console)
      → is_dead t.status ≡ true
      → flush_signals printf current regs t c ≡ returned (t, c)
  unfolding flush_signals
  flush_signals-dead t c d = flush_loop-dead t.signals_size t c d

  -- The flush of a task other than init returns.
  pub flush_signals-returned :
      (t : Task) (c : Console)
      → IsQueue t
      → current ≢ 0
      → (r : Task × Console) × (flush_signals printf current regs t c ≡ returned r)
  flush_signals-returned t c q ne = elim (Bool-cases (is_dead t.status)) [
    | inl d ↦ ((t, c), flush_signals-dead t c d)
    | inr alive ↦
        let (h, some_h) = deliver-some current t.status t.paused (pending t) ne in
        go h (flush_signals printf current regs t c) refl (
          subst (λ o. Agrees t o (flush_signals printf current regs t c)) some_h
            (flush_signals-deliver t c q alive))
  ]
    where
      go :
          (h : Handled) (o : Result (Task × Console))
          → flush_signals printf current regs t c ≡ o
          → Agrees t (some h) o
          → (r : Task × Console) × (flush_signals printf current regs t c ≡ returned r)
      go h (returned r) e a = (r, e)
      go h (panicked msg c') e a = absurd a
      go h (halted c') e a = absurd a
