-- ===== src/Sched/Printed.antt =====
-- The consoles under kernel/sched.c, through any property of them that `printf` keeps.
use klyx.Prelude.{
  ℕ, zero, suc, ◌+◌, ◌-◌, ◌%◌, Bool, true, false, Option, none, some, String, ◌==◌, List, [],
  if◌then◌else◌,
}
use klyx.Machine.Regs.{IntRegs, save_regs, load_regs}
use klyx.Machine.Outcome.{returned, panicked, halted, ◌>>=◌}
use klyx.Console.State.{Console}
use klyx.Sched.Signal.{Action, die, go_on, stop, skip, signal_case}
use klyx.Sched.Task.{Task, Kernel, is_dead, tasks_cap}
use klyx.Sched.Flush.{
  Arg, Printf, Result, print_rule, panic, act, announce, advance_read, flush_round, flush_loop,
  flush_signals, has_signals,
}
use klyx.Sched.Switch.{
  is_runnable, set_task, flush_current, flush_paused, try_slot, find_task, sched_next_task,
  sched_start_tasking,
}

-- The consoles at the end, however a handler ends.
abbrev pub left : {A : Type 0} → (A → Console) → Result A → Console
left get (returned a) = get a
left get (panicked msg c) = c
left get (halted c) = c

abbrev of_kernel : Kernel → Console
of_kernel k = k.console

abbrev of_result : IntRegs × Kernel → Console
of_result r = r.1.console

-- Those of the kernel a handler returns with.
abbrev pub left_by : Result (IntRegs × Kernel) → Console
left_by r = left of_result r

abbrev of_task : Task × Console → Console
of_task r = r.1

abbrev of_slot : Bool × Kernel → Console
of_slot r = r.1.console

module _ (printf : Printf) (P : Console → Type 0)
    (keeps : (tty : ℕ) (format : String) (args : List Arg) (c : Console)
      → P c
      → P (printf tty format args c)) where
  -- A chain: each step from consoles that `P` holds of.
  left->>= :
      {A B : Type 0} (get : A → Console) (give : B → Console) (m : Result A) (f : A → Result B)
      → P (left get m)
      → ((a : A) → P (get a) → P (left give (f a)))
      → P (left give (m >>= f))
  left->>= get give (returned a) f p h = h a p
  left->>= get give (panicked msg c) f p h = p
  left->>= get give (halted c) f p h = p

  pub left-if :
      {A : Type 0} (get : A → Console) (b : Bool) (x y : Result A)
      → P (left get x)
      → P (left get y)
      → P (left get (if b then x else y))
  left-if get true x y p q = p
  left-if get false x y p q = q

  print_rule-keeps : (tty n : ℕ) (c : Console) → P c → P (print_rule printf tty n c)
  unfolding print_rule
  print_rule-keeps tty zero c p = p
  print_rule-keeps tty (suc n) c p =
      print_rule-keeps tty n (printf tty "-" [] c) (keeps tty "-" [] c p)

  pub panic-keeps :
      {A : Type 0} (get : A → Console) (msg : String) (regs : IntRegs) (tty : ℕ) (c : Console)
      → P c
      → P (left get (panic printf {A = A} msg regs tty c))
  unfolding panic
  panic-keeps get msg regs tty c p =
      keeps tty _ _ _ (keeps tty _ _ _ (print_rule-keeps tty 80 _ (keeps tty _ _ c p)))

  act-keeps :
      (a : Action) (current : ℕ) (regs : IntRegs) (t : Task) (c : Console)
      → P c
      → P (left of_task (act printf a current regs t c))
  unfolding act
  act-keeps die current regs t c p =
      left-if of_task (current == 0) _ _ (panic-keeps of_task _ regs t.tty c p) p
  act-keeps go_on current regs t c p = p
  act-keeps stop current regs t c p = p
  act-keeps skip current regs t c p = p

  announce-keeps :
      (msg : Option String) (tty : ℕ) (c : Console) → P c → P (announce printf msg tty c)
  unfolding announce
  announce-keeps none tty c p = p
  announce-keeps (some msg) tty c p = keeps tty msg [] c p

  flush_round-keeps :
      (current : ℕ) (regs : IntRegs) (t : Task) (c : Console)
      → P c
      → P (left of_task (flush_round printf current regs t c))
  unfolding flush_round
  flush_round-keeps current regs t c p =
      let (msg, action) = signal_case (t.signals t.signals_read_head) in
      let t1 = record t { signals_size = t.signals_size - 1 } in
      left->>= of_task of_task (act printf action current regs t1 (announce printf msg t.tty c))
        (λ r. returned (advance_read r))
        (act-keeps action current regs t1 _ (announce-keeps msg t.tty c p)) (λ r h. h)

  flush_loop-keeps :
      (n current : ℕ) (regs : IntRegs) (t : Task) (c : Console)
      → P c
      → P (left of_task (flush_loop printf n current regs t c))
  unfolding flush_loop
  flush_loop-keeps zero current regs t c p = p
  flush_loop-keeps (suc n) current regs t c p = go (has_signals t) (flush_loop-keeps n current regs)
    where
      go :
          (b : Bool)
          → ((u : Task) (c' : Console)
              → P c'
              → P (left of_task (flush_loop printf n current regs u c')))
          → P (
              left of_task (elim b [
                | true ↦ flush_round printf current regs t c >>= λ r.
                    flush_loop printf n current regs r.0 r.1
                | false ↦ returned (t, c)
              ]))
      go true ih =
          left->>= of_task of_task (flush_round printf current regs t c)
            (λ r. flush_loop printf n current regs r.0 r.1) (flush_round-keeps current regs t c p)
            (λ r h. ih r.0 r.1 h)
      go false ih = p

  flush_current-keeps :
      (regs : IntRegs) (k : Kernel) → P k.console → P (left of_kernel (flush_current printf regs k))
  unfolding flush_current flush_signals
  flush_current-keeps regs k p =
      left->>= of_task of_kernel
        (flush_signals printf k.current_task regs (k.tasks k.current_task) k.console)
        (λ r. returned (record (set_task k.current_task r.0 k) { console = r.1 }))
        (flush_loop-keeps _ k.current_task regs (k.tasks k.current_task) k.console p) (λ r h. h)

  flush_paused-keeps : (k : Kernel) → P k.console → P (left of_kernel (flush_paused printf k))
  unfolding flush_paused
  flush_paused-keeps k p =
      left->>= of_kernel of_kernel
        (flush_current printf (load_regs (k.tasks k.current_task).regs) k)
        (λ k'. returned (
          set_task k'.current_task
            (record (k'.tasks k'.current_task) {
              regs = save_regs (load_regs (k.tasks k.current_task).regs);
            })
            k'))
        (flush_current-keeps _ k p) (λ r h. h)

  try_slot-keeps : (k : Kernel) → P k.console → P (left of_slot (try_slot printf k))
  unfolding try_slot
  try_slot-keeps k p =
      left-if of_slot (is_runnable (k.tasks ((k.current_task + 1) % tasks_cap))) _ _ p (
        left-if of_slot (is_dead (k.tasks ((k.current_task + 1) % tasks_cap)).status) _ _ p (
          left->>= of_kernel of_slot
            (flush_paused printf (record k { current_task = (k.current_task + 1) % tasks_cap }))
            (λ k2. returned (false, k2)) (flush_paused-keeps _ p) (λ r h. h)))

  find_task-keeps :
      (n : ℕ) (regs : IntRegs) (k : Kernel) → P k.console → P (left_by (find_task printf n regs k))
  unfolding find_task
  find_task-keeps zero regs k p =
      panic-keeps of_result _ regs (k.tasks k.current_task).tty k.console p
  find_task-keeps (suc n) regs k p =
      left->>= of_slot of_result (try_slot printf k)
        (λ r. elim r.0 [
          | true ↦ returned (load_regs ((r.1).tasks (r.1).current_task).regs, r.1)
          | false ↦ find_task printf n regs r.1
        ])
        (try_slot-keeps k p) (λ r h. go r.0 r.1 (find_task-keeps n regs) h)
    where
      go :
          (b : Bool) (k1 : Kernel)
          → ((k' : Kernel) → P k'.console → P (left_by (find_task printf n regs k')))
          → P k1.console
          → P (
              left_by (elim b [
                | true ↦ returned (load_regs (k1.tasks k1.current_task).regs, k1)
                | false ↦ find_task printf n regs k1
              ]))
      go true k1 ih h = h
      go false k1 ih h = ih k1 h

  pub sched_next_task-keeps :
      (regs : IntRegs) (k : Kernel) → P k.console → P (left_by (sched_next_task printf regs k))
  unfolding sched_next_task
  sched_next_task-keeps regs k p =
      left->>= of_kernel of_result
        (flush_current printf regs
          (set_task k.current_task (record (k.tasks k.current_task) { regs = save_regs regs }) k))
        (find_task printf tasks_cap regs)
        (flush_current-keeps regs
          (set_task k.current_task (record (k.tasks k.current_task) { regs = save_regs regs }) k) p)
        (λ k1 h. find_task-keeps tasks_cap regs k1 h)

  pub sched_start_tasking-keeps :
      (regs : IntRegs) (k : Kernel) → P k.console → P (left_by (sched_start_tasking printf regs k))
  unfolding sched_start_tasking
  sched_start_tasking-keeps regs k p =
      left-if of_result (is_dead (k.tasks 0).status) _ _
        (panic-keeps of_result _ regs (k.tasks 0).tty k.console p) p
