-- ===== src/System/Valid.antt =====
-- The state that the kernel keeps, whatever handler runs, and the handlers that switch tasks.
use klyx.Prelude.{
  ℕ, ◌%◌, ◌^◌, ◌<◌, ◌≡◌, refl, sym, subst, Bool, true, false, List, [], ◌∷◌, String, update_all,
  if◌then◌else◌, arith,
}
use klyx.Machine.Regs.{IntRegs}
use klyx.Machine.Outcome.{returned, panicked, halted}
use klyx.Console.State.{Console}
use klyx.Console.Tty.{con_putchar}
use klyx.Console.Sound.{IsSound, con_putchar-IsSound}
use klyx.Sched.Task.{Task, Kernel, is_dead, tasks_cap, enqueue_signal, sched_kill_task}
use klyx.Sched.Flush.{Arg, Printf, Result, panic}
use klyx.Sched.Queue.{enqueue_signal-status, IsQueue, enqueue_signal-IsQueue}
use klyx.Sched.Switch.{set_task, sched_next_task, sched_start_tasking}
use klyx.Sched.Quiet.{AllQueues}
use klyx.Sched.Next.{sched_next_task-Switched}
use klyx.Sched.Init.{HasInit, sched_next_task-HasInit}
use klyx.Sched.Printed.{left, panic-keeps, sched_next_task-keeps}

-- The signal rings are valid, a task of the table is current, init is not dead, and the consoles are
-- sound.
pub record IsValid (k : Kernel) : Type 0 where
  pub queues : AllQueues k
  pub current : k.current_task < tasks_cap
  pub init : HasInit k
  pub console : IsSound k.console

-- A handler that returns leaves a valid kernel; one that ends in `panic` or in `for(;;)` leaves sound
-- consoles.
abbrev pub LeavesValid : Result (IntRegs × Kernel) → Type 0
LeavesValid (returned (regs, k)) = IsValid k
LeavesValid (panicked msg c) = IsSound c
LeavesValid (halted c) = IsSound c

pub LeavesValid-if :
    (b : Bool) (x y : Result (IntRegs × Kernel))
    → LeavesValid x
    → LeavesValid y
    → LeavesValid (if b then x else y)
LeavesValid-if true x y p q = p
LeavesValid-if false x y p q = q

-- `con_putchar` for each character.
unfoldable pub puts : (tty : ℕ) → List ℕ → Console → Console
puts tty [] c = c
puts tty (ch ∷ s) c = puts tty s (con_putchar tty ch c)

-- What the kernel relies on of `printf`: it only prints characters, by `con_putchar`.
abbrev pub Prints : Printf → Type 0
Prints printf =
    (tty : ℕ) (format : String) (args : List Arg) (c : Console)
    → (s : List ℕ) × (printf tty format args c ≡ puts tty s c)

puts-IsSound : (tty : ℕ) (s : List ℕ) (c : Console) → IsSound c → IsSound (puts tty s c)
unfolding puts
puts-IsSound tty [] c h = h
puts-IsSound tty (ch ∷ s) c h =
    puts-IsSound tty s (con_putchar tty ch c) (con_putchar-IsSound tty ch c h)

-- A write of one record of the table.
pub set_task-IsValid :
    (k : Kernel) (pid : ℕ) (t : Task)
    → IsValid k
    → IsQueue t
    → (pid ≡ 0 → is_dead t.status ≡ false)
    → IsValid (set_task pid t k)
set_task-IsValid k pid t v q alive = record {
  queues = update_all (λ j u. IsQueue u) k.tasks pid t q v.queues;
  current = v.current;
  init =
      update_all (λ j u. j ≡ 0 → is_dead u.status ≡ false) k.tasks pid t alive
        (λ j first. subst (λ i. is_dead (k.tasks i).status ≡ false) (sym first) v.init) 0 refl;
  console = v.console;
}

-- Other consoles.
pub set_console-IsValid :
    (k : Kernel) (c : Console) → IsValid k → IsSound c → IsValid (record k { console = c })
set_console-IsValid k c v s = record {
  queues = v.queues;
  current = v.current;
  init = v.init;
  console = s;
}

pub sched_kill_task-IsValid :
    (pid sig : ℕ) (k : Kernel) → IsValid k → IsValid (sched_kill_task pid sig k)
unfolding sched_kill_task
sched_kill_task-IsValid pid sig k v =
    set_task-IsValid k pid (enqueue_signal (k.tasks pid) (sig % 2 ^ 8)) v
      (enqueue_signal-IsQueue (k.tasks pid) (sig % 2 ^ 8) (v.queues pid))
      (λ first.
        rw (enqueue_signal-status (k.tasks pid) (sig % 2 ^ 8))
          (subst (λ i. is_dead (k.tasks i).status ≡ false) (sym first) v.init))

module _ (printf : Printf) (prints : Prints printf) where
  pub printf-IsSound :
      (tty : ℕ) (format : String) (args : List Arg) (c : Console)
      → IsSound c
      → IsSound (printf tty format args c)
  printf-IsSound tty format args c h =
      let (s, e) = prints tty format args c in rw e (puts-IsSound tty s c h)

  pub panic-LeavesValid :
      (msg : String) (regs : IntRegs) (tty : ℕ) (c : Console)
      → IsSound c
      → LeavesValid (panic printf msg regs tty c)
  unfolding panic
  panic-LeavesValid msg regs tty c h =
      panic-keeps printf IsSound printf-IsSound {A = Console} (λ c'. c') msg regs tty c h

  pub sched_next_task-LeavesValid :
      (regs : IntRegs) (k : Kernel) → IsValid k → LeavesValid (sched_next_task printf regs k)
  sched_next_task-LeavesValid regs k v =
      go (sched_next_task printf regs k) refl
        (sched_next_task-keeps printf IsSound printf-IsSound regs k v.console)
    where
      go :
          (o : Result (IntRegs × Kernel))
          → sched_next_task printf regs k ≡ o
          → IsSound (left (λ r. r.1.console) o)
          → LeavesValid o
      go (returned (regs', k')) e h =
          let s = sched_next_task-Switched printf regs k v.queues e in
          record {
            queues = s.chosen.quiet.queues;
            current = rw s.chosen.place (omega arith);
            init = sched_next_task-HasInit printf regs k v.queues v.init e;
            console = h;
          }
      go (panicked msg c) e h = h
      go (halted c) e h = h

  pub sched_start_tasking-LeavesValid :
      (regs : IntRegs) (k : Kernel) → IsValid k → LeavesValid (sched_start_tasking printf regs k)
  unfolding sched_start_tasking
  sched_start_tasking-LeavesValid regs k v =
      LeavesValid-if (is_dead (k.tasks 0).status) _ _
        (panic-LeavesValid "Kernel panic: init is not loaded." regs (k.tasks 0).tty k.console
          v.console)
        (record { queues = v.queues; current = omega arith; init = v.init; console = v.console })
