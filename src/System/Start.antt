-- ===== src/System/Start.antt =====
-- The kernel behind `kernel_start` of kernel/main.c.
use klyx.Prelude.{
  ℕ, ◌≤◌, ◌<◌, ◌≡◌, refl, ap, true, false, List, some, update_all, lt→ltb, arith, [], ◌∷◌,
}
use klyx.Machine.Regs.{IntRegs, load_regs}
use klyx.Machine.Outcome.{returned, ◌>>=◌}
use klyx.Machine.Start.{Hardware}
use klyx.Console.State.{Writer, ttys_cap}
use klyx.Console.Output.{cells}
use klyx.Console.Ring.{IsRing}
use klyx.Console.Screen.{IsOnScreen}
use klyx.Sched.Task.{Task, Kernel, is_dead, tasks_cap, fresh_task}
use klyx.Sched.Flush.{Printf}
use klyx.Sched.Queue.{IsQueue, fresh_task-IsQueue}
use klyx.Sched.Switch.{sched_start_tasking}
use klyx.Sched.Quiet.{AllQueues}
use klyx.Traps.Syscall.{Env, sys_setup, syscall_handler}
use klyx.System.Valid.{IsValid, LeavesValid, Prints}
use klyx.Traps.Owners.{IsContained}
use klyx.System.Events.{Event, syscall, debug, print, run}
use klyx.System.Safety.{run-LeavesValid}
use klyx.System.Boot.{Symbols, kill_all, set_ttys, clear_screen, start_tasks, kernel_start}
use klyx.System.Filled.{IsFilled, kill_all-dead, kill_all-IsQueue, first_tasks, make_tasks-IsFilled}

-- What the start relies on of the globals, whatever else they hold: valid rings, cursors on the screen,
-- a displayed console whose copy is blank, and that no tasks run.
pub record IsFresh (k : Kernel) : Type 0 where
  pub queues : AllQueues k
  pub rings : (j : ℕ) → IsRing ((k.console).input j)
  pub cursors : (j : ℕ) → j < ttys_cap → IsOnScreen j k.console
  pub display : (k.console).current_tty_displ < ttys_cap
  pub blank : (i : ℕ) → i < cells → (k.console).vga_copies (k.console).current_tty_displ i ≡ 0
  pub waits : k.is_tasking_avaliable ≡ false

-- What the start leaves: the five tasks, no other task, and ttys 0 to 2 that write forward, 3 in reverse.
pub record Started (s : Symbols) (k : Kernel) : Type 0 where
  pub init : k.tasks 0 ≡ fresh_task 0 s.test_init 0 0 0 0x08 0x10 true
  pub first : k.tasks 1 ≡ fresh_task 1 s.test_a 0 0 0 0x08 0x10 false
  pub second : k.tasks 2 ≡ fresh_task 2 s.test_b 1 0 0 0x08 0x10 false
  pub third : k.tasks 3 ≡ fresh_task 3 s.test_a 2 0 0 0x08 0x10 false
  pub fourth : k.tasks 4 ≡ fresh_task 4 s.test_c 3 0 0 0x08 0x10 false
  pub no_other : (j : ℕ) → 5 ≤ j → j < tasks_cap → is_dead (k.tasks j).status ≡ true
  pub current : k.current_task ≡ 0
  pub tasking : k.is_tasking_avaliable ≡ true
  pub forward : (j : ℕ) → j < 3 → ((k.console).ttys j).write ≡ some Writer.con_putstr
  pub reverse : ((k.console).ttys 3).write ≡ some Writer.con_putstr_rev

abbrev cleared : Symbols → Kernel → Kernel
cleared s k = record k {
  tasks = kill_all tasks_cap 0 k.tasks;
  console = record (k.console) {
    con_addr = clear_screen (k.console).con_addr;
    ttys = set_ttys (k.console).ttys;
  };
}

-- The kernel behind the first system call.
abbrev running : Symbols → Kernel → Kernel
running s k = record k {
  tasks = first_tasks s (kill_all tasks_cap 0 k.tasks);
  current_task = 0;
  is_tasking_avaliable = true;
  console = record (k.console) {
    con_addr = clear_screen (k.console).con_addr;
    ttys = set_ttys (k.console).ttys;
    use_current_tty = false;
  };
}

killed-IsFilled : (tasks : ℕ → Task) → IsFilled 0 (kill_all tasks_cap 0 tasks)
killed-IsFilled tasks = record {
  taken = λ j lt. absurd (omega arith);
  free = λ j ge lt. kill_all-dead tasks_cap 0 tasks j (omega arith) (omega arith);
}

start_tasks-running :
    (s : Symbols) (k : Kernel)
    → start_tasks s k ≡ record (running s k) { is_tasking_avaliable = k.is_tasking_avaliable }
unfolding start_tasks
start_tasks-running s k =
    ap
      (λ (made : Kernel). record made {
        current_task = 0;
        console = record (made.console) { use_current_tty = false };
      })
      (make_tasks-IsFilled s (cleared s k) (killed-IsFilled k.tasks)).0

running-Started : (s : Symbols) (k : Kernel) → Started s (running s k)
unfolding set_ttys
running-Started s k = record {
  init = refl;
  first = refl;
  second = refl;
  third = refl;
  fourth = refl;
  no_other = (make_tasks-IsFilled s (cleared s k) (killed-IsFilled k.tasks)).1.free;
  current = refl;
  tasking = refl;
  forward = λ j lt. ground arith;
  reverse = refl;
}

running-IsValid : (s : Symbols) (k : Kernel) → IsFresh k → IsValid (running s k)
unfolding fresh_task
running-IsValid s k f = record {
  queues =
      update_all (λ j u. IsQueue u) _ 4 _ (fresh_task-IsQueue 4 s.test_c 3 0 0 0x08 0x10 false)
        (update_all (λ j u. IsQueue u) _ 3 _ (fresh_task-IsQueue 3 s.test_a 2 0 0 0x08 0x10 false)
          (update_all (λ j u. IsQueue u) _ 2 _ (fresh_task-IsQueue 2 s.test_b 1 0 0 0x08 0x10 false)
            (update_all (λ j u. IsQueue u) _ 1 _
              (fresh_task-IsQueue 1 s.test_a 0 0 0 0x08 0x10 false)
              (update_all (λ j u. IsQueue u) _ 0 _
                (fresh_task-IsQueue 0 s.test_init 0 0 0 0x08 0x10 true)
                (kill_all-IsQueue tasks_cap 0 k.tasks f.queues)))));
  current = omega arith;
  init = refl;
  console = record {
    rings = f.rings;
    cursors = f.cursors;
    display = f.display;
    shown = λ i lt. rw (lt→ltb i cells lt, f.blank i lt) refl;
  };
}

-- If the globals are as it relies on, kernel_start returns into test_init, with tasks running, and
-- leaves the five first tasks in slots 0 to 4 with their ttys, no other task, ttys 0 to 2 that
-- write forward and tty 3 in reverse, and a valid kernel.
pub kernel_start-Started :
    (printf : Printf) (env : Env) (s : Symbols) (mask : ℕ) (regs : IntRegs) (hw : Hardware)
    (k : Kernel)
    → IsFresh k
    → (r : IntRegs × Kernel) × ((kernel_start printf env s mask regs hw k).1 ≡ returned r)
      × (r.0.eip ≡ s.test_init)
      × Started s r.1
      × IsValid r.1
unfolding kernel_start syscall_handler sys_setup sched_start_tasking fresh_task load_regs
kernel_start-Started printf env s mask regs hw k f = (
  (load_regs (fresh_task 0 s.test_init 0 0 0 0x08 0x10 true).regs, running s k),
  rw (start_tasks-running s k) (rw f.waits refl),
  refl,
  running-Started s k,
  running-IsValid s k f,
)

-- An event that runs to its end before the next one comes: interrupts are off, or it writes no more than
-- one variable or record. The debugger and the printing of a task do not, and of the system calls those that
-- let interrupts in or store where their caller says.
abbrev pub IsWhole : Event → IntRegs → Type 0
IsWhole (syscall env) regs = IsContained regs
IsWhole (debug lines rounds) regs = ⊥
IsWhole (print format args) regs = ⊥
IsWhole _ regs = Unit

abbrev pub AreWhole : List (Event × IntRegs) → Type 0
AreWhole [] = Unit
AreWhole ((e, regs) ∷ events) = IsWhole e regs × AreWhole events

-- From the start of the kernel on, whatever timer interrupts, keys, faults and system calls come
-- in whatever order, with tasks made, owners set and memory outside the kernel's variables and
-- screen written in between, but no debugger, no printing by a task and none of tty_write,
-- tty_read, uname and time among them: every handler that returns leaves a valid kernel, with
-- valid signal rings, a current task of the table, init alive, valid keyboard rings, the cursors
-- on the screen, and a screen that shows the copy of the displayed console, and one that ends in
-- panic or in for(;;) leaves such consoles. This holds if printf only prints characters by
-- con_putchar and the globals are as the start relies on.
pub run-kernel_start :
    (printf : Printf) (env : Env) (s : Symbols) (mask : ℕ) (regs : IntRegs) (hw : Hardware)
    (k : Kernel)
    → Prints printf
    → IsFresh k
    → (events : List (Event × IntRegs)) → AreWhole events
    → LeavesValid ((kernel_start printf env s mask regs hw k).1 >>= λ r. run printf events r.0 r.1)
run-kernel_start printf env s mask regs hw k prints f events whole =
    let (r, e, entry, started, valid) = kernel_start-Started printf env s mask regs hw k f in
    rw e (run-LeavesValid printf prints events r.0 r.1 valid)
