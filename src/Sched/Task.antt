-- ===== src/Sched/Task.antt =====
-- `task_t` and the state that the kernel keeps, and the two operations on the task table that switch
-- nothing: `sched_make_task` and `sched_kill_task`.
use klyx.Prelude.{
  ℕ, zero, suc, ◌+◌, ◌-◌, ◌*◌, ◌%◌, ◌^◌, Bool, true, false, Option, none, some, update, leb,
  if◌then◌else◌,
}
use klyx.Machine.Regs.{Regs, no_regs}
use klyx.Machine.Memory.{Memory}
use klyx.Console.State.{Console, enobufs}

abbrev pub tasks_cap : ℕ
tasks_cap = 256

abbrev pub task_stack_cap : ℕ
task_stack_cap = 8192

abbrev pub tasks_stack_start : ℕ
tasks_stack_start = 0x40000000

abbrev pub task_sig_cap : ℕ
task_sig_cap = 64

pub data TaskStatus : Type 0 where
  dead new active : TaskStatus

-- `status == TASK_DEAD`.
abbrev pub is_dead : TaskStatus → Bool
is_dead dead = true
is_dead new = false
is_dead active = false

pub record Task : Type 0 where
  pub regs : Regs
  pub status : TaskStatus
  pub tty : ℕ
  pub parent : ℕ
  pub signals : ℕ → ℕ
  pub signal_handlers : ℕ → ℕ
  pub signals_write_head : ℕ
  pub signals_read_head : ℕ
  pub signals_size : ℕ
  pub paused : Bool
  pub yield_only : Bool
  pub uid : ℕ
  pub euid : ℕ
  pub suid : ℕ
  pub gid : ℕ
  pub egid : ℕ
  pub sgid : ℕ

-- The globals of kernel/sched.c, kernel/traps.c and the parts behind them.
pub record Kernel : Type 0 where
  pub tasks : ℕ → Task
  pub current_task : ℕ
  pub is_tasking_avaliable : Bool
  pub console : Console
  pub memory : Memory

-- A record after `memset` to 0: TASK_DEAD is 0.
abbrev pub no_task : Task
no_task = record {
  regs = no_regs;
  status = dead;
  tty = 0;
  parent = 0;
  signals = λ _. 0;
  signal_handlers = λ _. 0;
  signals_write_head = 0;
  signals_read_head = 0;
  signals_size = 0;
  paused = false;
  yield_only = false;
  uid = 0;
  euid = 0;
  suid = 0;
  gid = 0;
  egid = 0;
  sgid = 0;
}

-- The top of the stack of slot `pid`.
abbrev pub stack_top : ℕ → ℕ
stack_top pid = tasks_stack_start + task_stack_cap * pid

-- The record that `sched_make_task` fills in.
unfoldable pub fresh_task : (pid eip tty fs gs cs generic_segment : ℕ) → Bool → Task
fresh_task pid eip tty fs gs cs generic_segment yield_only = record no_task {
  regs = record no_regs {
    eip = eip;
    eflags = 0x206;
    fs = fs;
    gs = gs;
    cs = cs;
    ds = generic_segment;
    es = generic_segment;
    ss = generic_segment;
    esp = stack_top pid;
    ebp = stack_top pid;
  };
  status = new;
  tty = tty;
  yield_only = yield_only;
}

-- The first dead slot among the `left` slots from `pid` on.
unfoldable pub find_dead : (ℕ → Task) → (left pid : ℕ) → Option ℕ
find_dead tasks zero pid = none
find_dead tasks (suc left) pid =
    if is_dead (tasks pid).status then some pid else find_dead tasks left (pid + 1)

unfoldable pub sched_make_task : (eip tty fs gs cs generic_segment : ℕ) → Bool → Kernel → ℕ × Kernel
sched_make_task eip tty fs gs cs generic_segment yield_only k =
    elim (find_dead k.tasks tasks_cap 0) [
      | some pid ↦ (
        pid,
        record k {
          tasks = update k.tasks pid (fresh_task pid eip tty fs gs cs generic_segment yield_only);
        },
      )
      | none ↦ (0, record k { console = record (k.console) { errno = enobufs } })
    ]

-- The body of `sched_kill_task` on the record that `pid` names.
unfoldable pub enqueue_signal : Task → ℕ → Task
enqueue_signal task sig = if leb (task_sig_cap - 1) task.signals_size then task else record task {
  signals_size = task.signals_size + 1;
  signals = update task.signals task.signals_write_head sig;
  signals_write_head = (task.signals_write_head + 1) % task_sig_cap;
}

-- `sig_t` is one byte.
unfoldable pub sched_kill_task : ℕ → ℕ → Kernel → Kernel
sched_kill_task pid sig k = record k {
  tasks = update k.tasks pid (enqueue_signal (k.tasks pid) (sig % 2 ^ 8));
}
