-- ===== src/Tests/Sched.antt =====
-- The scheduler on the small machine: the second task is stopped by its signal and the third one runs.
use klyx.Prelude.{
  ℕ, ◌-◌, ◌≡◌, ◌≢◌, refl, true, false, update, leb, length, if◌then◌else◌, [], ◌∷◌, ◌++◌, arith,
}
use klyx.Machine.Regs.{IntRegs, save_regs, load_regs}
use klyx.Machine.Outcome.{returned}
use klyx.Sched.Signal.{sigkill}
use klyx.Sched.Task.{
  Task, Kernel, is_dead, task_sig_cap, fresh_task, enqueue_signal, sched_make_task,
}
use klyx.Sched.Flush.{flush_loop, flush_round, flush_signals, act, announce}
use klyx.Sched.Signal.{signal_case}
use klyx.Sched.Switch.{flush_current, try_slot, find_task, sched_next_task, is_runnable}
use klyx.Sched.Queue.{IsQueue, pending, pending-enqueue_signal, enqueue_signal-IsQueue}
use klyx.Sched.Deliver.{deliver}
use klyx.Sched.Delivery.{Agrees, flush_signals-deliver}
use klyx.Sched.Slots.{Made, sched_make_task-Made}
use klyx.Sched.Next.{Switched, sched_next_task-Switched, sched_next_task-regs}
use klyx.Sched.Alive.{Returns, sched_next_task-Returns}
use klyx.Sched.Mutex.{
  Shared, outside, test_lock, test_unlock, store, lock, unlock, Steps, done, begin_lock,
  begin_unlock, end_call, IsHeld, mutex-HoldsOn,
}
use klyx.Tests.World.{
  blank_console, print_mark, user_task, stopped_task, table, world, table-IsQueue, world-AllQueues,
  call,
}

-- What the second task is after its signal is handled.
abbrev asleep : Task
asleep = record stopped_task {
  regs = save_regs (call 4 0 0);
  paused = true;
  signals_size = 0;
  signals_read_head = 1;
}

abbrev switched : Kernel
switched = record (world 2) {
  tasks = update (update table 1 (record stopped_task { regs = save_regs (call 4 0 0) })) 1 asleep;
}

switch_runs :
    sched_next_task print_mark (call 4 0 0) (world 1)
    ≡ returned (load_regs user_task.regs, switched)
unfolding sched_next_task flush_current flush_signals flush_loop flush_round act announce
    signal_case find_task try_slot enqueue_signal fresh_task
switch_runs = refl

sched_next_task-regs_example :
    ((switched.tasks 1).regs ≡ save_regs (call 4 0 0))
    × ((j : ℕ) → j ≢ 1 → (switched.tasks j).regs ≡ (table j).regs)
    × (load_regs user_task.regs ≡ load_regs (switched.tasks 2).regs)
    × (switched.current_task ≡ (world 1).current_task → load_regs user_task.regs ≡ call 4 0 0)
sched_next_task-regs_example =
    sched_next_task-regs print_mark (call 4 0 0) (world 1) (world-AllQueues 1) switch_runs

sched_next_task-Switched_example :
    Switched (call 4 0 0) (world 1) (load_regs user_task.regs) switched
sched_next_task-Switched_example =
    sched_next_task-Switched print_mark (call 4 0 0) (world 1) (world-AllQueues 1) switch_runs

-- Two signals wait: one that stops the task and one that kills it.
abbrev doomed_task : Task
doomed_task = enqueue_signal stopped_task sigkill

doomed_task-IsQueue : IsQueue doomed_task
doomed_task-IsQueue = enqueue_signal-IsQueue stopped_task sigkill (table-IsQueue 1)

doomed_task-alive : is_dead doomed_task.status ≡ false
unfolding enqueue_signal fresh_task
doomed_task-alive = refl

flush_signals-deliver_example :
    Agrees doomed_task
      (deliver 1 doomed_task.status doomed_task.paused (pending doomed_task))
      (flush_signals print_mark 1 (call 4 0 0) doomed_task blank_console)
flush_signals-deliver_example =
    flush_signals-deliver print_mark 1 (call 4 0 0) doomed_task blank_console doomed_task-IsQueue
      doomed_task-alive

init_runs : is_runnable (table 0) ≡ true
unfolding fresh_task
init_runs = refl

sched_next_task-Returns_example :
    Returns {A = IntRegs × Kernel} (sched_next_task print_mark (call 4 0 0) (world 1))
sched_next_task-Returns_example =
    sched_next_task-Returns print_mark (call 4 0 0) (world 1) (world-AllQueues 1) init_runs
      (omega arith) (omega arith)

sched_make_task-Made_example :
    Made
      (world 1)
      (λ pid. fresh_task pid 4096 0 0 0 8 16 true)
      (sched_make_task 4096 0 0 0 8 16 true (world 1))
sched_make_task-Made_example = sched_make_task-Made 4096 0 0 0 8 16 true (world 1)

pending-enqueue_signal_example : pending (enqueue_signal stopped_task sigkill) ≡ (
    if leb (task_sig_cap - 1) (length (pending stopped_task))
    then pending stopped_task
    else pending stopped_task ++ (sigkill ∷ []))
pending-enqueue_signal_example = pending-enqueue_signal stopped_task sigkill (table-IsQueue 1)

enqueue_signal-IsQueue_example : IsQueue (enqueue_signal stopped_task sigkill)
enqueue_signal-IsQueue_example = enqueue_signal-IsQueue stopped_task sigkill (table-IsQueue 1)

-- Task 2 holds a mutex.
abbrev held : Shared
held = record { mutex = 2; point = λ t. outside }

-- Task 1 begins to lock and is stopped; task 3 tries to unlock; both end their calls.
tried :
    Steps held (store 3 (store 1 (test_unlock 3 (test_lock 1 held)))) ((1, lock) ∷ (3, unlock) ∷ [])
unfolding test_lock
tried = begin_lock 1 refl (begin_unlock 3 refl (end_call 1 (end_call 3 done)))

mutex-HoldsOn_example : IsHeld 2 (store 3 (store 1 (test_unlock 3 (test_lock 1 held))))
mutex-HoldsOn_example =
    mutex-HoldsOn 2 (omega arith) (record { holder = refl; settled = λ t. refl }) (omega arith, tt)
      tried
