-- ===== src/Tests/Resume.antt =====
-- The timer leaves init for the third task, whose call of yield goes back.
use klyx.Prelude.{update, update_all, ◌≡◌, refl, arith}
use klyx.Machine.Regs.{IntRegs, save_regs, load_regs}
use klyx.Machine.Outcome.{returned}
use klyx.Machine.Entry.{Words, push_all, regs_at, int_start, int_end, return_to}
use klyx.Sched.Queue.{IsQueue}
use klyx.Sched.Task.{Kernel, no_task, enqueue_signal, fresh_task}
use klyx.Sched.Signal.{signal_case}
use klyx.Sched.Flush.{flush_loop, flush_round, flush_signals, act, announce, Result}
use klyx.Sched.Switch.{flush_current, try_slot, find_task, sched_next_task}
use klyx.Sched.Quiet.{AllQueues}
use klyx.Sched.Next.{sched_next_task-Switched}
use klyx.Traps.Syscall.{int_timer, syscall_handler}
use klyx.Programs.Calls.{scn_yield}
use klyx.System.Interrupt.{write_words, interrupt}
use klyx.System.Resume.{interrupt-resumes}
use klyx.Tests.World.{
  print_mark, no_env, world, table, table-IsQueue, call, returned_or, returned_or-is_returned,
}

-- The registers of init, which has a stack, and those of the task that runs meanwhile.
abbrev of_init : IntRegs
of_init = record (call 1 2 3) { esp = 0x3FFFFF00 }

abbrev of_other : IntRegs
of_other = record (call scn_yield 5 6) { esp = 0x40004000 }

-- The small machine without its second task.
abbrev pair : Kernel
pair = record (world 0) { tasks = update table 1 no_task }

no_task-IsQueue : IsQueue no_task
no_task-IsQueue = omega arith

pair-AllQueues : AllQueues pair
pair-AllQueues = update_all (λ j u. IsQueue u) table 1 no_task no_task-IsQueue table-IsQueue

abbrev words : Words
words a = 0

abbrev first : Result (IntRegs × Words × Kernel)
first = interrupt (int_timer print_mark no_env) of_init words pair

abbrev away : IntRegs × Words × Kernel
away = returned_or (of_init, words, pair) first

abbrev second : Result (IntRegs × Words × Kernel)
second = interrupt (syscall_handler print_mark no_env) of_other words away.2

abbrev home : IntRegs × Words × Kernel
home = returned_or away second

leaves : first ≡ returned away
unfolding interrupt int_timer syscall_handler int_start int_end return_to push_all regs_at
    write_words sched_next_task flush_current try_slot find_task flush_signals flush_loop
    flush_round act announce signal_case enqueue_signal fresh_task save_regs load_regs
leaves = returned_or-is_returned (of_init, words, pair) first refl

comes_back : second ≡ returned home
unfolding interrupt int_timer syscall_handler int_start int_end return_to push_all regs_at
    write_words sched_next_task flush_current try_slot find_task flush_signals flush_loop
    flush_round act announce signal_case enqueue_signal fresh_task save_regs load_regs
comes_back = returned_or-is_returned away second refl

-- The switch inside the first interrupt.
abbrev switched : Result (IntRegs × Kernel)
switched = let s = int_start of_init words in sched_next_task print_mark (regs_at s.1 s.0) pair

switches : switched ≡ returned (returned_or (of_init, pair) switched)
unfolding interrupt int_timer syscall_handler int_start int_end return_to push_all regs_at
    write_words sched_next_task flush_current try_slot find_task flush_signals flush_loop
    flush_round act announce signal_case enqueue_signal fresh_task save_regs load_regs
switches = returned_or-is_returned (of_init, pair) switched refl

away-AllQueues : AllQueues away.2
unfolding interrupt int_timer syscall_handler int_start int_end return_to push_all regs_at
    write_words sched_next_task flush_current try_slot find_task flush_signals flush_loop
    flush_round act announce signal_case enqueue_signal fresh_task save_regs load_regs
away-AllQueues =
    let s = int_start of_init words in
    let went = sched_next_task-Switched print_mark (regs_at s.1 s.0) pair pair-AllQueues switches in
    went.chosen.quiet.queues

interrupt-resumes_example : home.0 ≡ of_init
unfolding interrupt int_timer syscall_handler int_start int_end return_to push_all regs_at
    write_words sched_next_task flush_current try_slot find_task flush_signals flush_loop
    flush_round act announce signal_case enqueue_signal fresh_task save_regs load_regs
interrupt-resumes_example =
    interrupt-resumes print_mark (int_timer print_mark no_env) of_init words pair
      (syscall_handler print_mark no_env) of_other words away.2 refl refl pair-AllQueues
      away-AllQueues (omega arith) (omega arith) (omega arith) (omega arith) leaves refl
      (λ e. omega arith) comes_back refl
