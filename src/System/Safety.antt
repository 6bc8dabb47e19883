-- ===== src/System/Safety.antt =====
-- The debugger, single events and runs of them, and the validity of the kernel.
use klyx.Prelude.{ℕ, zero, suc, ◌-◌, ◌≡◌, refl, Bool, List, [], ◌∷◌, Option, none, some, update}
use klyx.Machine.Regs.{IntRegs}
use klyx.Machine.Outcome.{returned, panicked, halted, ◌>>=◌}
use klyx.Console.State.{Console, enobufs}
use klyx.Console.Keyboard.{Scan}
use klyx.Console.Tty.{ReadResult, tty_read}
use klyx.Console.Sound.{IsSound, with_errno-IsSound}
use klyx.Console.Invariant.{int_keyboard-IsSound, tty_read-IsSound}
use klyx.Sched.Task.{Kernel, tasks_cap, find_dead, fresh_task, sched_make_task}
use klyx.Sched.Flush.{Printf, Result, dumped}
use klyx.Sched.Queue.{fresh_task-IsQueue}
use klyx.Sched.Printed.{left}
use klyx.Traps.Syscall.{self}
use klyx.Traps.Debug.{
  Command, help, show_regs, peek, cont, line_cap, parse_command, apply_command, print_command,
  debug_loop, breakpoint,
}
use klyx.System.Valid.{
  IsValid, LeavesValid, Prints, printf-IsSound, set_task-IsValid, set_console-IsValid,
}
use klyx.System.Calls.{
  set_memory-IsValid, set_owner-IsValid, syscall_handler-LeavesValid, int_timer-LeavesValid,
  run_entry-LeavesValid,
}
use klyx.System.Events.{
  Event, timer, keyboard, syscall, exception, debug, make_task, print, own, store, int_breakpoint,
  handle, run,
}

-- The slot that `sched_make_task` takes may be any: a fresh task is not dead.
sched_make_task-IsValid :
    (eip tty fs gs cs generic_segment : ℕ) (yield_only : Bool) (k : Kernel)
    → IsValid k
    → IsValid (sched_make_task eip tty fs gs cs generic_segment yield_only k).1
unfolding sched_make_task fresh_task
sched_make_task-IsValid eip tty fs gs cs generic_segment yield_only k v =
    go (find_dead k.tasks tasks_cap 0)
  where
    go :
        (o : Option ℕ)
        → IsValid
            (elim o as (λ _. ℕ × Kernel) [
              | some pid ↦ (
                pid,
                record k {
                  tasks =
                      update k.tasks pid
                        (fresh_task pid eip tty fs gs cs generic_segment yield_only);
                },
              )
              | none ↦ (0, record k { console = record (k.console) { errno = enobufs } })
            ]).1
    go (some pid) =
        set_task-IsValid k pid (fresh_task pid eip tty fs gs cs generic_segment yield_only) v
          (fresh_task-IsQueue pid eip tty fs gs cs generic_segment yield_only) (λ first. refl)
    go none = set_console-IsValid k _ v (with_errno-IsSound enobufs k.console v.console)

abbrev of_debug : IntRegs × Console → Console
of_debug r = r.1

module _ (printf : Printf) (prints : Prints printf) where
  print_command-IsSound :
      (m : ℕ → ℕ) (tty : ℕ) (cmd : Command) (regs : IntRegs) (c : Console)
      → IsSound c
      → IsSound (print_command printf m tty cmd regs c)
  unfolding print_command
  print_command-IsSound m tty help regs c h = printf-IsSound printf prints tty _ _ c h
  print_command-IsSound m tty show_regs regs c h = printf-IsSound printf prints tty _ _ c h
  print_command-IsSound m tty (peek a) regs c h = printf-IsSound printf prints tty _ _ c h
  print_command-IsSound m tty _ regs c h = h

  debug_loop-IsSound :
      (m : ℕ → ℕ) (tty lines : ℕ) (rounds : List (List Scan)) (regs : IntRegs) (c : Console)
      → IsSound c
      → IsSound (left of_debug (debug_loop printf m tty lines rounds regs c))
  unfolding debug_loop
  debug_loop-IsSound m tty zero rounds regs c h = h
  debug_loop-IsSound m tty (suc lines) rounds regs c h =
      go (tty_read prompt tty (λ _. 0) (line_cap - 1) rounds)
        (λ r e.
          tty_read-IsSound prompt tty (λ _. 0) (line_cap - 1) rounds
            (printf-IsSound printf prints tty "DBG$ " [] c h) e)
        refl (debug_loop-IsSound m tty lines)
    where
      prompt : Console
      prompt = printf tty "DBG$ " [] c

      go :
          (o : Option ReadResult)
          → ((r : ReadResult)
              → tty_read prompt tty (λ _. 0) (line_cap - 1) rounds ≡ some r
              → IsSound r.console)
          → tty_read prompt tty (λ _. 0) (line_cap - 1) rounds ≡ o
          → ((rs : List (List Scan)) (regs' : IntRegs) (c' : Console)
              → IsSound c'
              → IsSound (left of_debug (debug_loop printf m tty lines rs regs' c')))
          → IsSound (
              left of_debug (elim o [
                | none ↦ halted c
                | some r ↦ elim (parse_command r.buf) [
                  | cont ↦ returned (regs, r.console)
                  | other ↦
                      debug_loop printf m tty lines r.rest
                        (apply_command other regs)
                        (print_command printf m tty other regs r.console)
                ]
              ]))
      go none sound e ih = h
      go (some r) sound e ih = after (parse_command r.buf)
        where
          after :
              (cmd : Command)
              → IsSound (
                  left of_debug (elim cmd [
                    | cont ↦ returned (regs, r.console)
                    | other ↦
                        debug_loop printf m tty lines r.rest
                          (apply_command other regs)
                          (print_command printf m tty other regs r.console)
                  ]))
          after cont = sound r e
          after other = ih r.rest _ _ (print_command-IsSound m tty other regs r.console (sound r e))

  pub int_breakpoint-LeavesValid :
      (lines : ℕ) (rounds : List (List Scan)) (regs : IntRegs) (k : Kernel)
      → IsValid k
      → LeavesValid (int_breakpoint printf lines rounds regs k)
  unfolding int_breakpoint breakpoint
  int_breakpoint-LeavesValid lines rounds regs k v = go _ (
      debug_loop-IsSound k.memory (self k).tty lines rounds regs _
        (printf-IsSound printf prints (self k).tty _ (dumped regs) k.console v.console))
    where
      go :
          (o : Result (IntRegs × Console))
          → IsSound (left of_debug o)
          → LeavesValid (o >>= λ r. returned (r.0, record k { console = r.1 }))
      go (returned r) h = set_console-IsValid k r.1 v h
      go (panicked msg c) h = h
      go (halted c) h = h

  handle-LeavesValid :
      (e : Event) (regs : IntRegs) (k : Kernel) → IsValid k → LeavesValid (handle printf e regs k)
  unfolding handle
  handle-LeavesValid (timer env) regs k v = int_timer-LeavesValid printf prints regs env k v
  handle-LeavesValid (keyboard scan) regs k v =
      set_console-IsValid k _ v (int_keyboard-IsSound scan k.console v.console)
  handle-LeavesValid (syscall env) regs k v = syscall_handler-LeavesValid printf prints regs env k v
  handle-LeavesValid (exception entry) regs k v = run_entry-LeavesValid printf prints regs entry k v
  handle-LeavesValid (debug lines rounds) regs k v =
      int_breakpoint-LeavesValid lines rounds regs k v
  handle-LeavesValid (make_task eip tty fs gs cs generic_segment yield_only) regs k v =
      sched_make_task-IsValid eip tty fs gs cs generic_segment yield_only k v
  handle-LeavesValid (print format args) regs k v =
      set_console-IsValid k _ v
        (printf-IsSound printf prints (self k).tty format args k.console v.console)
  handle-LeavesValid (own uid gid) regs k v = set_owner-IsValid k uid gid v
  handle-LeavesValid (store m) regs k v = set_memory-IsValid k m v

  pub run-LeavesValid :
      (events : List (Event × IntRegs)) (regs : IntRegs) (k : Kernel)
      → IsValid k
      → LeavesValid (run printf events regs k)
  unfolding run
  run-LeavesValid [] regs k v = v
  run-LeavesValid ((e, found) ∷ events) regs k v =
      go (handle printf e found k) (handle-LeavesValid e found k v) (run-LeavesValid events)
    where
      go :
          (o : Result (IntRegs × Kernel))
          → LeavesValid o
          → ((regs' : IntRegs) (k' : Kernel)
              → IsValid k'
              → LeavesValid (run printf events regs' k'))
          → LeavesValid (o >>= λ r. run printf events r.0 r.1)
      go (returned (regs', k')) h ih = ih regs' k' h
      go (panicked msg c) h ih = h
      go (halted c) h ih = h
