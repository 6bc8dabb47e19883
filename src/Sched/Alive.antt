-- ===== src/Sched/Alive.antt =====
-- While init can run, `sched_next_task` never stops in `panic`.
use klyx.Prelude.{
  ℕ, zero, suc, ◌+◌, ◌≤◌, ◌<◌, ◌≡◌, ◌≢◌, refl, sym, subst, Bool, true, false, if◌then◌else◌, arith,
}
use klyx.Machine.Regs.{IntRegs, save_regs, load_regs}
use klyx.Machine.Outcome.{returned, ◌>>=◌}
use klyx.Sched.Task.{Kernel, is_dead, tasks_cap}
use klyx.Sched.Flush.{Printf, Result}
use klyx.Sched.Queue.{IsQueue}
use klyx.Sched.Delivery.{flush_signals-returned}
use klyx.Sched.Switch.{
  set_task, is_runnable, flush_current, flush_paused, try_slot, find_task, sched_next_task,
}
use klyx.Sched.Quiet.{AllQueues}
use klyx.Sched.Robin.{after, try_slot-Tried}
use klyx.Sched.Next.{with_saved, with_saved-AllQueues, flush_current-Saved}

-- The handler comes back.
abbrev pub Returns : {A : Type 0} → Result A → Type 0
Returns {A} r = (a : A) × (r ≡ returned a)

module _ (printf : Printf) where
  pub flush_current-Returns :
      (regs : IntRegs) (k : Kernel)
      → IsQueue (k.tasks k.current_task)
      → k.current_task ≢ 0
      → Returns (flush_current printf regs k)
  unfolding flush_current
  flush_current-Returns regs k q ne =
      let (r, e) =
        flush_signals-returned printf k.current_task regs (k.tasks k.current_task) k.console q ne in
      (record (set_task k.current_task r.0 k) { console = r.1 }, rw e)

  try_slot-Returns :
      (k : Kernel) → AllQueues k → is_runnable (k.tasks 0) ≡ true → Returns (try_slot printf k)
  unfolding try_slot flush_paused
  try_slot-Returns k q init =
      go (is_runnable (k.tasks (after k 1))) (is_dead (k.tasks (after k 1)).status) refl
    where
      k1 : Kernel
      k1 = record k { current_task = after k 1 }

      go :
          (b d : Bool)
          → is_runnable (k.tasks (after k 1)) ≡ b
          → Returns {A = Bool × Kernel} (
              if b
              then returned (true, k1)
              else if d
              then returned (false, k1)
              else flush_paused printf k1 >>= λ k2. returned (false, k2))
      go true d h = ((true, k1), refl)
      go false true h = ((false, k1), refl)
      go false false h =
          let ne : after k 1 ≢ 0 = λ z.
            let stuck : is_runnable (k.tasks 0) ≡ false =
              subst (λ i. is_runnable (k.tasks i) ≡ false) z h in
            cc in
          let (k2, e) =
            flush_current-Returns (load_regs (k.tasks (after k 1)).regs) k1 (q (after k 1)) ne in
          (
            (
              false,
              set_task k2.current_task
                  (record (k2.tasks k2.current_task) {
                    regs = save_regs (load_regs (k.tasks (after k 1)).regs);
                  })
                  k2,
            ),
            rw e,
          )

  find_task-Returns :
      (n : ℕ) (regs : IntRegs) (k : Kernel)
      → AllQueues k
      → is_runnable (k.tasks 0) ≡ true
      → k.current_task < tasks_cap
      → tasks_cap ≤ n + k.current_task
      → Returns (find_task printf n regs k)
  unfolding find_task
  find_task-Returns zero regs k q init lt fuel = absurd (omega arith)
  find_task-Returns (suc n) regs k q init lt fuel =
      let (r, e) = try_slot-Returns k q init in rw e (go r.0 r.1 e (find_task-Returns n regs r.1))
    where
      go :
          (found : Bool) (k1 : Kernel)
          → try_slot printf k ≡ returned (found, k1)
          → (AllQueues k1
              → is_runnable (k1.tasks 0) ≡ true
              → k1.current_task < tasks_cap
              → tasks_cap ≤ n + k1.current_task
              → Returns (find_task printf n regs k1))
          → Returns {A = IntRegs × Kernel} (elim found [
            | true ↦ returned (load_regs (k1.tasks k1.current_task).regs, k1)
            | false ↦ find_task printf n regs k1
          ])
      go true k1 e ih = ((load_regs (k1.tasks k1.current_task).regs, k1), refl)
      go false k1 e ih =
          let t = try_slot-Tried printf k q e in
          let moved : k1.current_task ≢ 0 = λ z.
            let stuck : is_runnable (k.tasks 0) ≡ false =
              subst (λ i. is_runnable (k.tasks i) ≡ false) z t.runnable in
            cc in
          ih t.quiet.queues (rw ((t.quiet.slept 0).runnable_stays init) init)
            (omega (arith, t.place)) (omega (arith, t.place))

  -- With valid rings, while init can run and another task of the table is current, a switch
  -- returns: it neither panics nor stops.
  pub sched_next_task-Returns :
      (regs : IntRegs) (k : Kernel)
      → AllQueues k
      → is_runnable (k.tasks 0) ≡ true
      → k.current_task < tasks_cap
      → k.current_task ≢ 0
      → Returns (sched_next_task printf regs k)
  unfolding sched_next_task
  sched_next_task-Returns regs k q init lt ne =
      let (middle, flushed) =
        flush_current-Returns regs (with_saved regs k)
          (with_saved-AllQueues regs k q k.current_task) ne in
      let s = flush_current-Saved printf regs k q flushed in
      let zero_ne : 0 ≢ k.current_task = λ z. ne (sym z) in
      let init' : is_runnable (middle.tasks 0) ≡ true = rw (s.others 0 zero_ne) init in
      let (r, found) =
        find_task-Returns tasks_cap regs middle s.queues init' (rw s.current lt) (omega arith) in
      (r, rw flushed found)
