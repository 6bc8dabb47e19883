-- ===== src/Sched/Init.antt =====
-- Slot 0, the task init, under a switch of tasks.
use klyx.Prelude.{
  ℕ, zero, suc, ◌≡◌, ◌∙◌, refl, sym, ap, subst, Bool, true, false, List, [], ◌∷◌, Option, none,
  some, ◌==◌, update, update_self, update_ne, if◌then◌else◌,
}
use native.Mathlib.Decide.{ℕ_discrete}
use klyx.Machine.Regs.{IntRegs, Regs, save_regs, load_regs}
use klyx.Machine.Outcome.{returned, panicked, halted, ◌>>=◌, >>=-eq-returned}
use klyx.Console.State.{Console}
use klyx.Sched.Signal.{Action, die, go_on, stop, skip}
use klyx.Sched.Task.{Task, TaskStatus, Kernel, dead, is_dead, tasks_cap}
use klyx.Sched.Flush.{Printf, Result, panic, flush_signals}
use klyx.Sched.Deliver.{Handled, action, deliver}
use klyx.Sched.Queue.{IsQueue, pending}
use klyx.Sched.Delivery.{Agrees, flush_signals-deliver}
use klyx.Sched.Switch.{
  set_task, is_runnable, flush_current, flush_paused, try_slot, find_task, sched_next_task,
}
use klyx.Sched.Quiet.{AllQueues}
use klyx.Sched.Robin.{after, try_slot-Tried}
use klyx.Sched.Next.{with_saved, with_saved-AllQueues, flush_current-Saved}

-- Init is in the table.
abbrev pub HasInit : Kernel → Type 0
HasInit k = is_dead (k.tasks 0).status ≡ false

-- The specification lets init out only as it came in.
deliver-init :
    (st : TaskStatus) (p : Bool) (sigs : List ℕ) {h : Handled}
    → deliver 0 st p sigs ≡ some h
    → h.status ≡ st
deliver-init st p [] e = cc
deliver-init st p (sig ∷ sigs) {h} e = go (λ b. deliver-init st b sigs) (action sig) e
  where
    go :
        ((b : Bool) → deliver 0 st b sigs ≡ some h → h.status ≡ st)
        → (a : Action)
        → elim a [
          | die ↦ if 0 == 0 then none else some (record { status = dead; paused = p; rest = sigs })
          | go_on ↦ deliver 0 st false sigs
          | stop ↦ deliver 0 st true sigs
          | skip ↦ deliver 0 st p sigs
        ]
          ≡ some h
        → h.status ≡ st
    go ih die f = cc
    go ih go_on f = ih false f
    go ih stop f = ih true f
    go ih skip f = ih p f

-- A write of the registers of a record.
set_regs-HasInit :
    (k : Kernel) (i : ℕ) (regs : Regs)
    → HasInit k
    → HasInit (set_task i (record (k.tasks i) { regs = regs }) k)
set_regs-HasInit k i regs alive = elim (ℕ_discrete i 0) [
  | yes init ↦ rw init (
      ap (λ u. is_dead u.status) (update_self k.tasks 0 (record (k.tasks 0) { regs = regs }))
      ∙ alive)
  | no other ↦
      ap (λ u. is_dead u.status)
        (update_ne k.tasks i (record (k.tasks i) { regs = regs }) 0 (λ z. other (sym z)))
      ∙ alive
]

module _ (printf : Printf) where
  flush_signals-init :
      (regs : IntRegs) (t : Task) (c : Console) {r : Task × Console}
      → IsQueue t
      → is_dead t.status ≡ false
      → flush_signals printf 0 regs t c ≡ returned r
      → is_dead r.0.status ≡ false
  flush_signals-init regs t c {r} q alive e =
      go (deliver 0 t.status t.paused (pending t)) refl _ e
        (flush_signals-deliver printf 0 regs t c q alive)
    where
      go :
          (h : Option Handled)
          → deliver 0 t.status t.paused (pending t) ≡ h
          → (o : Result (Task × Console)) → o ≡ returned r
          → Agrees t h o
          → is_dead r.0.status ≡ false
      go none d (returned s) f a = absurd a
      go none d (panicked msg c') f a = cc
      go none d (halted c') f a = absurd a
      go (some h) d (returned s) f a =
          let same : r ≡ s = cc in
          rw same (
            ap (λ u. is_dead u.status) a.0
            ∙ ap is_dead (deliver-init t.status t.paused (pending t) d)
            ∙ alive)
      go (some h) d (panicked msg c') f a = absurd a
      go (some h) d (halted c') f a = absurd a

  flush_current-HasInit :
      (regs : IntRegs) (k : Kernel) {k' : Kernel}
      → AllQueues k
      → HasInit k
      → flush_current printf regs k ≡ returned k'
      → HasInit k' × (k'.current_task ≡ k.current_task)
  unfolding flush_current
  flush_current-HasInit regs k {k'} q alive e =
      let (r, flushed, last) =
        >>=-eq-returned
          (flush_signals printf k.current_task regs (k.tasks k.current_task) k.console) _ e in
      let same : k' ≡ record (set_task k.current_task r.0 k) { console = r.1 } = cc in
      rw same (
        elim (ℕ_discrete k.current_task 0) [
          | yes init ↦
              ap (λ i. is_dead (update k.tasks i r.0 0).status) init
              ∙ ap (λ u. is_dead u.status) (update_self k.tasks 0 r.0)
              ∙ flush_signals-init regs (k.tasks 0) k.console (q 0) alive (
                  subst (λ i. flush_signals printf i regs (k.tasks i) k.console ≡ returned r) init
                    flushed)
          | no other ↦
              ap (λ u. is_dead u.status)
                (update_ne k.tasks k.current_task r.0 0 (λ z. other (sym z)))
              ∙ alive
        ],
        refl,
      )

  flush_paused-HasInit :
      (k : Kernel) {k' : Kernel}
      → AllQueues k
      → HasInit k
      → flush_paused printf k ≡ returned k'
      → HasInit k'
  unfolding flush_paused
  flush_paused-HasInit k {k'} q alive e =
      let vregs = load_regs (k.tasks k.current_task).regs in
      let (k1, flushed, last) = >>=-eq-returned (flush_current printf vregs k) _ e in
      let same : k'
          ≡ set_task k1.current_task (record (k1.tasks k1.current_task) { regs = save_regs vregs })
              k1 =
        cc in
      rw same (
        set_regs-HasInit k1 k1.current_task (save_regs vregs)
          (flush_current-HasInit vregs k q alive flushed).0)

  try_slot-HasInit :
      (k : Kernel) {found : Bool} {k' : Kernel}
      → AllQueues k
      → HasInit k
      → try_slot printf k ≡ returned (found, k')
      → HasInit k'
  unfolding try_slot
  try_slot-HasInit k {found} {k'} q alive e =
      go (is_runnable (k.tasks (after k 1))) (is_dead (k.tasks (after k 1)).status) e
    where
      k1 : Kernel
      k1 = record k { current_task = after k 1 }

      go :
          (b d : Bool)
          → ◌≡◌ {A = Result (Bool × Kernel)}
              (if b
                then returned (true, k1)
                else if d
                then returned (false, k1)
                else flush_paused printf k1 >>= λ k2. returned (false, k2))
              (returned (found, k'))
          → HasInit k'
      go true d h = let kernel : k' ≡ k1 = cc in rw kernel alive
      go false true h = let kernel : k' ≡ k1 = cc in rw kernel alive
      go false false h =
          let (k2, flushed, last) = >>=-eq-returned (flush_paused printf k1) _ h in
          let kernel : k' ≡ k2 = cc in rw kernel (flush_paused-HasInit k1 q alive flushed)

  find_task-HasInit :
      (n : ℕ) (regs : IntRegs) (k : Kernel) {regs' : IntRegs} {k' : Kernel}
      → AllQueues k
      → HasInit k
      → find_task printf n regs k ≡ returned (regs', k')
      → HasInit k'
  unfolding find_task panic
  find_task-HasInit zero regs k q alive e = cc
  find_task-HasInit (suc n) regs k {regs'} {k'} q alive e =
      let (r, tried, rest) = >>=-eq-returned (try_slot printf k) _ e in
      go r.0 r.1 (try_slot-HasInit k q alive tried) rest
        (find_task-HasInit n regs r.1 (try_slot-Tried printf k q tried).quiet.queues)
    where
      go :
          (found : Bool) (k1 : Kernel)
          → HasInit k1
          → elim found [
            | true ↦ returned (load_regs (k1.tasks k1.current_task).regs, k1)
            | false ↦ find_task printf n regs k1
          ]
            ≡ returned (regs', k')
          → (HasInit k1 → find_task printf n regs k1 ≡ returned (regs', k') → HasInit k')
          → HasInit k'
      go true k1 alive1 f ih = let kernel : k' ≡ k1 = cc in rw kernel alive1
      go false k1 alive1 f ih = ih alive1 f

  -- A switch leaves init in the table.
  pub sched_next_task-HasInit :
      (regs : IntRegs) (k : Kernel) {regs' : IntRegs} {k' : Kernel}
      → AllQueues k
      → HasInit k
      → sched_next_task printf regs k ≡ returned (regs', k')
      → HasInit k'
  unfolding sched_next_task
  sched_next_task-HasInit regs k q alive e =
      let (k1, flushed, found) =
        >>=-eq-returned (flush_current printf regs (with_saved regs k)) _ e in
      find_task-HasInit tasks_cap regs k1 (flush_current-Saved printf regs k q flushed).queues
        (flush_current-HasInit regs (with_saved regs k) (with_saved-AllQueues regs k q)
          (set_regs-HasInit k k.current_task (save_regs regs) alive) flushed).0
        found
