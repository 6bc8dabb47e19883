-- ===== src/Sched/Next.antt =====
-- `sched_next_task` as a whole: a context switch loses no register, and init keeps it from panicking.
use klyx.Prelude.{update_all, ℕ, ◌≡◌, ◌≢◌, ◌∙◌, refl, sym, ap, true, update_self, update_ne, arith}
use klyx.Machine.Regs.{IntRegs, save_regs, load_regs, load_regs-save_regs}
use klyx.Machine.Outcome.{returned, >>=-eq-returned}
use klyx.Sched.Task.{Task, Kernel, is_dead, tasks_cap}
use klyx.Sched.Flush.{Printf, flush_signals}
use klyx.Sched.Delivery.{flush_signals-dead}
use klyx.Console.State.{Console}
use klyx.Sched.Queue.{IsQueue, pending}
use klyx.Sched.Deliver.{IsDeadly}
use klyx.Sched.Killed.{flush_signals-IsDeadly}
use klyx.Sched.Switch.{set_task, flush_current, sched_next_task}
use klyx.Sched.Quiet.{AllQueues, flush_signals-fields}
use klyx.Sched.Robin.{Chosen, find_task-Chosen}

-- The first half of a switch: the registers are saved, then the signals of the task are handled.
pub record Saved (regs : IntRegs) (k k' : Kernel) : Type 0 where
  pub kept : (k'.tasks k.current_task).regs ≡ save_regs regs
  pub uid : (k'.tasks k.current_task).uid ≡ (k.tasks k.current_task).uid
  pub gid : (k'.tasks k.current_task).gid ≡ (k.tasks k.current_task).gid
  pub killed :
      IsDeadly (pending (k.tasks k.current_task)) → is_dead (k'.tasks k.current_task).status ≡ true
  pub stays_dead :
      is_dead (k.tasks k.current_task).status ≡ true
      → is_dead (k'.tasks k.current_task).status ≡ true
  pub others : (j : ℕ) → j ≢ k.current_task → k'.tasks j ≡ k.tasks j
  pub current : k'.current_task ≡ k.current_task
  pub queues : AllQueues k'
  pub memory : k'.memory ≡ k.memory

-- Both halves.
pub record Switched (regs : IntRegs) (k : Kernel) (regs' : IntRegs) (k' : Kernel) : Type 0 where
  pub middle : Kernel
  pub saved : Saved regs k middle
  pub chosen : Chosen tasks_cap middle regs' k'

-- The kernel after the copy of the registers.
abbrev pub with_saved : IntRegs → Kernel → Kernel
with_saved regs k =
    set_task k.current_task (record (k.tasks k.current_task) { regs = save_regs regs }) k

pub with_saved-AllQueues :
    (regs : IntRegs) (k : Kernel) → AllQueues k → AllQueues (with_saved regs k)
with_saved-AllQueues regs k q =
    update_all (λ j u. IsQueue u) k.tasks k.current_task
      (record (k.tasks k.current_task) { regs = save_regs regs }) (own_queue (q k.current_task)) q
  where
    own_queue :
        IsQueue (k.tasks k.current_task)
        → IsQueue (record (k.tasks k.current_task) { regs = save_regs regs })
    own_queue h = omega arith

module _ (printf : Printf) where
  -- A dead task stays dead.
  still_dead :
      (current : ℕ) (regs : IntRegs) (t : Task) (c : Console) {r : Task × Console}
      → is_dead t.status ≡ true
      → flush_signals printf current regs t c ≡ returned r
      → is_dead r.0.status ≡ true
  still_dead current regs t c {r} gone e =
      let kept : flush_signals printf current regs t c ≡ returned (t, c) =
        flush_signals-dead printf current regs t c gone in
      let same : r ≡ (t, c) = cc in rw same gone

  pub flush_current-Saved :
      (regs : IntRegs) (k : Kernel) {k' : Kernel}
      → AllQueues k
      → flush_current printf regs (with_saved regs k) ≡ returned k'
      → Saved regs k k'
  unfolding flush_current
  flush_current-Saved regs k {k'} q e =
      let (r, flushed, last) =
        >>=-eq-returned
          (flush_signals printf k.current_task regs ((with_saved regs k).tasks k.current_task)
            k.console)
          _ e in
      let same : k' ≡ record (set_task k.current_task r.0 (with_saved regs k)) { console = r.1 } =
        cc in
      let (hr, hu, hg, hq) =
        flush_signals-fields printf k.current_task regs self k.console
          (own_queue (q k.current_task))
          (rw (update_self k.tasks k.current_task self) at flushed) in
      let current = update_self (with_saved regs k).tasks k.current_task r.0 in
      rw same (record {
        kept = ap (λ u. u.regs) current ∙ hr;
        uid = ap (λ u. u.uid) current ∙ hu;
        gid = ap (λ u. u.gid) current ∙ hg;
        killed = λ deadly.
            ap (λ u. is_dead u.status) current
            ∙ flush_signals-IsDeadly printf k.current_task regs self k.console
                (own_queue (q k.current_task)) deadly
                (rw (update_self k.tasks k.current_task self) at flushed);
        stays_dead = λ gone.
            ap (λ u. is_dead u.status) current
            ∙ still_dead k.current_task regs self k.console gone
                (rw (update_self k.tasks k.current_task self) at flushed);
        others = λ j ne.
            update_ne (with_saved regs k).tasks k.current_task r.0 j ne
            ∙ update_ne k.tasks k.current_task self j ne;
        current = refl;
        queues =
            update_all (λ j u. IsQueue u) (with_saved regs k).tasks k.current_task r.0 hq
              (update_all (λ j u. IsQueue u) k.tasks k.current_task self
                (own_queue (q k.current_task)) q);
        memory = refl;
      })
    where
      self : Task
      self = record (k.tasks k.current_task) { regs = save_regs regs }

      own_queue : IsQueue (k.tasks k.current_task) → IsQueue self
      own_queue h = omega arith

  -- A switch that returns, from a kernel whose rings are valid, has saved the registers and
  -- handled the signals of the task that it leaves, which kills it if one of them does, and then
  -- has chosen the first runnable task behind it, passing only tasks that could not run and whose
  -- registers and owners it keeps.
  pub sched_next_task-Switched :
      (regs : IntRegs) (k : Kernel) {regs' : IntRegs} {k' : Kernel}
      → AllQueues k
      → sched_next_task printf regs k ≡ returned (regs', k')
      → Switched regs k regs' k'
  unfolding sched_next_task
  sched_next_task-Switched regs k q e =
      let (middle, flushed, found) =
        >>=-eq-returned (flush_current printf regs (with_saved regs k)) _ e in
      let saved = flush_current-Saved regs k q flushed in
      record {
        middle = middle;
        saved = saved;
        chosen = find_task-Chosen printf tasks_cap regs middle (omega arith) saved.queues found;
      }

  -- A switch that returns, from a kernel whose signal rings are valid, loses no register: the task
  -- that it leaves has the registers of the interrupt in its record, every other task has those
  -- that it had, and the interrupt returns with those of the task that it goes to, which are its
  -- own again if it goes back to the task that it left.
  pub sched_next_task-regs :
      (regs : IntRegs) (k : Kernel) {regs' : IntRegs} {k' : Kernel}
      → AllQueues k
      → sched_next_task printf regs k ≡ returned (regs', k')
      → ((k'.tasks k.current_task).regs ≡ save_regs regs)
        × ((j : ℕ) → j ≢ k.current_task → (k'.tasks j).regs ≡ (k.tasks j).regs)
        × (regs' ≡ load_regs (k'.tasks k'.current_task).regs)
        × (k'.current_task ≡ k.current_task → regs' ≡ regs)
  sched_next_task-regs regs k {regs'} {k'} q e =
      let s = sched_next_task-Switched regs k q e in
      let slept = s.chosen.quiet.slept in
      let left : (k'.tasks k.current_task).regs ≡ save_regs regs =
        (slept k.current_task).regs ∙ s.saved.kept in
      let loaded : regs' ≡ load_regs (k'.tasks k'.current_task).regs =
        s.chosen.loaded ∙ ap load_regs (sym (slept k'.current_task).regs) in
      (
        left,
        λ j ne. (slept j).regs ∙ ap (λ u. u.regs) (s.saved.others j ne),
        loaded,
        λ back.
            loaded
            ∙ ap (λ i. load_regs (k'.tasks i).regs) back
            ∙ ap load_regs left
            ∙ load_regs-save_regs regs,
      )
