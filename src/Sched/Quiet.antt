-- ===== src/Sched/Quiet.antt =====
-- What the rounds of `sched_next_task` that choose no task do to the task table.
use klyx.Prelude.{
  update_all, ℕ, ◌≡◌, ◌≢◌, ◌∙◌, inl, inr, refl, ap, true, false, Option, none, some, update,
  update_self, update_ne, Bool-cases, arith,
}
use klyx.Machine.Regs.{IntRegs, save_regs, load_regs, save_regs-load_regs}
use klyx.Machine.Outcome.{returned, panicked, halted, ◌>>=◌}
use klyx.Console.State.{Console}
use klyx.Sched.Task.{Task, Kernel, is_dead}
use klyx.Sched.Flush.{Printf, Result, flush_signals}
use klyx.Sched.Queue.{IsQueue, pending}
use klyx.Sched.Deliver.{Handled, deliver}
use klyx.Sched.Delivery.{flush_signals-dead, Agrees, flush_signals-deliver}
use klyx.Sched.Switch.{set_task, is_runnable, flush_current, flush_paused}

-- Every signal ring of the table is valid.
abbrev pub AllQueues : Kernel → Type 0
AllQueues k = (pid : ℕ) → IsQueue (k.tasks pid)

-- How a round that chooses nothing may change a record: a task that could not run may have handled its
-- signals, which touches neither its registers nor its owner.
pub record Slept (t t' : Task) : Type 0 where
  pub regs : t'.regs ≡ t.regs
  pub uid : t'.uid ≡ t.uid
  pub gid : t'.gid ≡ t.gid
  pub dead_stays : is_dead t.status ≡ true → t' ≡ t
  pub runnable_stays : is_runnable t ≡ true → t' ≡ t

pub Slept-refl : (t : Task) → Slept t t
Slept-refl t = record {
  regs = refl;
  uid = refl;
  gid = refl;
  dead_stays = λ _. refl;
  runnable_stays = λ _. refl;
}

pub Slept-trans : {t u v : Task} → Slept t u → Slept u v → Slept t v
Slept-trans {t} {u} {v} a b = record {
  regs = b.regs ∙ a.regs;
  uid = b.uid ∙ a.uid;
  gid = b.gid ∙ a.gid;
  dead_stays = λ h. b.dead_stays (rw (a.dead_stays h) h) ∙ a.dead_stays h;
  runnable_stays = λ h. b.runnable_stays (rw (a.runnable_stays h) h) ∙ a.runnable_stays h;
}

-- A change of the kernel in which every record sleeps.
pub record Quiet (k k' : Kernel) : Type 0 where
  pub slept : (pid : ℕ) → Slept (k.tasks pid) (k'.tasks pid)
  pub queues : AllQueues k'
  pub memory : k'.memory ≡ k.memory
  pub tasking : k'.is_tasking_avaliable ≡ k.is_tasking_avaliable

pub Quiet-trans : {k l m : Kernel} → Quiet k l → Quiet l m → Quiet k m
Quiet-trans a b = record {
  slept = λ pid. Slept-trans (a.slept pid) (b.slept pid);
  queues = b.queues;
  memory = b.memory ∙ a.memory;
  tasking = b.tasking ∙ a.tasking;
}

module _ (printf : Printf) where
  -- A returned flush of a live task leaves a record that differs in the fields of signals alone.
  flush_alive-fields :
      (current : ℕ) (regs : IntRegs) (t : Task) (c : Console) {r : Task × Console}
      → IsQueue t
      → is_dead t.status ≡ false
      → flush_signals printf current regs t c ≡ returned r
      → (r.0.regs ≡ t.regs) × (r.0.uid ≡ t.uid) × (r.0.gid ≡ t.gid) × IsQueue r.0
  flush_alive-fields current regs t c q alive e =
      go (deliver current t.status t.paused (pending t)) _ e
        (flush_signals-deliver printf current regs t c q alive)
    where
      go :
          (h : Option Handled) (o : Result (Task × Console)) {r : Task × Console}
          → o ≡ returned r
          → Agrees t h o
          → (r.0.regs ≡ t.regs) × (r.0.uid ≡ t.uid) × (r.0.gid ≡ t.gid) × IsQueue r.0
      go none (returned s) e a = absurd a
      go none (panicked msg c) e a = cc
      go none (halted c) e a = absurd a
      go (some h) (returned s) {r} e a =
          let same : r ≡ s = cc in
          rw same (ap (λ u. u.regs) a.0, ap (λ u. u.uid) a.0, ap (λ u. u.gid) a.0, a.2)
      go (some h) (panicked msg c) e a = absurd a
      go (some h) (halted c) e a = absurd a

  pub flush_signals-fields :
      (current : ℕ) (regs : IntRegs) (t : Task) (c : Console) {r : Task × Console}
      → IsQueue t
      → flush_signals printf current regs t c ≡ returned r
      → (r.0.regs ≡ t.regs) × (r.0.uid ≡ t.uid) × (r.0.gid ≡ t.gid) × IsQueue r.0
  flush_signals-fields current regs t c {r} q e = elim (Bool-cases (is_dead t.status)) [
    | inl d ↦
        let returns : flush_signals printf current regs t c ≡ returned (t, c) =
          flush_signals-dead printf current regs t c d in
        let same : r ≡ (t, c) = cc in rw same (refl, refl, refl, q)
    | inr alive ↦ flush_alive-fields current regs t c q alive e
  ]

  -- The signals of a paused task.
  pub flush_paused-Quiet :
      (k : Kernel) {k' : Kernel}
      → AllQueues k
      → is_runnable (k.tasks k.current_task) ≡ false
      → is_dead (k.tasks k.current_task).status ≡ false
      → flush_paused printf k ≡ returned k'
      → Quiet k k'
        × (k'.current_task ≡ k.current_task)
        × ((j : ℕ) → j ≢ k.current_task → k'.tasks j ≡ k.tasks j)
  unfolding flush_paused flush_current
  flush_paused-Quiet k {k'} q stuck alive e =
      go (flush_signals printf k.current_task (load_regs t.regs) t k.console) refl e
    where
      t : Task
      t = k.tasks k.current_task

      woken : Task → Task
      woken u = record (update k.tasks k.current_task u k.current_task) {
        regs = save_regs (load_regs t.regs);
      }

      handled : Task → Kernel → Kernel
      handled u k0 =
          set_task k.current_task (woken u) (record k0 { tasks = update k0.tasks k.current_task u })

      woken-IsQueue : (u : Task) → IsQueue u → IsQueue (woken u)
      woken-IsQueue u h = rw (update_self k.tasks k.current_task u) (omega arith)

      woken-Slept :
          (u : Task) → u.uid ≡ t.uid → u.gid ≡ t.gid → Slept (k.tasks k.current_task) (woken u)
      woken-Slept u hu hg = rw (update_self k.tasks k.current_task u) (record {
        regs = save_regs-load_regs t.regs;
        uid = hu;
        gid = hg;
        dead_stays = λ h. cc;
        runnable_stays = λ h. cc;
      })

      go :
          (o : Result (Task × Console))
          → flush_signals printf k.current_task (load_regs t.regs) t k.console ≡ o
          → (o
              >>= (λ r. returned (record (set_task k.current_task r.0 k) { console = r.1 }))
              >>= λ k1. returned (
                  set_task k1.current_task
                    (record (k1.tasks k1.current_task) { regs = save_regs (load_regs t.regs) })
                    k1))
            ≡ returned k'
          → Quiet k k'
            × (k'.current_task ≡ k.current_task)
            × ((j : ℕ) → j ≢ k.current_task → k'.tasks j ≡ k.tasks j)
      go (returned r) flushed f =
          let same : k' ≡ handled r.0 (record k { console = r.1 }) = cc in
          let (hr, hu, hg, hq) =
            flush_signals-fields k.current_task (load_regs t.regs) t k.console (q k.current_task)
              flushed in
          rw same (
            record {
              slept =
                  update_all (λ j u. Slept (k.tasks j) u) _ k.current_task (woken r.0)
                    (woken-Slept r.0 hu hg)
                    (update_all (λ j u. Slept (k.tasks j) u) k.tasks k.current_task r.0
                      (record {
                        regs = hr;
                        uid = hu;
                        gid = hg;
                        dead_stays = λ h. cc;
                        runnable_stays = λ h. cc;
                      })
                      (λ j. Slept-refl (k.tasks j)));
              queues =
                  update_all (λ j u. IsQueue u) _ k.current_task (woken r.0) (woken-IsQueue r.0 hq)
                    (update_all (λ j u. IsQueue u) k.tasks k.current_task r.0 hq q);
              memory = refl;
              tasking = refl;
            },
            refl,
            λ j ne.
                update_ne (update k.tasks k.current_task r.0) k.current_task (woken r.0) j ne
                ∙ update_ne k.tasks k.current_task r.0 j ne,
          )
      go (panicked msg c) flushed f = cc
      go (halted c) flushed f = cc
