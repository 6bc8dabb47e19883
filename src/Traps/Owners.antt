-- ===== src/Traps/Owners.antt =====
-- Who a task belongs to, and the signal rings, under the system calls of kernel/traps.c.
use klyx.Prelude.{
  update_all, ℕ, ◌+◌, ◌-◌, ◌%◌, ◌^◌, ◌≡◌, ◌≢◌, ◌∙◌, refl, sym, ap, subst, Bool, true, false, ◌||◌,
  ◌==◌, ==_ne, leb, if◌then◌else◌, arith,
}
use native.Mathlib.Decide.{ℕ_discrete}
use klyx.Machine.Regs.{IntRegs}
use klyx.Machine.Outcome.{returned, panicked, halted}
use klyx.Sched.Task.{Task, Kernel, dead, is_dead, tasks_cap, enqueue_signal, sched_kill_task}
use klyx.Sched.Flush.{Printf, Result, panic}
use klyx.Sched.Queue.{IsQueue, enqueue_signal-IsQueue}
use klyx.Sched.Switch.{set_task, sched_next_task, sched_start_tasking}
use klyx.Sched.Quiet.{AllQueues}
use klyx.Sched.Next.{sched_next_task-Switched}
use klyx.Traps.Syscall.{
  Env, self, sys_setup, sys_exit, sys_unknown, sys_setuid, sys_setgid, sys_kill, syscall_handler,
}

-- A system call that runs to its end with interrupts off and stores nothing at an address that its caller
-- gives: neither tty_write nor tty_read, which let interrupts in, nor uname nor time, which store, as
-- tty_read does, where `ebx` points, and could so write the kernel's own variables.
pub record IsContained (regs : IntRegs) : Type 0 where
  pub writes : regs.eax ≢ 2
  pub reads : regs.eax ≢ 3
  pub names : regs.eax ≢ 5
  pub clocks : regs.eax ≢ 6

-- The owners in `k'` are those in `k`, and the signal rings of `k'` are valid.
pub record SameOwners (k k' : Kernel) : Type 0 where
  pub uid : (j : ℕ) → (k'.tasks j).uid ≡ (k.tasks j).uid
  pub gid : (j : ℕ) → (k'.tasks j).gid ≡ (k.tasks j).gid
  pub queues : AllQueues k'

-- A call with such a result, if it returns.
abbrev pub Keeps : Kernel → Result (IntRegs × Kernel) → Type 0
Keeps k (returned (regs', k')) = SameOwners k k'
Keeps k (panicked msg c) = Unit
Keeps k (halted c) = Unit

SameOwners-trans : {k l m : Kernel} → SameOwners k l → SameOwners l m → SameOwners k m
SameOwners-trans a b = record {
  uid = λ j. b.uid j ∙ a.uid j;
  gid = λ j. b.gid j ∙ a.gid j;
  queues = b.queues;
}

-- A write of one record that keeps its owner.
SameOwners-set_task :
    (k : Kernel) (pid : ℕ) (t : Task)
    → AllQueues k
    → t.uid ≡ (k.tasks pid).uid
    → t.gid ≡ (k.tasks pid).gid
    → IsQueue t
    → SameOwners k (set_task pid t k)
SameOwners-set_task k pid t q hu hg hq = record {
  uid = update_all (λ j u. u.uid ≡ (k.tasks j).uid) k.tasks pid t hu (λ j. refl);
  gid = update_all (λ j u. u.gid ≡ (k.tasks j).gid) k.tasks pid t hg (λ j. refl);
  queues = update_all (λ j u. IsQueue u) k.tasks pid t hq q;
}

enqueue_signal-owner :
    (t : Task) (sig : ℕ)
    → ((enqueue_signal t sig).uid ≡ t.uid) × ((enqueue_signal t sig).gid ≡ t.gid)
unfolding enqueue_signal
enqueue_signal-owner t sig = ground arith

pub sched_kill_task-SameOwners :
    (pid sig : ℕ) (k : Kernel) → AllQueues k → SameOwners k (sched_kill_task pid sig k)
unfolding sched_kill_task
sched_kill_task-SameOwners pid sig k q =
    let owner = enqueue_signal-owner (k.tasks pid) (sig % 2 ^ 8) in
    SameOwners-set_task k pid (enqueue_signal (k.tasks pid) (sig % 2 ^ 8)) q owner.0 owner.1
      (enqueue_signal-IsQueue (k.tasks pid) (sig % 2 ^ 8) (q pid))

module _ (printf : Printf) where
  sched_next_task-SameOwners :
      (regs : IntRegs) (k : Kernel) {regs' : IntRegs} {k' : Kernel}
      → AllQueues k
      → sched_next_task printf regs k ≡ returned (regs', k')
      → SameOwners k k'
  sched_next_task-SameOwners regs k {regs'} {k'} q e =
      let s = sched_next_task-Switched printf regs k q e in
      record {
        uid = λ j. (s.chosen.quiet.slept j).uid ∙ elim (ℕ_discrete j k.current_task) [
          | yes here ↦ rw here s.saved.uid
          | no ne ↦ ap (λ u. u.uid) (s.saved.others j ne)
        ];
        gid = λ j. (s.chosen.quiet.slept j).gid ∙ elim (ℕ_discrete j k.current_task) [
          | yes here ↦ rw here s.saved.gid
          | no ne ↦ ap (λ u. u.gid) (s.saved.others j ne)
        ];
        queues = s.chosen.quiet.queues;
      }

  Keeps-next :
      (k : Kernel) (regs : IntRegs) (k0 : Kernel)
      → SameOwners k k0
      → Keeps k (sched_next_task printf regs k0)
  Keeps-next k regs k0 s = go (sched_next_task printf regs k0) refl
    where
      go : (o : Result (IntRegs × Kernel)) → sched_next_task printf regs k0 ≡ o → Keeps k o
      go (returned r) e = SameOwners-trans s (sched_next_task-SameOwners regs k0 s.queues e)
      go (panicked msg c) e = tt
      go (halted c) e = tt

-- A kernel with the same task table.
untouched : (k k' : Kernel) → AllQueues k → k'.tasks ≡ k.tasks → SameOwners k k'
untouched k k' q e = record {
  uid = λ j. ap (λ f. (f j).uid) e;
  gid = λ j. ap (λ f. (f j).gid) e;
  queues = λ j. subst (λ f. IsQueue (f j)) (sym e) (q j);
}

Keeps-if :
    (k : Kernel) (b : Bool) (x y : Result (IntRegs × Kernel))
    → Keeps k x
    → Keeps k y
    → Keeps k (if b then x else y)
Keeps-if k true x y p q = p
Keeps-if k false x y p q = q

SameOwners-if :
    (k : Kernel) (b : Bool) (x y : IntRegs × Kernel)
    → SameOwners k x.1
    → SameOwners k y.1
    → SameOwners k (if b then x else y).1
SameOwners-if k true x y p q = p
SameOwners-if k false x y p q = q

sys_kill-Keeps : (regs : IntRegs) (k : Kernel) → AllQueues k → Keeps k (returned (sys_kill regs k))
unfolding sys_kill
sys_kill-Keeps regs k q =
    let target = (regs.ebx + (2 ^ 32 - 1)) % 2 ^ 32 in
    let same = untouched k k q refl in
    SameOwners-if k (leb tasks_cap target) _ _ same (
      SameOwners-if k (is_dead (k.tasks target).status) _ _ same (
        SameOwners-if k (leb 29 regs.ecx) _ _ same (
          SameOwners-if k (regs.ecx == 0) _ _ same (
            SameOwners-if k ((self k).uid == 0 || (self k).uid == (k.tasks target).uid) _ _
              (sched_kill_task-SameOwners target regs.ecx k q) same))))

module _ (printf : Printf) (env : Env) (regs : IntRegs) (k : Kernel) (q : AllQueues k) where
  sys_setup-Keeps : Keeps k (sys_setup printf env regs k)
  unfolding sys_setup sched_start_tasking panic
  sys_setup-Keeps =
      Keeps-if k k.is_tasking_avaliable _ _
        (Keeps-next printf k regs (sched_kill_task k.current_task 23 k)
          (sched_kill_task-SameOwners k.current_task 23 k q))
        (Keeps-if k (is_dead (k.tasks 0).status) _ _ tt (untouched k _ q refl))

  sys_exit-Keeps : Keeps k (sys_exit printf env regs k)
  unfolding sys_exit panic
  sys_exit-Keeps = Keeps-if k (k.current_task == 0) _ _ tt (
      Keeps-next printf k regs (set_task k.current_task (record (self k) { status = dead }) k) (
        SameOwners-set_task k k.current_task (record (self k) { status = dead }) q refl refl
          (alive (q k.current_task))))
    where
      alive : IsQueue (self k) → IsQueue (record (self k) { status = dead })
      alive h = omega arith

  -- A system call of a task that does not belong to root changes the owner of no task, if it is
  -- neither tty_write nor tty_read, which let interrupts in, nor uname nor time, which store, as
  -- tty_read does, wherever the caller says: if it returns, every user and group is as before, and
  -- the signal rings, valid before, are valid.
  pub syscall_handler-Keeps :
      IsContained regs → (self k).uid ≢ 0 → Keeps k (syscall_handler printf env regs k)
  unfolding syscall_handler sys_unknown panic sys_setuid sys_setgid
  syscall_handler-Keeps contained user =
      let refused = ==_ne (self k).uid 0 user in
      rw
        (
          ==_ne regs.eax 2 contained.writes,
          ==_ne regs.eax 3 contained.reads,
          ==_ne regs.eax 5 contained.names,
          ==_ne regs.eax 6 contained.clocks,
        )
        (Keeps-if k (regs.eax == 0) _ _ sys_setup-Keeps (
          Keeps-if k (regs.eax == 1) _ _ sys_exit-Keeps (
            Keeps-if k (regs.eax == 4) _ _ (Keeps-next printf k regs k (untouched k k q refl)) (
              Keeps-if k (regs.eax == 7) _ _ (rw refused (untouched k k q refl)) (
                Keeps-if k (regs.eax == 8) _ _ (rw refused (untouched k k q refl)) (
                  Keeps-if k (regs.eax == 9) _ _ (untouched k k q refl) (
                    Keeps-if k (regs.eax == 10) _ _ (untouched k k q refl) (
                      Keeps-if k (regs.eax == 11) _ _ (untouched k k q refl)
                        (Keeps-if k (regs.eax == 12) _ _ (sys_kill-Keeps regs k q) tt)))))))))
