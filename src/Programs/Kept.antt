-- ===== src/Programs/Kept.antt =====
-- What the parts of the shell in kernel/test.c leave of the task table.
use klyx.Prelude.{
  ◌≢◌, ℕ, ◌+◌, ◌-◌, ◌%◌, ◌^◌, ◌≡◌, ◌∙◌, refl, sym, ap, subst, Bool, true, false, ◌||◌, inl, inr,
  Bool-cases, ◌==◌, leb, update_all, update_self, update_ne, if◌then◌else◌, arith,
}
use native.Mathlib.Decide.{ℕ_discrete}
use klyx.Machine.Regs.{IntRegs}
use klyx.Sched.Signal.{sig_count}
use klyx.Sched.Task.{Task, Kernel, is_dead, tasks_cap, enqueue_signal, sched_kill_task}
use klyx.Sched.Queue.{IsQueue, enqueue_signal-IsQueue}
use klyx.Sched.Quiet.{AllQueues}
use klyx.Traps.Syscall.{self, sys_kill}
use klyx.Programs.Shell.{set_owner}

-- A task but for the signals that wait in its ring.
abbrev pub unsignalled : Task → Task
unsignalled t = record t { signals = λ _. 0; signals_size = 0; signals_write_head = 0 }

-- The slot of the process 3, to which the shell sends signals.
abbrev pub tty2_task : ℕ
tty2_task = 2

-- Between two kernels that run the same task: at most that task has got signals, and valid rings are valid.
pub record Kept (k k' : Kernel) : Type 0 where
  pub current : k'.current_task ≡ k.current_task
  pub tasks : (j : ℕ) → unsignalled (k'.tasks j) ≡ unsignalled (k.tasks j)
  pub others : (j : ℕ) → j ≢ tty2_task → k'.tasks j ≡ k.tasks j
  pub queues : AllQueues k → AllQueues k'

pub Kept-trans : {k l m : Kernel} → Kept k l → Kept l m → Kept k m
Kept-trans p q = record {
  current = q.current ∙ p.current;
  tasks = λ j. q.tasks j ∙ p.tasks j;
  others = λ j ne. q.others j ne ∙ p.others j ne;
  queues = λ h. q.queues (p.queues h);
}

pub same_tasks-Kept :
    (k k' : Kernel) → k'.tasks ≡ k.tasks → k'.current_task ≡ k.current_task → Kept k k'
same_tasks-Kept k k' t c = record {
  current = c;
  tasks = λ j. ap (λ f. unsignalled (f j)) t;
  others = λ j ne. ap (λ f. f j) t;
  queues = λ h j. subst (λ f. IsQueue (f j)) (sym t) (h j);
}

enqueue_signal-unsignalled :
    (t : Task) (sig : ℕ) → unsignalled (enqueue_signal t sig) ≡ unsignalled t
unfolding enqueue_signal
enqueue_signal-unsignalled t sig = elim (Bool-cases (leb 63 t.signals_size)) [
  | inl full ↦ rw full refl
  | inr room ↦ rw room refl
]

sched_kill_task-Kept :
    (pid sig : ℕ) (k : Kernel) → pid ≡ tty2_task → Kept k (sched_kill_task pid sig k)
unfolding sched_kill_task
sched_kill_task-Kept pid sig k named =
    let t = enqueue_signal (k.tasks pid) (sig % 2 ^ 8) in
    record {
      current = refl;
      tasks =
          update_all (λ j u. unsignalled u ≡ unsignalled (k.tasks j)) k.tasks pid t
            (enqueue_signal-unsignalled (k.tasks pid) (sig % 2 ^ 8)) (λ j. refl);
      others = λ j ne. update_ne k.tasks pid t j (λ e. ne (e ∙ named));
      queues = λ h.
          update_all (λ j u. IsQueue u) k.tasks pid t
            (enqueue_signal-IsQueue (k.tasks pid) (sig % 2 ^ 8) (h pid)) h;
    }

Kept-if :
    (b : Bool) (k : Kernel) (x y : IntRegs × Kernel)
    → Kept k x.1
    → Kept k y.1
    → Kept k (if b then x else y).1
Kept-if true k x y p q = p
Kept-if false k x y p q = q

pub sys_kill-Kept :
    (regs : IntRegs) (k : Kernel)
    → (regs.ebx + (2 ^ 32 - 1)) % 2 ^ 32 ≡ tty2_task
    → Kept k (sys_kill regs k).1
unfolding sys_kill
sys_kill-Kept regs k named =
    let target = (regs.ebx + (2 ^ 32 - 1)) % 2 ^ 32 in
    let same = same_tasks-Kept k k refl refl in
    Kept-if (leb tasks_cap target) k _ _ same (
      Kept-if (is_dead (k.tasks target).status) k _ _ same (
        Kept-if (leb sig_count regs.ecx) k _ _ same (
          Kept-if (regs.ecx == 0) k _ _ same (
            Kept-if ((self k).uid == 0 || (self k).uid == (k.tasks target).uid) k _ _
              (sched_kill_task-Kept target regs.ecx k named) same))))

set_owner-IsQueue :
    (t : Task) (uid gid : ℕ) → IsQueue t → IsQueue (record t { uid = uid; gid = gid })
set_owner-IsQueue t uid gid h = omega arith

set_owner-AllQueues : (uid gid : ℕ) (k : Kernel) → AllQueues k → AllQueues (set_owner uid gid k)
unfolding set_owner
set_owner-AllQueues uid gid k h =
    update_all (λ j u. IsQueue u) k.tasks k.current_task (record (self k) { uid = uid; gid = gid })
      (set_owner-IsQueue (self k) uid gid (h k.current_task)) h

set_owner-unsignalled :
    (t u : Task) (uid gid : ℕ)
    → unsignalled u ≡ unsignalled (record t { uid = uid; gid = gid })
    → unsignalled (record u { uid = t.uid; gid = t.gid }) ≡ unsignalled t
set_owner-unsignalled t u uid gid e =
    ap {A = Task} {B = Task} (λ v. record v { uid = t.uid; gid = t.gid }) e

-- A task that has taken root for a while.
pub set_owner-Kept :
    (uid gid : ℕ) (k l : Kernel)
    → Kept (set_owner uid gid k) l
    → Kept k (set_owner (self k).uid (self k).gid l)
unfolding set_owner
set_owner-Kept uid gid k l p = record {
  current = p.current;
  tasks = λ j. elim (ℕ_discrete j k.current_task) [
    | yes here ↦
        ap (λ i. unsignalled ((set_owner (self k).uid (self k).gid l).tasks i))
          (here ∙ sym p.current)
        ∙ ap unsignalled (update_self l.tasks l.current_task mine)
        ∙ set_owner-unsignalled (self k) (self l) uid gid back
        ∙ ap (λ i. unsignalled (k.tasks i)) (sym here)
    | no ne ↦
        ap unsignalled (update_ne l.tasks l.current_task mine j (λ e. ne (e ∙ p.current)))
        ∙ p.tasks j
        ∙ ap unsignalled
            (update_ne k.tasks k.current_task (record (self k) { uid = uid; gid = gid }) j ne)
  ];
  others = λ j other. elim (ℕ_discrete j k.current_task) [
    | yes here ↦
        ap (λ i. (set_owner (self k).uid (self k).gid l).tasks i) (here ∙ sym p.current)
        ∙ update_self l.tasks l.current_task mine
        ∙ ap {A = Task} {B = Task} (λ t. record t { uid = (self k).uid; gid = (self k).gid })
            (exactly (λ e. other (here ∙ e)))
        ∙ ap k.tasks (sym here)
    | no ne ↦
        update_ne l.tasks l.current_task mine j (λ e. ne (e ∙ p.current))
        ∙ p.others j other
        ∙ update_ne k.tasks k.current_task (record (self k) { uid = uid; gid = gid }) j ne
  ];
  queues = λ h.
      set_owner-AllQueues (self k).uid (self k).gid l (p.queues (set_owner-AllQueues uid gid k h));
}
  where
    mine : Task
    mine = record (self l) { uid = (self k).uid; gid = (self k).gid }

    back : unsignalled (self l) ≡ unsignalled (record (self k) { uid = uid; gid = gid })
    back =
        ap (λ i. unsignalled (l.tasks i)) p.current
        ∙ p.tasks k.current_task
        ∙ ap unsignalled
            (update_self k.tasks k.current_task (record (self k) { uid = uid; gid = gid }))

    exactly : k.current_task ≢ tty2_task → self l ≡ record (self k) { uid = uid; gid = gid }
    exactly ne =
        ap l.tasks p.current
        ∙ p.others k.current_task ne
        ∙ update_self k.tasks k.current_task (record (self k) { uid = uid; gid = gid })
