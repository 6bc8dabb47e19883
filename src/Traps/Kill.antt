-- ===== src/Traps/Kill.antt =====
-- The system call `kill`: who may signal whom, and what the caller sees.
use klyx.Prelude.{
  ℕ, ◌+◌, ◌-◌, ◌%◌, ◌^◌, ◌<◌, ◌≡◌, ◌≢◌, ◌⊎◌, inl, inr, refl, [], ◌∷◌, ◌++◌, length, if◌then◌else◌,
  true, false, ◌||◌, update_self, Bool-cases, ◌==◌, ==_ne, leb, leb→lt, arith,
}
use klyx.Machine.Regs.{IntRegs}
use klyx.Sched.Signal.{sig_count}
use klyx.Sched.Queue.{pending}
use klyx.Sched.Task.{Task, task_sig_cap, Kernel, is_dead, tasks_cap, sched_kill_task}
use klyx.Sched.Switch.{set_task}
use klyx.Traps.Syscall.{self, give, minus_one, sys_kill, sys_setuid, sys_setgid}

-- The caller may signal `p`: it is root or has the same user.
abbrev pub MaySignal : Kernel → (p : ℕ) → Type 0
MaySignal k p = ((self k).uid ≡ 0) ⊎ ((self k).uid ≡ (k.tasks p).uid)

-- The call names a live slot `p` (by `p + 1`, its process number) and a signal that is not 0.
pub record Names (regs : IntRegs) (k : Kernel) (p : ℕ) : Type 0 where
  pub by_number : regs.ebx ≡ p + 1
  pub within : p < tasks_cap
  pub alive : is_dead (k.tasks p).status ≡ false
  pub nonzero : 0 < regs.ecx
  pub known : regs.ecx < sig_count

may_of_test :
    (k : Kernel) (p : ℕ)
    → ((self k).uid == 0 || (self k).uid == (k.tasks p).uid) ≡ true
    → MaySignal k p
may_of_test k p h = ground arith

-- What a kill leaves: the registers, the rest of the kernel, and the signals that wait at `p`.
pub record Delivers (regs : IntRegs) (k : Kernel) (p : ℕ) (out : IntRegs × Kernel) : Type 0 where
  pub regs_kept : out.0 ≡ regs
  pub others : (j : ℕ) → j ≢ p → out.1.tasks j ≡ k.tasks j
  pub status : (out.1.tasks p).status ≡ (k.tasks p).status
  pub current : out.1.current_task ≡ k.current_task
  pub console : out.1.console ≡ k.console
  pub waiting : pending (out.1.tasks p) ≡ (
      if leb (task_sig_cap - 1) (length (pending (k.tasks p)))
      then pending (k.tasks p)
      else pending (k.tasks p) ++ (regs.ecx ∷ []))

-- The signal was sent.
pub record Sent (regs : IntRegs) (k : Kernel) (out : IntRegs × Kernel) : Type 0 where
  pub pid : ℕ
  pub names : Names regs k pid
  pub may : MaySignal k pid
  pub result : out ≡ (regs, sched_kill_task pid regs.ecx k)

-- Nothing was sent, and `eax` is 0 or -1.
abbrev pub Refused : IntRegs → Kernel → IntRegs × Kernel → Type 0
Refused regs k out = (out ≡ give 0 regs k) ⊎ (out ≡ give minus_one regs k)

-- Whatever the registers, kill either sends its signal to a live task of the table that it names
-- and may signal, or changes nothing but eax, which is then 0 or -1.
pub sys_kill_cases :
    (regs : IntRegs) (k : Kernel)
    → regs.ebx < 2 ^ 32
    → Sent regs k (sys_kill regs k) ⊎ Refused regs k (sys_kill regs k)
unfolding sys_kill
sys_kill_cases regs k word = elim (Bool-cases (leb tasks_cap p)) [
  | inl far ↦ rw far (inr (inr refl))
  | inr near ↦ rw near (elim (Bool-cases (is_dead (k.tasks p).status)) [
    | inl gone ↦ rw gone (inr (inr refl))
    | inr alive ↦ rw alive (elim (Bool-cases (leb sig_count regs.ecx)) [
      | inl big ↦ rw big (inr (inr refl))
      | inr known ↦ rw known (elim (Bool-cases (regs.ecx == 0)) [
        | inl probe ↦ rw probe (inr (inl refl))
        | inr real ↦
            rw real (elim (Bool-cases ((self k).uid == 0 || (self k).uid == (k.tasks p).uid)) [
              | inl may ↦ rw may (
                  inl (record {
                    pid = p;
                    names = record {
                      by_number = omega (arith, leb→lt tasks_cap p near);
                      within = leb→lt tasks_cap p near;
                      alive = alive;
                      nonzero = ground arith;
                      known = leb→lt sig_count regs.ecx known;
                    };
                    may = may_of_test k p may;
                    result = refl;
                  }))
              | inr other ↦ rw other (inr (inr refl))
            ])
      ])
    ])
  ])
]
  where
    p : ℕ
    p = (regs.ebx + (2 ^ 32 - 1)) % 2 ^ 32

user_refused :
    (regs : IntRegs) (k : Kernel) → (self k).uid ≢ 0 → sys_setgid regs k ≡ give minus_one regs k
unfolding sys_setgid
user_refused regs k ne = rw (==_ne (self k).uid 0 ne)

-- Once a task has set its user to another than root, setgid is refused: whatever the user before,
-- the second call gives -1 and changes nothing else.
pub setgid-setuid :
    (regs regs2 : IntRegs) (k : Kernel)
    → regs.ebx ≢ 0
    → let (regs1, k1) = sys_setuid regs k in sys_setgid regs2 k1 ≡ give minus_one regs2 k1
unfolding sys_setuid sys_setgid
setgid-setuid regs regs2 k ne = elim (Bool-cases ((self k).uid == 0)) [
  | inl root ↦ rw root (
      user_refused regs2 (set_task k.current_task (record (self k) { uid = regs.ebx }) k)
        (rw (update_self k.tasks k.current_task (record (self k) { uid = regs.ebx })) ne))
  | inr user ↦ rw (user, user)
]
