-- ===== src/Programs/Respawn.antt =====
-- The slots that a round of `test_init` in kernel/test.c looks after.
use klyx.Prelude.{
  ℕ, ◌+◌, ◌-◌, ◌%◌, ◌^◌, ◌<◌, ◌≡◌, ◌≢◌, ◌∙◌, ◌⊎◌, refl, sym, ap, true, false, update, update_self,
  update_ne, leb, lt→leb, Bool-cases, inl, inr, if◌then◌else◌, arith,
}
use klyx.Machine.Regs.{IntRegs}
use klyx.Machine.Outcome.{returned, ◌>>=◌}
use klyx.Sched.Task.{Task, Kernel, is_dead, tasks_cap, fresh_task}
use klyx.Sched.Flush.{Printf, Result}
use klyx.Sched.Slots.{taken_suc, sched_make_task-first}
use klyx.Traps.Syscall.{Env, give, minus_one, sys_kill, syscall_handler}
use klyx.System.Boot.{Symbols}
use klyx.Programs.Calls.{syscall_2}
use klyx.Programs.Init.{respawn, respawn_all}

-- A fresh task of the programs.
abbrev pub program : (pid eip tty : ℕ) → Task
program pid eip tty = fresh_task pid eip tty 0 0 0x08 0x10 false

-- The kernel with a fresh task in slot `pid` if the one there is dead.
abbrev refilled : (pid eip tty : ℕ) → Kernel → Kernel
refilled pid eip tty k =
    if is_dead (k.tasks pid).status
    then record k { tasks = update k.tasks pid (program pid eip tty) }
    else k

-- The slot afterwards: as it was if its task lives, and fresh if it was dead.
abbrev pub Refilled : (pid eip tty : ℕ) → Kernel → Kernel → Type 0
Refilled pid eip tty k k' =
    ((is_dead (k.tasks pid).status ≡ false) × (k'.tasks pid ≡ k.tasks pid))
    ⊎ ((is_dead (k.tasks pid).status ≡ true) × (k'.tasks pid ≡ program pid eip tty))

refilled-Refilled : (pid eip tty : ℕ) (k : Kernel) → Refilled pid eip tty k (refilled pid eip tty k)
refilled-Refilled pid eip tty k = elim (Bool-cases (is_dead (k.tasks pid).status)) [
  | inl gone ↦ rw gone (inr (refl, update_self k.tasks pid (program pid eip tty)))
  | inr lives ↦ rw lives (inl (refl, refl))
]

refilled-other :
    (pid eip tty : ℕ) (k : Kernel) (j : ℕ) → j ≢ pid → (refilled pid eip tty k).tasks j ≡ k.tasks j
refilled-other pid eip tty k j ne = elim (Bool-cases (is_dead (k.tasks pid).status)) [
  | inl gone ↦ rw gone (update_ne k.tasks pid (program pid eip tty) j ne)
  | inr lives ↦ rw lives refl
]

Refilled-alive :
    (pid eip tty : ℕ) (k k' : Kernel)
    → Refilled pid eip tty k k'
    → is_dead (k'.tasks pid).status ≡ false
unfolding fresh_task
Refilled-alive pid eip tty k k' r = elim r [
  | inl (lives, same) ↦ rw same lives
  | inr (gone, new) ↦ rw new refl
]

-- The same between two kernels with the same records.
Refilled-later :
    (pid eip tty : ℕ) (k k' l l' : Kernel)
    → k.tasks pid ≡ l.tasks pid
    → l'.tasks pid ≡ k'.tasks pid
    → Refilled pid eip tty k k'
    → Refilled pid eip tty l l'
Refilled-later pid eip tty k k' l l' before after r = elim r [
  | inl (lives, same) ↦ inl (ap (λ t. is_dead t.status) (sym before) ∙ lives, after ∙ same ∙ before)
  | inr (gone, new) ↦ inr (ap (λ t. is_dead t.status) (sym before) ∙ gone, after ∙ new)
]

alive_as : {t u : Task} → t ≡ u → is_dead u.status ≡ false → is_dead t.status ≡ false
alive_as same h = ap (λ t. is_dead t.status) same ∙ h

-- No slot lies before the first one.
none_before : (tasks : ℕ → Task) (j : ℕ) → j < 0 → is_dead (tasks j).status ≡ false
none_before tasks j lt = absurd (omega arith)

bind_returned :
    {A B : Type 0} {m : Result A} {a : A} (f : A → Result B) {b : B}
    → m ≡ returned a
    → f a ≡ returned b
    → (m >>= f) ≡ returned b
bind_returned f e g = ap (λ x. x >>= f) e ∙ g

-- Signal 0 tells whether a slot is taken.
kill-alive :
    (pid : ℕ) (regs : IntRegs) (k : Kernel)
    → pid < tasks_cap
    → sys_kill (record regs { ebx = pid + 1; ecx = 0 }) k
      ≡ give
          (if is_dead (k.tasks pid).status then minus_one else 0)
          (record regs { ebx = pid + 1; ecx = 0 })
          k
unfolding sys_kill
kill-alive pid regs k lt =
    let target : (pid + 1 + (2 ^ 32 - 1)) % 2 ^ 32 ≡ pid = omega arith in
    let in_table : leb tasks_cap pid ≡ false = lt→leb tasks_cap pid lt in
    elim (Bool-cases (is_dead (k.tasks pid).status)) [
      | inl gone ↦ rw (target, in_table, gone) refl
      | inr lives ↦ rw (target, in_table, lives) refl
    ]

-- The kernel behind each of the three tests.
abbrev once : Symbols → Kernel → Kernel
once s k = refilled 1 s.test_a 0 k

abbrev twice : Symbols → Kernel → Kernel
twice s k = refilled 3 s.test_a 2 (once s k)

abbrev thrice : Symbols → Kernel → Kernel
thrice s k = refilled 4 s.test_c 3 (twice s k)

module _ (printf : Printf) (env : Env) (regs : IntRegs) where
  -- The slots before `pid` are taken: the first dead slot is then `pid` if its task is dead.
  respawn-refilled :
      (pid eip tty : ℕ) (k : Kernel)
      → ((j : ℕ) → j < pid → is_dead (k.tasks j).status ≡ false)
      → pid < tasks_cap
      → respawn printf env regs (pid + 1) eip tty k ≡ returned (refilled pid eip tty k)
  unfolding respawn syscall_2 syscall_handler
  respawn-refilled pid eip tty k before lt = elim (Bool-cases (is_dead (k.tasks pid).status)) [
    | inl gone ↦
        let made =
          sched_make_task-first eip tty 0 0 0x08 0x10 false pid k
            (record { within = lt; is_free = gone; first = before }) in
        rw (kill-alive pid (record regs { eax = 12 }) k lt, gone, made) refl
    | inr lives ↦ rw (kill-alive pid (record regs { eax = 12 }) k lt, lives) refl
  ]

  -- The three tests, from a table whose slots 0 and 2 are taken.
  respawn_all-thrice :
      (s : Symbols) (k : Kernel)
      → is_dead (k.tasks 0).status ≡ false
      → is_dead (k.tasks 2).status ≡ false
      → respawn_all printf env regs s k ≡ returned (thrice s k)
  unfolding respawn_all
  respawn_all-thrice s k init second =
      let k1 = once s k in
      let k2 = twice s k in
      let after2 : Kernel → Result Kernel = respawn printf env regs 5 s.test_c 3 in
      let after1 : Kernel → Result Kernel =
        λ x. respawn printf env regs 4 s.test_a 2 x >>= after2 in
      let first_alive = Refilled-alive 1 s.test_a 0 k k1 (refilled-Refilled 1 s.test_a 0 k) in
      let third_alive = Refilled-alive 3 s.test_a 2 k1 k2 (refilled-Refilled 3 s.test_a 2 k1) in
      let same1 : (j : ℕ) → j ≢ 1 → k1.tasks j ≡ k.tasks j = refilled-other 1 s.test_a 0 k in
      let same2 : (j : ℕ) → j ≢ 3 → k2.tasks j ≡ k1.tasks j = refilled-other 3 s.test_a 2 k1 in
      let before1 = taken_suc k.tasks 0 (none_before k.tasks) init in
      let before3 =
        taken_suc k1.tasks 2
          (taken_suc k1.tasks 1
            (taken_suc k1.tasks 0 (none_before k1.tasks)
              (alive_as (same1 0 (λ e. omega arith)) init))
            first_alive)
          (alive_as (same1 2 (λ e. omega arith)) second) in
      let before4 =
        taken_suc k2.tasks 3 (λ j lt. alive_as (same2 j (λ e. omega arith)) (before3 j lt))
          third_alive in
      bind_returned after1 (respawn-refilled 1 s.test_a 0 k before1 (omega arith)) (
        bind_returned after2 (respawn-refilled 3 s.test_a 2 k1 before3 (omega arith))
          (respawn-refilled 4 s.test_c 3 k2 before4 (omega arith)))

  -- If init and the task of slot 2 live, the three tests in the loop of init leave each of the
  -- slots 1, 3 and 4 as it was if its task lives, and with a fresh task of its program on its tty
  -- if it was dead; every other slot is as it was.
  pub respawn_all-Refilled :
      (s : Symbols) (k : Kernel)
      → is_dead (k.tasks 0).status ≡ false
      → is_dead (k.tasks 2).status ≡ false
      → (k' : Kernel) × (respawn_all printf env regs s k ≡ returned k')
        × Refilled 1 s.test_a 0 k k'
        × Refilled 3 s.test_a 2 k k'
        × Refilled 4 s.test_c 3 k k'
        × ((j : ℕ) → j ≢ 1 → j ≢ 3 → j ≢ 4 → k'.tasks j ≡ k.tasks j)
  respawn_all-Refilled s k init second =
      let k1 = once s k in
      let k2 = twice s k in
      let k3 = thrice s k in
      let same1 : (j : ℕ) → j ≢ 1 → k1.tasks j ≡ k.tasks j = refilled-other 1 s.test_a 0 k in
      let same2 : (j : ℕ) → j ≢ 3 → k2.tasks j ≡ k1.tasks j = refilled-other 3 s.test_a 2 k1 in
      let same3 : (j : ℕ) → j ≢ 4 → k3.tasks j ≡ k2.tasks j = refilled-other 4 s.test_c 3 k2 in
      (
        k3,
        respawn_all-thrice s k init second,
        Refilled-later 1 s.test_a 0 k k1 k k3 refl
            (same3 1 (λ e. omega arith) ∙ same2 1 (λ e. omega arith))
            (refilled-Refilled 1 s.test_a 0 k),
        Refilled-later 3 s.test_a 2 k1 k2 k k3 (same1 3 (λ e. omega arith))
            (same3 3 (λ e. omega arith)) (refilled-Refilled 3 s.test_a 2 k1),
        Refilled-later 4 s.test_c 3 k2 k3 k k3
            (same2 4 (λ e. omega arith) ∙ same1 4 (λ e. omega arith)) refl
            (refilled-Refilled 4 s.test_c 3 k2),
        λ j n1 n3 n4. same3 j n4 ∙ same2 j n3 ∙ same1 j n1,
      )
