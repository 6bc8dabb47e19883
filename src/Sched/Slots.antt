-- ===== src/Sched/Slots.antt =====
-- `sched_make_task`: which slot it takes, what it leaves alone, and the stacks of the slots.
use klyx.Prelude.{
  ℕ, zero, suc, ◌+◌, ◌-◌, ◌^◌, ◌≤◌, ◌<◌, ◌≡◌, ◌≢◌, ◌⊎◌, inl, inr, refl, ap, Bool, true, false,
  Option, none, some, update, Bool-cases, arith,
}
use native.Mathlib.Decide.{dec_lt}
use klyx.Sched.Task.{
  Task, Kernel, is_dead, tasks_cap, task_stack_cap, stack_top, fresh_task, find_dead,
  sched_make_task,
}
use klyx.Console.State.{enobufs}

-- `pid` is the first dead slot of the table.
pub record IsFirstDead (tasks : ℕ → Task) (pid : ℕ) : Type 0 where
  pub within : pid < tasks_cap
  pub is_free : is_dead (tasks pid).status ≡ true
  pub first : (j : ℕ) → j < pid → is_dead (tasks j).status ≡ false

-- Every slot of the table is taken.
abbrev pub IsFull : (ℕ → Task) → Type 0
IsFull tasks = (j : ℕ) → j < tasks_cap → is_dead (tasks j).status ≡ false

-- What the search has found, given that the slots before `pid` are taken.
abbrev Found : (ℕ → Task) → (left pid : ℕ) → Option ℕ → Type 0
Found tasks left pid none = (j : ℕ) → j < pid + left → is_dead (tasks j).status ≡ false
Found tasks left pid (some p) =
    (p < pid + left)
    × (is_dead (tasks p).status ≡ true)
    × ((j : ℕ) → j < p → is_dead (tasks j).status ≡ false)

-- One more taken slot.
pub taken_suc :
    (tasks : ℕ → Task) (pid : ℕ)
    → ((j : ℕ) → j < pid → is_dead (tasks j).status ≡ false)
    → is_dead (tasks pid).status ≡ false
    → (j : ℕ) → j < pid + 1
    → is_dead (tasks j).status ≡ false
taken_suc tasks pid before here j lt = elim (dec_lt j pid) [
  | yes below ↦ before j below
  | no last ↦ let same : j ≡ pid = omega arith in rw same here
]

Found-shift :
    (tasks : ℕ → Task) (left pid : ℕ) (r : Option ℕ)
    → Found tasks left (pid + 1) r
    → Found tasks (suc left) pid r
Found-shift tasks left pid none f = λ j lt. f j (omega arith)
Found-shift tasks left pid (some p) f = (omega arith, f.1, f.2)

find_dead-Found :
    (tasks : ℕ → Task) (left pid : ℕ)
    → ((j : ℕ) → j < pid → is_dead (tasks j).status ≡ false)
    → Found tasks left pid (find_dead tasks left pid)
unfolding find_dead
find_dead-Found tasks zero pid before = λ j lt. before j (omega arith)
find_dead-Found tasks (suc left) pid before = elim (Bool-cases (is_dead (tasks pid).status)) [
  | inl free ↦ rw free (omega arith, free, before)
  | inr taken ↦ rw taken (
      Found-shift tasks left pid (find_dead tasks left (pid + 1))
        (find_dead-Found tasks left (pid + 1) (taken_suc tasks pid before taken)))
]

-- What a call gives: the first dead slot, filled in, and every other slot and part as before; or, if
-- there is none, 0 and ENOBUFS with the table as before.
abbrev pub Made : Kernel → (ℕ → Task) → ℕ × Kernel → Type 0
Made k made (pid, k') =
    (IsFirstDead k.tasks pid × (k' ≡ record k { tasks = update k.tasks pid (made pid) }))
    ⊎ (IsFull k.tasks
        × (pid ≡ 0)
        × (k' ≡ record k { console = record (k.console) { errno = enobufs } }))

-- sched_make_task takes the first dead slot of the table, fills it with the fresh record of that
-- slot and changes nothing else; if all slots are taken it returns 0 and sets ENOBUFS, and changes
-- nothing else.
pub sched_make_task-Made :
    (eip tty fs gs cs seg : ℕ) (y : Bool) (k : Kernel)
    → Made k
        (λ pid. fresh_task pid eip tty fs gs cs seg y)
        (sched_make_task eip tty fs gs cs seg y k)
unfolding sched_make_task
sched_make_task-Made eip tty fs gs cs seg y k =
    go (find_dead k.tasks tasks_cap 0)
      (find_dead-Found k.tasks tasks_cap 0 (λ j lt. absurd (omega arith)))
  where
    go :
        (r : Option ℕ)
        → Found k.tasks tasks_cap 0 r
        → Made k
            (λ pid. fresh_task pid eip tty fs gs cs seg y)
            (elim r [
              | some pid ↦ (
                pid,
                record k { tasks = update k.tasks pid (fresh_task pid eip tty fs gs cs seg y) },
              )
              | none ↦ (0, record k { console = record (k.console) { errno = enobufs } })
            ])
    go none f = inr (f, refl, refl)
    go (some p) f = inl (record { within = omega arith; is_free = f.1; first = f.2 }, refl)

-- The stacks of two slots of the table, each of 8192 bytes below its top, do not overlap, and no
-- top leaves the 32-bit address space.
pub stacks_disjoint :
    (p q : ℕ)
    → p < tasks_cap
    → q < tasks_cap
    → p ≢ q
    → ((stack_top p ≤ stack_top q - task_stack_cap) ⊎ (stack_top q ≤ stack_top p - task_stack_cap))
      × (stack_top p < 2 ^ 32)
      × (stack_top q < 2 ^ 32)
stacks_disjoint p q hp hq ne = (ground arith, omega arith, omega arith)

-- The search finds the first dead slot.
find_dead-first :
    (tasks : ℕ → Task) (pid : ℕ) → IsFirstDead tasks pid → find_dead tasks tasks_cap 0 ≡ some pid
find_dead-first tasks pid f =
    go (find_dead tasks tasks_cap 0)
      (find_dead-Found tasks tasks_cap 0 (λ j lt. absurd (omega arith)))
  where
    clash : {b : Bool} → b ≡ true → b ≡ false → ⊥
    clash p q = ground arith

    go : (o : Option ℕ) → Found tasks tasks_cap 0 o → o ≡ some pid
    go none full = absurd (clash f.is_free (full pid f.within))
    go (some p) (lt, free, first) = elim (dec_lt p pid) [
      | yes before ↦ absurd (clash free (f.first p before))
      | no after ↦ elim (dec_lt pid p) [
        | yes later ↦ absurd (clash f.is_free (first pid later))
        | no not_later ↦ let same : p ≡ pid = omega arith in rw same refl
      ]
    ]

-- So a task that is made goes there.
pub sched_make_task-first :
    (eip tty fs gs cs generic_segment : ℕ) (yield_only : Bool) (pid : ℕ) (k : Kernel)
    → IsFirstDead k.tasks pid
    → sched_make_task eip tty fs gs cs generic_segment yield_only k ≡ (
      pid,
      record k {
        tasks = update k.tasks pid (fresh_task pid eip tty fs gs cs generic_segment yield_only);
      },
    )
unfolding sched_make_task
sched_make_task-first eip tty fs gs cs generic_segment yield_only pid k f =
    ap
      (λ o. elim o as (λ _. ℕ × Kernel) [
        | some i ↦ (
          i,
          record k {
            tasks = update k.tasks i (fresh_task i eip tty fs gs cs generic_segment yield_only);
          },
        )
        | none ↦ (0, record k { console = record (k.console) { errno = enobufs } })
      ])
      (find_dead-first k.tasks pid f)
