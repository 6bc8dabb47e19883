-- ===== src/Sched/Robin.antt =====
-- `sched_next_task`: which task it chooses, with which registers, and what it leaves alone.
use klyx.Prelude.{
  ℕ, zero, suc, ◌+◌, ◌%◌, ◌≤◌, ◌<◌, ◌≡◌, ◌≢◌, ◌∙◌, inl, inr, refl, sym, ap, Bool, true, false,
  Bool-cases, if◌then◌else◌, arith,
}
use klyx.Machine.Regs.{IntRegs, load_regs}
use klyx.Machine.Outcome.{returned, ◌>>=◌, >>=-eq-returned}
use klyx.Sched.Task.{Task, Kernel, is_dead, tasks_cap}
use klyx.Sched.Flush.{Printf, Result, panic}
use klyx.Sched.Switch.{is_runnable, flush_paused, try_slot, find_task}
use klyx.Sched.Quiet.{AllQueues, Slept, Slept-refl, Quiet, Quiet-trans, flush_paused-Quiet}

-- The slot `i` steps behind the current one.
abbrev pub after : Kernel → ℕ → ℕ
after k i = (k.current_task + i) % tasks_cap

-- What the search from `k` gives within `n` rounds: the first runnable slot behind the current one, its
-- saved registers, and records that slept.
pub record Chosen (n : ℕ) (k : Kernel) (regs' : IntRegs) (k' : Kernel) : Type 0 where
  pub steps : ℕ
  pub in_time : steps < n
  pub place : k'.current_task ≡ after k (suc steps)
  pub runs : is_runnable (k.tasks k'.current_task) ≡ true
  pub skipped : (i : ℕ) → i < steps → is_runnable (k.tasks (after k (suc i))) ≡ false
  pub loaded : regs' ≡ load_regs (k.tasks k'.current_task).regs
  pub quiet : Quiet k k'

-- A record that slept can run exactly if it could: so the choice is the same before and after a round.
Slept-runnable : {t t' : Task} → Slept t t' → is_runnable t' ≡ false → is_runnable t ≡ false
Slept-runnable {t} {t'} s h = elim (Bool-cases (is_runnable t)) [
  | inl r ↦ rw (← s.runnable_stays r) h
  | inr r ↦ r
]

module _ (printf : Printf) where
  -- One round: the next slot, and whether it can run.
  pub record Tried (k : Kernel) (found : Bool) (k' : Kernel) : Type 0 where
    pub place : k'.current_task ≡ after k 1
    pub runnable : is_runnable (k.tasks k'.current_task) ≡ found
    pub quiet : Quiet k k'
    pub others : (j : ℕ) → j ≢ after k 1 → k'.tasks j ≡ k.tasks j

  pub try_slot-Tried :
      (k : Kernel) {found : Bool} {k' : Kernel}
      → AllQueues k
      → try_slot printf k ≡ returned (found, k')
      → Tried k found k'
  unfolding try_slot
  try_slot-Tried k {found} {k'} q e =
      go (is_runnable (k.tasks (after k 1))) (is_dead (k.tasks (after k 1)).status) refl refl e
    where
      k1 : Kernel
      k1 = record k { current_task = after k 1 }

      same_table : Quiet k k1
      same_table = record {
        slept = λ pid. Slept-refl (k.tasks pid);
        queues = q;
        memory = refl;
        tasking = refl;
      }

      go :
          (b d : Bool)
          → is_runnable (k.tasks (after k 1)) ≡ b
          → is_dead (k.tasks (after k 1)).status ≡ d
          → ◌≡◌ {A = Result (Bool × Kernel)}
              (if b
                then returned (true, k1)
                else if d
                then returned (false, k1)
                else flush_paused printf k1 >>= λ k2. returned (false, k2))
              (returned (found, k'))
          → Tried k found k'
      go true d hb hd h =
          let kernel : k' ≡ k1 = cc in
          let answer : found ≡ true = cc in
          rw (kernel, answer)
            (record { place = refl; runnable = hb; quiet = same_table; others = λ j ne. refl })
      go false true hb hd h =
          let kernel : k' ≡ k1 = cc in
          let answer : found ≡ false = cc in
          rw (kernel, answer)
            (record { place = refl; runnable = hb; quiet = same_table; others = λ j ne. refl })
      go false false hb hd h =
          let (k2, flushed, last) = >>=-eq-returned (flush_paused printf k1) _ h in
          let kernel : k' ≡ k2 = cc in
          let answer : found ≡ false = cc in
          let (quiet, place, others) = flush_paused-Quiet printf k1 q hb hd flushed in
          rw (kernel, answer)
            (record {
              place = place;
              runnable = rw place hb;
              quiet = record {
                slept = quiet.slept;
                queues = quiet.queues;
                memory = quiet.memory;
                tasking = quiet.tasking;
              };
              others = others;
            })

  pub find_task-Chosen :
      (n : ℕ) (regs : IntRegs) (k : Kernel) {regs' : IntRegs} {k' : Kernel}
      → n ≤ tasks_cap
      → AllQueues k
      → find_task printf n regs k ≡ returned (regs', k')
      → Chosen n k regs' k'
  unfolding find_task panic
  find_task-Chosen zero regs k small q e = cc
  find_task-Chosen (suc n) regs k {regs'} {k'} small q e =
      let (r, tried, rest) = >>=-eq-returned (try_slot printf k) _ e in
      go r.0 r.1 tried rest (find_task-Chosen n regs r.1 (omega arith))
    where
      go :
          (found : Bool) (k1 : Kernel)
          → try_slot printf k ≡ returned (found, k1)
          → elim found [
            | true ↦ returned (load_regs (k1.tasks k1.current_task).regs, k1)
            | false ↦ find_task printf n regs k1
          ]
            ≡ returned (regs', k')
          → (AllQueues k1
              → find_task printf n regs k1 ≡ returned (regs', k')
              → Chosen n k1 regs' k')
          → Chosen (suc n) k regs' k'
      go true k1 tried f ih =
          let t = try_slot-Tried k q tried in
          let kernel : k' ≡ k1 = cc in
          rw kernel (record {
            steps = 0;
            in_time = omega arith;
            place = t.place;
            runs = t.runnable;
            skipped = λ i lt. absurd (omega arith);
            loaded =
                (let loaded : load_regs (k1.tasks k1.current_task).regs ≡ regs' = cc in
                  sym loaded ∙ ap load_regs (t.quiet.slept k1.current_task).regs);
            quiet = t.quiet;
          })
      go false k1 tried f ih =
          let t = try_slot-Tried k q tried in
          let rest = ih t.quiet.queues f in
          record {
            steps = suc rest.steps;
            in_time = omega arith;
            place = omega (arith, t.place, rest.place);
            runs =
                rw
                  (← t.others k'.current_task
                    (λ e. absurd (omega (arith, t.place, rest.place, rest.in_time))))
                  rest.runs;
            skipped = elim [
              | zero ↦ λ lt. rw (← t.place) t.runnable
              | suc i ↦ λ lt.
                  let same : after k (suc (suc i)) ≡ after k1 (suc i) = omega (arith, t.place) in
                  rw same (
                    Slept-runnable (t.quiet.slept (after k1 (suc i)))
                      (rest.skipped i (omega arith)))
            ];
            loaded = rest.loaded ∙ ap load_regs (t.quiet.slept k'.current_task).regs;
            quiet = Quiet-trans t.quiet rest.quiet;
          }
