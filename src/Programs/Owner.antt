-- ===== src/Programs/Owner.antt =====
-- The user and the group of a task after `login` of kernel/test.c.
use klyx.Prelude.{
  arith, ◌+◌, ℕ, ◌-◌, ◌≡◌, ◌≢◌, ◌∙◌, refl, sym, ap, ap₂, Bool, true, false, List, [], ◌∷◌, Option,
  none, some, ==_ne, update_self, update_ne, if◌then◌else◌,
}
use klyx.Machine.Regs.{IntRegs}
use klyx.Machine.Memory.{memset}
use klyx.Machine.Outcome.{returned, ◌>>=◌, >>=-eq-returned}
use klyx.Console.Tty.{ReadResult, tty_read}
use klyx.Sched.Task.{Kernel}
use klyx.Sched.Flush.{Printf}
use klyx.Sched.Switch.{set_task}
use klyx.Traps.Syscall.{
  Env, self, put_buffer, finish_read, sys_tty_read, sys_setuid, sys_setgid, syscall_handler,
}
use klyx.Programs.Calls.{scn_tty_read, syscall_0, syscall_1, syscall_2}
use klyx.Programs.Login.{names, login_cap, prompt_text, become, say, login_loop, login}

-- Between two kernels that run the same task: the other tasks are as they were, and it has the user `id`.
pub record OwnedBy (id : ℕ) (k k' : Kernel) : Type 0 where
  pub current : k'.current_task ≡ k.current_task
  pub task : self k' ≡ record (self k) { uid = id }
  pub others : (j : ℕ) → j ≢ k.current_task → k'.tasks j ≡ k.tasks j

-- The users that `login` knows.
pub data Account : ℕ → Type 0 where
  root : Account 0
  alice : Account 1001
  bob : Account 1002
  eva : Account 1000

-- With the same table, and the same task running, a task keeps its user.
pub same_tasks-OwnedBy :
    (id : ℕ) (k l k' : Kernel)
    → l.tasks ≡ k.tasks
    → l.current_task ≡ k.current_task
    → OwnedBy id l k'
    → OwnedBy id k k'
same_tasks-OwnedBy id k l k' t c o = record {
  current = o.current ∙ c;
  task = o.task ∙ ap₂ (λ f i. record (f i) { uid = id }) t c;
  others = λ j ne. o.others j (λ e. ne (e ∙ c)) ∙ ap (λ f. f j) t;
}

module _ (printf : Printf) (env : Env) (regs : IntRegs) where
  -- The kernel when `login` asks for a name.
  abbrev pub at_prompt : ℕ → Kernel → Kernel
  at_prompt buf k =
      say printf env regs prompt_text (record k { memory = memset k.memory buf 0 login_cap })

  -- Once `setuid` has given up root, `setgid` is refused.
  become-returned :
      (id : ℕ) (k : Kernel)
      → (self k).uid ≡ 0
      → id ≢ 0
      → become printf env regs id k
        ≡ returned (set_task k.current_task (record (self k) { uid = id }) k)
  unfolding become syscall_1 syscall_handler sys_setuid sys_setgid
  become-returned id k is_root ne =
      rw (is_root, update_self k.tasks k.current_task (record (self k) { uid = id }), ==_ne id 0 ne)
        refl

  pub become-OwnedBy :
      (id : ℕ) (k : Kernel)
      → (self k).uid ≡ 0
      → id ≢ 0
      → (k' : Kernel) × (become printf env regs id k ≡ returned k') × OwnedBy id k k'
  become-OwnedBy id k is_root ne = (
    set_task k.current_task (record (self k) { uid = id }) k,
    become-returned id k is_root ne,
    record {
      current = refl;
      task = update_self k.tasks k.current_task (record (self k) { uid = id });
      others = λ j o. update_ne k.tasks k.current_task (record (self k) { uid = id }) j o;
    },
  )

  became :
      (id : ℕ) (k : Kernel) {k' : Kernel}
      → (self k).uid ≡ 0
      → id ≢ 0
      → become printf env regs id k ≡ returned k'
      → OwnedBy id k k'
  became id k {k'} is_root ne f =
      let (l, e, owned) = become-OwnedBy id k is_root ne in
      let same : returned l ≡ returned k' = sym e ∙ f in let kernel : k' ≡ l = cc in rw kernel owned

  -- A read changes no task.
  pub read-same :
      (input : Env) (ptr n : ℕ) (k : Kernel) {r : ℕ × Kernel}
      → syscall_2 printf input regs scn_tty_read ptr n k ≡ returned r
      → (r.1.tasks ≡ k.tasks) × (r.1.current_task ≡ k.current_task)
  unfolding syscall_2 syscall_handler sys_tty_read finish_read
  read-same input ptr n k {r} e =
      go (tty_read k.console (self k).tty (λ i. k.memory (ptr + i)) n input.rounds) e
    where
      go :
          (o : Option ReadResult)
          → (finish_read (record regs { eax = 3; ebx = ptr; ecx = n }) k o >>= λ a.
              returned (a.0.eax, a.1))
            ≡ returned r
          → (r.1.tasks ≡ k.tasks) × (r.1.current_task ≡ k.current_task)
      go none f = cc
      go (some x) f =
          let kernel : r.1
              ≡ record k { console = x.console; memory = put_buffer k.memory ptr n x.buf } =
            cc in
          rw kernel (refl, refl)

  login_loop-OwnedBy :
      (buf : ℕ) (inputs : List Env) (k : Kernel) {k' : Kernel}
      → (self k).uid ≡ 0
      → login_loop printf env regs buf inputs k ≡ returned k'
      → (id : ℕ) × Account id × OwnedBy id k k'
  unfolding login_loop
  login_loop-OwnedBy buf [] k is_root e = cc
  login_loop-OwnedBy buf (input ∷ inputs) k {k'} is_root e =
      let ready =
        say printf env regs prompt_text (record k { memory = memset k.memory buf 0 login_cap }) in
      let (r, read, rest) =
        >>=-eq-returned (syscall_2 printf input regs scn_tty_read buf (login_cap - 1) ready) _ e in
      let (tasks, current) = read-same input buf (login_cap - 1) ready read in
      let still_root : (self r.1).uid ≡ 0 = ap₂ (λ f i. (f i).uid) tasks current ∙ is_root in
      let (id, account, owned) =
        go r.1 still_root (names r.1.memory buf (b'r' ∷ b'o' ∷ b'o' ∷ b't' ∷ []))
          (names r.1.memory buf (b'a' ∷ b'l' ∷ b'i' ∷ b'c' ∷ b'e' ∷ []))
          (names r.1.memory buf (b'b' ∷ b'o' ∷ b'b' ∷ []))
          (names r.1.memory buf (b'e' ∷ b'v' ∷ b'a' ∷ [])) rest
          (login_loop-OwnedBy buf inputs r.1 still_root) in
      (id, account, same_tasks-OwnedBy id k r.1 k' tasks current owned)
    where
      go :
          (l : Kernel)
          → (self l).uid ≡ 0
          → (b1 b2 b3 b4 : Bool)
          → (if b1
              then returned l
              else if b2
              then become printf env regs 1001 l
              else if b3
              then become printf env regs 1002 l
              else if b4
              then become printf env regs 1000 l
              else login_loop printf env regs buf inputs l)
            ≡ returned k'
          → (login_loop printf env regs buf inputs l ≡ returned k'
              → (id : ℕ) × Account id × OwnedBy id l k')
          → (id : ℕ) × Account id × OwnedBy id l k'
      go l is_root true b2 b3 b4 f ih =
          let kernel : k' ≡ l = cc in
          (
            0,
            root,
            rw kernel (record {
              current = refl;
              task = ap (λ u. record (self l) { uid = u }) is_root;
              others = λ j o. refl;
            }),
          )
      go l is_root false true b3 b4 f ih = (1001, alice, became 1001 l is_root (λ z. omega arith) f)
      go l is_root false false true b4 f ih =
          (1002, bob, became 1002 l is_root (λ z. omega arith) f)
      go l is_root false false false true f ih =
          (1000, eva, became 1000 l is_root (λ z. omega arith) f)
      go l is_root false false false false f ih = ih f

  -- A login of a task with user and group 0 that returns has given the task the user of one of the
  -- four accounts, and nothing else: its group stays 0 whatever the account, and the other tasks
  -- are as they were.
  pub login-OwnedBy :
      (buf : ℕ) (inputs : List Env) (k : Kernel) {k' : Kernel}
      → (self k).uid ≡ 0
      → (self k).gid ≡ 0
      → login printf env regs buf inputs k ≡ returned k'
      → (id : ℕ) × Account id × OwnedBy id k k'
  unfolding login syscall_0 syscall_handler
  login-OwnedBy buf inputs k is_root group e =
      login_loop-OwnedBy buf inputs k is_root (rw (is_root, group) at e)
