-- ===== src/Programs/Account.antt =====
-- A `login` of kernel/test.c that reads the name of an account.
use klyx.Prelude.{
  arith, ℕ, ◌-◌, ◌≡◌, ◌∙◌, refl, ap, ap₂, Bool, true, false, List, [], ◌∷◌, Option, none, some,
  if◌then◌else◌,
}
use klyx.Machine.Regs.{IntRegs}
use klyx.Machine.Memory.{Memory}
use klyx.Machine.Outcome.{returned}
use klyx.Sched.Task.{Kernel}
use klyx.Sched.Flush.{Printf, Result}
use klyx.Traps.Syscall.{Env, self, syscall_handler}
use klyx.Programs.Calls.{scn_tty_read, syscall_0, syscall_2}
use klyx.Programs.Login.{names, login_cap, become, login_loop, login}
use klyx.Programs.Owner.{OwnedBy, same_tasks-OwnedBy, become-OwnedBy, read-same, at_prompt}

-- The account that the line in `buf` names.
abbrev pub account_named : Memory → (buf : ℕ) → Option ℕ
account_named m buf =
    if names m buf (b'r' ∷ b'o' ∷ b'o' ∷ b't' ∷ [])
    then some 0
    else if names m buf (b'a' ∷ b'l' ∷ b'i' ∷ b'c' ∷ b'e' ∷ [])
    then some 1001
    else if names m buf (b'b' ∷ b'o' ∷ b'b' ∷ [])
    then some 1002
    else if names m buf (b'e' ∷ b'v' ∷ b'a' ∷ [])
    then some 1000
    else none

module _ (printf : Printf) (env : Env) (regs : IntRegs) where
  -- What a login that has read a known name returns with.
  enter-OwnedBy :
      (l : Kernel) (id : ℕ) (rest : Result Kernel)
      → (self l).uid ≡ 0
      → (b1 b2 b3 b4 : Bool)
      → (if b1
          then some 0
          else if b2
          then some 1001
          else if b3
          then some 1002
          else if b4
          then some 1000
          else none)
        ≡ some id
      → (k' : Kernel) × ((if b1
            then returned l
            else if b2
            then become printf env regs 1001 l
            else if b3
            then become printf env regs 1002 l
            else if b4
            then become printf env regs 1000 l
            else rest)
          ≡ returned k')
        × OwnedBy id l k'
  enter-OwnedBy l id rest is_root true b2 b3 b4 f =
      let zero_id : id ≡ 0 = cc in
      (
        l,
        refl,
        rw zero_id (record {
          current = refl;
          task = ap (λ u. record (self l) { uid = u }) is_root;
          others = λ j o. refl;
        }),
      )
  enter-OwnedBy l id rest is_root false true b3 b4 f =
      let same : id ≡ 1001 = cc in
      rw same (become-OwnedBy printf env regs 1001 l is_root (λ z. omega arith))
  enter-OwnedBy l id rest is_root false false true b4 f =
      let same : id ≡ 1002 = cc in
      rw same (become-OwnedBy printf env regs 1002 l is_root (λ z. omega arith))
  enter-OwnedBy l id rest is_root false false false true f =
      let same : id ≡ 1000 = cc in
      rw same (become-OwnedBy printf env regs 1000 l is_root (λ z. omega arith))
  enter-OwnedBy l id rest is_root false false false false f = cc

  -- A login of a task with user and group 0 whose first read returns with the name of an account
  -- in the buffer returns, and the task has the user of that account, while its group stays 0 and
  -- the other tasks are as they were.
  pub login-returned :
      (buf : ℕ) (input : Env) (inputs : List Env) (k : Kernel) {r : ℕ × Kernel} {id : ℕ}
      → (self k).uid ≡ 0
      → (self k).gid ≡ 0
      → syscall_2 printf input regs scn_tty_read buf
          (login_cap - 1)
          (at_prompt printf env regs buf k)
        ≡ returned r
      → account_named r.1.memory buf ≡ some id
      → (k' : Kernel) × (login printf env regs buf (input ∷ inputs) k ≡ returned k')
        × OwnedBy id k k'
  unfolding login login_loop syscall_0 syscall_handler
  login-returned buf input inputs k {r} {id} is_root group read named =
      let (tasks, current) =
        read-same printf env regs input buf (login_cap - 1) (at_prompt printf env regs buf k)
          read in
      let still_root : (self r.1).uid ≡ 0 = ap₂ (λ f i. (f i).uid) tasks current ∙ is_root in
      let (k', e, owned) =
        enter-OwnedBy r.1 id (login_loop printf env regs buf inputs r.1) still_root
          (names r.1.memory buf (b'r' ∷ b'o' ∷ b'o' ∷ b't' ∷ []))
          (names r.1.memory buf (b'a' ∷ b'l' ∷ b'i' ∷ b'c' ∷ b'e' ∷ []))
          (names r.1.memory buf (b'b' ∷ b'o' ∷ b'b' ∷ []))
          (names r.1.memory buf (b'e' ∷ b'v' ∷ b'a' ∷ [])) named in
      (k', rw (is_root, group, read) e, same_tasks-OwnedBy id k r.1 k' tasks current owned)
