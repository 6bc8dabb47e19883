-- ===== src/System/Interrupt.antt =====
-- An entry of kernel/traps.c as a whole: INT_START on the stack of the interrupted task, the handler on the
-- frame, which it changes in place, and INT_END.
use klyx.Prelude.{ℕ, ◌+◌, List, [], ◌∷◌, update}
use klyx.Machine.Regs.{IntRegs}
use klyx.Machine.Outcome.{returned, ◌>>=◌}
use klyx.Machine.Entry.{Words, regs_at, int_start, int_end}
use klyx.Sched.Task.{Kernel}
use klyx.Sched.Flush.{Result}

-- Words at rising addresses.
unfoldable pub write_words : List ℕ → ℕ → Words → Words
write_words [] p m = m
write_words (v ∷ vs) p m = write_words vs (p + 4) (update m p v)

-- The fields of `int_regs_t`, in its order.
abbrev pub fields : IntRegs → List ℕ
fields r =
    r.gs ∷ r.fs ∷ r.es ∷ r.ss ∷ r.ds ∷ r.edi ∷ r.esi ∷ r.ebp ∷ r.esp ∷ r.ebx ∷ r.edx ∷ r.ecx ∷ r.eax
    ∷ r.eip ∷ r.cs ∷ r.eflags ∷ []

-- The frame at `p` once the handler has left `r` in it.
abbrev pub put_regs : Words → (p : ℕ) → IntRegs → Words
put_regs m p r = write_words (fields r) p m

-- INT_END on the frame at `p` that the handler has left.
abbrev pub leave : (p : ℕ) → Words → IntRegs × Kernel → IntRegs × Words × Kernel
leave p m (r, k) = let back = int_end p (put_regs m p r) in (back.0, back.1, k)

-- `c` are the registers of the processor; those that it goes on with come first in the result.
unfoldable pub interrupt :
    (handler : IntRegs → Kernel → Result (IntRegs × Kernel))
    → IntRegs
    → Words
    → Kernel
    → Result (IntRegs × Words × Kernel)
interrupt handler c m k =
    let (p, m1) = int_start c m in handler (regs_at m1 p) k >>= λ r. returned (leave p m1 r)
