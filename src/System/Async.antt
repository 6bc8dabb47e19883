-- ===== src/System/Async.antt =====
-- INT_BECAME_ASYNC and INT_BECAME_SYNC of kernel/traps.c: a handler lets interrupts in, whose INT_START
-- and INT_END use the same globals of kernel/hw.c.
use klyx.Prelude.{ℕ, ◌+◌, ◌%◌, ◌^◌, Bool, true, false, List, [], ◌∷◌, update}
use klyx.Machine.Regs.{IntRegs}
use klyx.Machine.Entry.{Words, regs_at, int_start, return_to}
use klyx.System.Interrupt.{put_regs}

-- `interrupt_*_ptr` and `is_in_interrupt`.
pub record Pointers : Type 0 where
  pub esp_stack : ℕ
  pub eip_instr : ℕ
  pub efl_instr : ℕ
  pub cds_instr : ℕ
  pub is_in_interrupt : Bool

-- INT_START.
unfoldable pub enter : IntRegs → Pointers × Words → Pointers × Words
enter c (g, m) =
    let s = int_start c m in (record g { esp_stack = s.0; is_in_interrupt = true }, s.1)

-- INT_END: the pops start where `interrupt_esp_stack_ptr` points, while `regs`, at `p`, is a local.
unfoldable pub finish : (p : ℕ) → Pointers × Words → IntRegs × Pointers × Words
finish p (g, m) =
    let popped = regs_at m g.esp_stack in
    let top = (regs_at m p).esp in
    let back = return_to (record popped { esp = top }) m in
    (
      back.0,
      record {
        esp_stack = (top + 12) % 2 ^ 32;
        eip_instr = popped.eip;
        efl_instr = popped.eflags;
        cds_instr = popped.cs;
        is_in_interrupt = false;
      },
      back.1,
    )

-- What happens to the stack's words during a call that has let interrupts in: an interrupt whose handler
-- leaves its frame alone, as the keyboard's, with the registers that it finds, or a store of the call itself,
-- of `buf` in tty_read: the aligned word at an address and its new value.
pub data During : Type 0 where
  interrupted : IntRegs → During
  stored : (address value : ℕ) → During

unfoldable pub during : List During → Pointers × Words → Pointers × Words
during [] s = s
during (interrupted c ∷ ds) s =
    let (g, m) = enter c s in let (c', g', m') = finish g.esp_stack (g, m) in during ds (g', m')
during (stored a v ∷ ds) (g, m) = during ds (g, update m a v)

-- The stores of the call alone, as if no interrupt came.
unfoldable pub stores : List During → Words → Words
stores [] m = m
stores (interrupted c ∷ ds) m = stores ds m
stores (stored a v ∷ ds) m = stores ds (update m a v)

-- INT_BECAME_SYNC, with what INT_BECAME_ASYNC has saved.
unfoldable pub became_sync : (saved : Pointers) → Pointers → Pointers
became_sync saved g = record g {
  esp_stack = saved.esp_stack;
  eip_instr = saved.eip_instr;
  efl_instr = saved.efl_instr;
  cds_instr = saved.cds_instr;
}

-- The calls 2 and 3 of `syscall_handler`: `regs->eax` gets the value of a call, with what happens during it.
unfoldable pub async_call :
    (value : ℕ) → IntRegs → List During → Pointers × Words → IntRegs × Pointers × Words
async_call value c ds s =
    let (g, m) = enter c s in
    let p = g.esp_stack in
    let (g', m') = during ds (g, m) in
    finish p (became_sync g g', put_regs m' p (record (regs_at m' p) { eax = value }))
