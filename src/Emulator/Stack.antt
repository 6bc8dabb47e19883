-- ===== src/Emulator/Stack.antt =====
-- `push` and `pop` of kernel/i386_emulator.c, one after the other.
use klyx.Prelude.{
  ℕ, ◌+◌, ◌-◌, ◌/◌, ◌%◌, ◌^◌, ◌<◌, ◌≡◌, ◌≢◌, ◌∙◌, refl, ap, some, none, Option, update, update_self,
  update_ne, arith,
}
use klyx.Machine.Regs.{IntRegs}
use klyx.Machine.Memory.{Memory, load32, store32}
use klyx.Emulator.Reg.{
  Reg, eax, ebx, ecx, edx, esi, edi, esp, ebp, eip, ax, bx, cx, dx, si, di, sp, bp, ip, al, bl, cl,
  dl, ah, bh, ch, dh, eflags, cs, ds, ss, es, fs, gs, read_ir, write_ir,
}
use klyx.Emulator.Operand.{Rexpr, reg_of_id, reg, u32}
use klyx.Emulator.Frame.{write_id_ir, reget_ir, set_place_ir, leset_ir}
use klyx.Emulator.Instr.{int_regs_file, push, pop}
use klyx.Emulator.Written.{whole}

-- A 32-bit word comes back from its four bytes.
load32-store32 : (m : Memory) (p v : ℕ) → v < 2 ^ 32 → load32 (store32 m p v) p ≡ v
unfolding load32 store32
load32-store32 m p v lt =
    let m1 = update m p (v % 256) in
    let m2 = update m1 (p + 1) (v / 2 ^ 8 % 256) in
    let m3 = update m2 (p + 2) (v / 2 ^ 16 % 256) in
    let m4 = update m3 (p + 3) (v / 2 ^ 24 % 256) in
    let byte0 : m4 p ≡ v % 256 =
      update_ne m3 (p + 3) _ p (λ e. omega arith)
      ∙ update_ne m2 (p + 2) _ p (λ e. omega arith)
      ∙ update_ne m1 (p + 1) _ p (λ e. omega arith)
      ∙ update_self m p (v % 256) in
    let byte1 : m4 (p + 1) ≡ v / 2 ^ 8 % 256 =
      update_ne m3 (p + 3) _ (p + 1) (λ e. omega arith)
      ∙ update_ne m2 (p + 2) _ (p + 1) (λ e. omega arith)
      ∙ update_self m1 (p + 1) (v / 2 ^ 8 % 256) in
    let byte2 : m4 (p + 2) ≡ v / 2 ^ 16 % 256 =
      update_ne m3 (p + 3) _ (p + 2) (λ e. omega arith)
      ∙ update_self m2 (p + 2) (v / 2 ^ 16 % 256) in
    let byte3 : m4 (p + 3) ≡ v / 2 ^ 24 % 256 = update_self m3 (p + 3) (v / 2 ^ 24 % 256) in
    rw (byte0, byte1, byte2, byte3) (omega arith)

write_ir-esp :
    (r : IntRegs) (name : Reg) (v x : ℕ)
    → whole name ≢ esp
    → read_ir (write_ir (record r { esp = x }) name v) esp ≡ x
unfolding read_ir write_ir
write_ir-esp r eax v x ne = refl
write_ir-esp r ebx v x ne = refl
write_ir-esp r ecx v x ne = refl
write_ir-esp r edx v x ne = refl
write_ir-esp r esi v x ne = refl
write_ir-esp r edi v x ne = refl
write_ir-esp r esp v x ne = absurd (ne refl)
write_ir-esp r ebp v x ne = refl
write_ir-esp r eip v x ne = refl
write_ir-esp r ax v x ne = refl
write_ir-esp r bx v x ne = refl
write_ir-esp r cx v x ne = refl
write_ir-esp r dx v x ne = refl
write_ir-esp r si v x ne = refl
write_ir-esp r di v x ne = refl
write_ir-esp r sp v x ne = absurd (ne refl)
write_ir-esp r bp v x ne = refl
write_ir-esp r ip v x ne = refl
write_ir-esp r al v x ne = refl
write_ir-esp r bl v x ne = refl
write_ir-esp r cl v x ne = refl
write_ir-esp r dl v x ne = refl
write_ir-esp r ah v x ne = refl
write_ir-esp r bh v x ne = refl
write_ir-esp r ch v x ne = refl
write_ir-esp r dh v x ne = refl
write_ir-esp r eflags v x ne = refl
write_ir-esp r cs v x ne = refl
write_ir-esp r ds v x ne = refl
write_ir-esp r ss v x ne = refl
write_ir-esp r es v x ne = refl
write_ir-esp r fs v x ne = refl
write_ir-esp r gs v x ne = refl

write_ir-swap :
    (r : IntRegs) (name : Reg) (v x : ℕ)
    → whole name ≢ esp
    → write_ir (write_ir (record r { esp = x }) name v) esp r.esp ≡ write_ir r name v
unfolding read_ir write_ir
write_ir-swap r eax v x ne = refl
write_ir-swap r ebx v x ne = refl
write_ir-swap r ecx v x ne = refl
write_ir-swap r edx v x ne = refl
write_ir-swap r esi v x ne = refl
write_ir-swap r edi v x ne = refl
write_ir-swap r esp v x ne = absurd (ne refl)
write_ir-swap r ebp v x ne = refl
write_ir-swap r eip v x ne = refl
write_ir-swap r ax v x ne = refl
write_ir-swap r bx v x ne = refl
write_ir-swap r cx v x ne = refl
write_ir-swap r dx v x ne = refl
write_ir-swap r si v x ne = refl
write_ir-swap r di v x ne = refl
write_ir-swap r sp v x ne = absurd (ne refl)
write_ir-swap r bp v x ne = refl
write_ir-swap r ip v x ne = refl
write_ir-swap r al v x ne = refl
write_ir-swap r bl v x ne = refl
write_ir-swap r cl v x ne = refl
write_ir-swap r dl v x ne = refl
write_ir-swap r ah v x ne = refl
write_ir-swap r bh v x ne = refl
write_ir-swap r ch v x ne = refl
write_ir-swap r dh v x ne = refl
write_ir-swap r eflags v x ne = refl
write_ir-swap r cs v x ne = refl
write_ir-swap r ds v x ne = refl
write_ir-swap r ss v x ne = refl
write_ir-swap r es v x ne = refl
write_ir-swap r fs v x ne = refl
write_ir-swap r gs v x ne = refl

written :
    (r : IntRegs) (id : ℕ) (name : Reg) (w v : ℕ)
    → reg_of_id id ≡ some name
    → w ≡ v
    → write_id_ir r id w ≡ write_ir r name v
unfolding write_id_ir
written r id name w v known e =
    ap (λ (o : Option Reg). elim o as (λ _. IntRegs) [ none ↦ r | some n ↦ write_ir r n w ]) known
    ∙ ap (write_ir r name) e

-- The value that `push` stores, with the stack pointer already moved.
abbrev pub pushed : IntRegs → Memory → Rexpr → ℕ
pushed r m b = reget_ir (record r { esp = u32 (r.esp + (2 ^ 32 - 4)) }) m b

-- A pop into a register operand right after a push writes the value of the pushed operand, as it
-- is with the stack pointer already moved, to that register, and leaves all other registers, the
-- stack pointer too, as they were before the push: for every operand of push with a 32-bit value,
-- and every register but ESP and SP.
pub pop-push :
    (r : IntRegs) (m : Memory) (b : Rexpr) (id : ℕ) (name : Reg)
    → reg_of_id id ≡ some name
    → whole name ≢ esp
    → r.esp < 2 ^ 32
    → pushed r m b < 2 ^ 32
    → (pop int_regs_file
        (push int_regs_file r m b).0
        (push int_regs_file r m b).1
        (record { type = reg; member = id })).0
      ≡ write_ir r name (pushed r m b)
unfolding pop push leset_ir set_place_ir write_id_ir read_ir write_ir
pop-push r m b id name known ne lt fits =
    let x = u32 (r.esp + (2 ^ 32 - 4)) in
    let v = pushed r m b in
    let moved = record r { esp = x } in
    ap up (written moved id name _ v known (load32-store32 m x v fits))
    ∙ ap (λ e. write_ir (write_ir moved name v) esp e)
        (ap (λ e. u32 (e + 4)) (write_ir-esp r name v x ne) ∙ back (r.esp) lt)
    ∙ write_ir-swap r name v x ne
  where
    up : IntRegs → IntRegs
    up s = write_ir s esp (u32 (read_ir s esp + 4))

    back : (e : ℕ) → e < 2 ^ 32 → u32 (u32 (e + (2 ^ 32 - 4)) + 4) ≡ e
    back e l = omega arith
