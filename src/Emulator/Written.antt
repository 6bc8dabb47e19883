-- ===== src/Emulator/Written.antt =====
-- A read of a register by its name, behind a write to it.
use klyx.Prelude.{ℕ, ◌%◌, ◌^◌, ◌≡◌, refl}
use klyx.Machine.Regs.{IntRegs}
use klyx.Emulator.Reg.{
  Reg, eax, ebx, ecx, edx, esi, edi, esp, ebp, eip, ax, bx, cx, dx, si, di, sp, bp, ip, al, bl, cl,
  dl, ah, bh, ch, dh, eflags, cs, ds, ss, es, fs, gs, read_ir, write_ir,
}
use klyx.Emulator.Partial.{low16-put_low16, low8-put_low8, high8-put_high8}

-- What is read behind a write of `v`.
abbrev pub read_back : Reg → ℕ → ℕ
read_back ax v = v % 2 ^ 16
read_back bx v = v % 2 ^ 16
read_back cx v = v % 2 ^ 16
read_back dx v = v % 2 ^ 16
read_back si v = v % 2 ^ 16
read_back di v = v % 2 ^ 16
read_back sp v = v % 2 ^ 16
read_back bp v = v % 2 ^ 16
read_back ip v = v % 2 ^ 16
read_back al v = 0
read_back bl v = 0
read_back cl v = 0
read_back dl v = 0
read_back ah v = 0
read_back bh v = 0
read_back ch v = 0
read_back dh v = 0
read_back name v = v

-- The 32-bit register that a name is a part of.
abbrev pub whole : Reg → Reg
whole ax = eax
whole bx = ebx
whole cx = ecx
whole dx = edx
whole si = esi
whole di = edi
whole sp = esp
whole bp = ebp
whole ip = eip
whole al = eax
whole bl = ebx
whole cl = ecx
whole dl = edx
whole ah = eax
whole bh = ebx
whole ch = ecx
whole dh = edx
whole name = name

read_ir-write_ir :
    (r : IntRegs) (name : Reg) (v : ℕ) → read_ir (write_ir r name v) name ≡ read_back name v
unfolding read_ir write_ir
read_ir-write_ir r eax v = refl
read_ir-write_ir r ebx v = refl
read_ir-write_ir r ecx v = refl
read_ir-write_ir r edx v = refl
read_ir-write_ir r esi v = refl
read_ir-write_ir r edi v = refl
read_ir-write_ir r esp v = refl
read_ir-write_ir r ebp v = refl
read_ir-write_ir r eip v = refl
read_ir-write_ir r ax v = low16-put_low16 r.eax v
read_ir-write_ir r bx v = low16-put_low16 r.ebx v
read_ir-write_ir r cx v = low16-put_low16 r.ecx v
read_ir-write_ir r dx v = low16-put_low16 r.edx v
read_ir-write_ir r si v = low16-put_low16 r.esi v
read_ir-write_ir r di v = low16-put_low16 r.edi v
read_ir-write_ir r sp v = low16-put_low16 r.esp v
read_ir-write_ir r bp v = low16-put_low16 r.ebp v
read_ir-write_ir r ip v = low16-put_low16 r.eip v
read_ir-write_ir r al v = low8-put_low8 r.eax v
read_ir-write_ir r bl v = low8-put_low8 r.ebx v
read_ir-write_ir r cl v = low8-put_low8 r.ecx v
read_ir-write_ir r dl v = low8-put_low8 r.edx v
read_ir-write_ir r ah v = high8-put_high8 r.eax v
read_ir-write_ir r bh v = high8-put_high8 r.ebx v
read_ir-write_ir r ch v = high8-put_high8 r.ecx v
read_ir-write_ir r dh v = high8-put_high8 r.edx v
read_ir-write_ir r eflags v = refl
read_ir-write_ir r cs v = refl
read_ir-write_ir r ds v = refl
read_ir-write_ir r ss v = refl
read_ir-write_ir r es v = refl
read_ir-write_ir r fs v = refl
read_ir-write_ir r gs v = refl

write_ir-whole :
    (r : IntRegs) (name : Reg) (v : ℕ)
    → write_ir (write_ir r name v) (whole name) (read_ir r (whole name)) ≡ r
unfolding read_ir write_ir
write_ir-whole r eax v = refl
write_ir-whole r ebx v = refl
write_ir-whole r ecx v = refl
write_ir-whole r edx v = refl
write_ir-whole r esi v = refl
write_ir-whole r edi v = refl
write_ir-whole r esp v = refl
write_ir-whole r ebp v = refl
write_ir-whole r eip v = refl
write_ir-whole r ax v = refl
write_ir-whole r bx v = refl
write_ir-whole r cx v = refl
write_ir-whole r dx v = refl
write_ir-whole r si v = refl
write_ir-whole r di v = refl
write_ir-whole r sp v = refl
write_ir-whole r bp v = refl
write_ir-whole r ip v = refl
write_ir-whole r al v = refl
write_ir-whole r bl v = refl
write_ir-whole r cl v = refl
write_ir-whole r dl v = refl
write_ir-whole r ah v = refl
write_ir-whole r bh v = refl
write_ir-whole r ch v = refl
write_ir-whole r dh v = refl
write_ir-whole r eflags v = refl
write_ir-whole r cs v = refl
write_ir-whole r ds v = refl
write_ir-whole r ss v = refl
write_ir-whole r es v = refl
write_ir-whole r fs v = refl
write_ir-whole r gs v = refl

-- A write to a register by its name touches the 32-bit register alone that it is a part of, and
-- what is then read from the name is the value, its lower half for a name of 16 bits, and 0 for
-- AL, BL, CL, DL, AH, BH, CH and DH, whatever the value.
pub write_ir-read :
    (r : IntRegs) (name : Reg) (v : ℕ)
    → (read_ir (write_ir r name v) name ≡ read_back name v)
      × (write_ir (write_ir r name v) (whole name) (read_ir r (whole name)) ≡ r)
write_ir-read r name v = (read_ir-write_ir r name v, write_ir-whole r name v)
