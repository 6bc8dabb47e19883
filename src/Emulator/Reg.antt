-- ===== src/Emulator/Reg.antt =====
-- `i386_reg_t` and the reads and writes of a register by its name, on both kinds of register block.
use klyx.Prelude.{ℕ, ◌/◌, ◌^◌, bit_and, bit_or}
use klyx.Machine.Regs.{IntRegs, Regs}

-- `enum i386_reg`.
pub data Reg : Type 0 where
  eax ebx ecx edx esi edi esp ebp eip : Reg
  ax bx cx dx si di sp bp ip : Reg
  al bl cl dl : Reg
  ah bh ch dh : Reg
  eflags cs ds ss es fs gs : Reg

-- The values that the four kinds of write leave in a 32-bit register `old`.
unfoldable pub put_low16 : (old value : ℕ) → ℕ
put_low16 old value = bit_or (bit_and old 0xFFFF0000) (bit_and value 0x0000FFFF)

-- The masks of AL, BL, CL and DL.
unfoldable pub put_low8 : (old value : ℕ) → ℕ
put_low8 old value = bit_or (bit_and old 0xFFFFFF00) (bit_and value 0x0000FF00)

-- The masks of AH, BH, CH and DH.
unfoldable pub put_high8 : (old value : ℕ) → ℕ
put_high8 old value = bit_or (bit_and old 0xFFFF00FF) (bit_and value 0x000000FF)

-- `x&0xFFFF`, `x&0xFF` and `(x&0xFFFF)>>8`.
unfoldable pub low16 : ℕ → ℕ
low16 x = bit_and x 0xFFFF

unfoldable pub low8 : ℕ → ℕ
low8 x = bit_and x 0xFF

unfoldable pub high8 : ℕ → ℕ
high8 x = bit_and x 0xFFFF / 2 ^ 8

unfoldable pub read_ir : IntRegs → Reg → ℕ
unfolding low16 low8 high8
read_ir r eax = r.eax
read_ir r ebx = r.ebx
read_ir r ecx = r.ecx
read_ir r edx = r.edx
read_ir r esi = r.esi
read_ir r edi = r.edi
read_ir r esp = r.esp
read_ir r ebp = r.ebp
read_ir r eip = r.eip
read_ir r ax = low16 r.eax
read_ir r bx = low16 r.ebx
read_ir r cx = low16 r.ecx
read_ir r dx = low16 r.edx
read_ir r si = low16 r.esi
read_ir r di = low16 r.edi
read_ir r sp = low16 r.esp
read_ir r bp = low16 r.ebp
read_ir r ip = low16 r.eip
read_ir r al = low8 r.eax
read_ir r bl = low8 r.ebx
read_ir r cl = low8 r.ecx
read_ir r dl = low8 r.edx
read_ir r ah = high8 r.eax
read_ir r bh = high8 r.ebx
read_ir r ch = high8 r.ecx
read_ir r dh = high8 r.edx
read_ir r eflags = r.eflags
read_ir r cs = r.cs
read_ir r ds = r.ds
read_ir r ss = r.ss
read_ir r es = r.es
read_ir r fs = r.fs
read_ir r gs = r.gs

unfoldable pub read_tr : Regs → Reg → ℕ
unfolding low16 low8 high8
read_tr r eax = r.eax
read_tr r ebx = r.ebx
read_tr r ecx = r.ecx
read_tr r edx = r.edx
read_tr r esi = r.esi
read_tr r edi = r.edi
read_tr r esp = r.esp
read_tr r ebp = r.ebp
read_tr r eip = r.eip
read_tr r ax = low16 r.eax
read_tr r bx = low16 r.ebx
read_tr r cx = low16 r.ecx
read_tr r dx = low16 r.edx
read_tr r si = low16 r.esi
read_tr r di = low16 r.edi
read_tr r sp = low16 r.esp
read_tr r bp = low16 r.ebp
read_tr r ip = low16 r.eip
read_tr r al = low8 r.eax
read_tr r bl = low8 r.ebx
read_tr r cl = low8 r.ecx
read_tr r dl = low8 r.edx
read_tr r ah = high8 r.eax
read_tr r bh = high8 r.ebx
read_tr r ch = high8 r.ecx
read_tr r dh = high8 r.edx
read_tr r eflags = r.eflags
read_tr r cs = r.cs
read_tr r ds = r.ds
read_tr r ss = r.ss
read_tr r es = r.es
read_tr r fs = r.fs
read_tr r gs = r.gs

unfoldable pub write_ir : IntRegs → Reg → ℕ → IntRegs
unfolding put_low16 put_low8 put_high8
write_ir r eax v = record r { eax = v }
write_ir r ebx v = record r { ebx = v }
write_ir r ecx v = record r { ecx = v }
write_ir r edx v = record r { edx = v }
write_ir r esi v = record r { esi = v }
write_ir r edi v = record r { edi = v }
write_ir r esp v = record r { esp = v }
write_ir r ebp v = record r { ebp = v }
write_ir r eip v = record r { eip = v }
write_ir r ax v = record r { eax = put_low16 r.eax v }
write_ir r bx v = record r { ebx = put_low16 r.ebx v }
write_ir r cx v = record r { ecx = put_low16 r.ecx v }
write_ir r dx v = record r { edx = put_low16 r.edx v }
write_ir r si v = record r { esi = put_low16 r.esi v }
write_ir r di v = record r { edi = put_low16 r.edi v }
write_ir r sp v = record r { esp = put_low16 r.esp v }
write_ir r bp v = record r { ebp = put_low16 r.ebp v }
write_ir r ip v = record r { eip = put_low16 r.eip v }
write_ir r al v = record r { eax = put_low8 r.eax v }
write_ir r bl v = record r { ebx = put_low8 r.ebx v }
write_ir r cl v = record r { ecx = put_low8 r.ecx v }
write_ir r dl v = record r { edx = put_low8 r.edx v }
write_ir r ah v = record r { eax = put_high8 r.eax v }
write_ir r bh v = record r { ebx = put_high8 r.ebx v }
write_ir r ch v = record r { ecx = put_high8 r.ecx v }
write_ir r dh v = record r { edx = put_high8 r.edx v }
write_ir r eflags v = record r { eflags = v }
write_ir r cs v = record r { cs = v }
write_ir r ds v = record r { ds = v }
write_ir r ss v = record r { ss = v }
write_ir r es v = record r { es = v }
write_ir r fs v = record r { fs = v }
write_ir r gs v = record r { gs = v }

unfoldable pub write_tr : Regs → Reg → ℕ → Regs
unfolding put_low16 put_low8 put_high8
write_tr r eax v = record r { eax = v }
write_tr r ebx v = record r { ebx = v }
write_tr r ecx v = record r { ecx = v }
write_tr r edx v = record r { edx = v }
write_tr r esi v = record r { esi = v }
write_tr r edi v = record r { edi = v }
write_tr r esp v = record r { esp = v }
write_tr r ebp v = record r { ebp = v }
write_tr r eip v = record r { eip = v }
write_tr r ax v = record r { eax = put_low16 r.eax v }
write_tr r bx v = record r { ebx = put_low16 r.ebx v }
write_tr r cx v = record r { ecx = put_low16 r.ecx v }
write_tr r dx v = record r { edx = put_low16 r.edx v }
write_tr r si v = record r { esi = put_low16 r.esi v }
write_tr r di v = record r { edi = put_low16 r.edi v }
write_tr r sp v = record r { esp = put_low16 r.esp v }
write_tr r bp v = record r { ebp = put_low16 r.ebp v }
write_tr r ip v = record r { eip = put_low16 r.eip v }
write_tr r al v = record r { eax = put_low8 r.eax v }
write_tr r bl v = record r { ebx = put_low8 r.ebx v }
write_tr r cl v = record r { ecx = put_low8 r.ecx v }
write_tr r dl v = record r { edx = put_low8 r.edx v }
write_tr r ah v = record r { eax = put_high8 r.eax v }
write_tr r bh v = record r { ebx = put_high8 r.ebx v }
write_tr r ch v = record r { ecx = put_high8 r.ecx v }
write_tr r dh v = record r { edx = put_high8 r.edx v }
write_tr r eflags v = record r { eflags = v }
write_tr r cs v = record r { cs = v }
write_tr r ds v = record r { ds = v }
write_tr r ss v = record r { ss = v }
write_tr r es v = record r { es = v }
write_tr r fs v = record r { fs = v }
write_tr r gs v = record r { gs = v }
