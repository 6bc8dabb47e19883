-- ===== src/Emulator/Blocks.antt =====
-- The two register blocks behave alike: each pair of functions that the source makes from one macro, for
-- `int_regs_t` and for `regs_t`, does the same, if the blocks hold the same registers.
use klyx.Prelude.{ℕ, ◌≡◌, refl}
use klyx.Machine.Regs.{IntRegs, save_regs}
use klyx.Emulator.Reg.{Reg, read_ir, read_tr, write_ir, write_tr}

-- A register is read alike in both blocks.
pub read_tr-save_regs : (r : IntRegs) (name : Reg) → read_tr (save_regs r) name ≡ read_ir r name
unfolding read_tr read_ir save_regs
read_tr-save_regs r Reg.eax = refl
read_tr-save_regs r Reg.ebx = refl
read_tr-save_regs r Reg.ecx = refl
read_tr-save_regs r Reg.edx = refl
read_tr-save_regs r Reg.esi = refl
read_tr-save_regs r Reg.edi = refl
read_tr-save_regs r Reg.esp = refl
read_tr-save_regs r Reg.ebp = refl
read_tr-save_regs r Reg.eip = refl
read_tr-save_regs r Reg.ax = refl
read_tr-save_regs r Reg.bx = refl
read_tr-save_regs r Reg.cx = refl
read_tr-save_regs r Reg.dx = refl
read_tr-save_regs r Reg.si = refl
read_tr-save_regs r Reg.di = refl
read_tr-save_regs r Reg.sp = refl
read_tr-save_regs r Reg.bp = refl
read_tr-save_regs r Reg.ip = refl
read_tr-save_regs r Reg.al = refl
read_tr-save_regs r Reg.bl = refl
read_tr-save_regs r Reg.cl = refl
read_tr-save_regs r Reg.dl = refl
read_tr-save_regs r Reg.ah = refl
read_tr-save_regs r Reg.bh = refl
read_tr-save_regs r Reg.ch = refl
read_tr-save_regs r Reg.dh = refl
read_tr-save_regs r Reg.eflags = refl
read_tr-save_regs r Reg.cs = refl
read_tr-save_regs r Reg.ds = refl
read_tr-save_regs r Reg.ss = refl
read_tr-save_regs r Reg.es = refl
read_tr-save_regs r Reg.fs = refl
read_tr-save_regs r Reg.gs = refl

-- A register is written alike in both blocks.
pub save_regs-write_ir :
    (r : IntRegs) (name : Reg) (v : ℕ)
    → save_regs (write_ir r name v) ≡ write_tr (save_regs r) name v
unfolding write_tr write_ir save_regs
save_regs-write_ir r Reg.eax v = refl
save_regs-write_ir r Reg.ebx v = refl
save_regs-write_ir r Reg.ecx v = refl
save_regs-write_ir r Reg.edx v = refl
save_regs-write_ir r Reg.esi v = refl
save_regs-write_ir r Reg.edi v = refl
save_regs-write_ir r Reg.esp v = refl
save_regs-write_ir r Reg.ebp v = refl
save_regs-write_ir r Reg.eip v = refl
save_regs-write_ir r Reg.ax v = refl
save_regs-write_ir r Reg.bx v = refl
save_regs-write_ir r Reg.cx v = refl
save_regs-write_ir r Reg.dx v = refl
save_regs-write_ir r Reg.si v = refl
save_regs-write_ir r Reg.di v = refl
save_regs-write_ir r Reg.sp v = refl
save_regs-write_ir r Reg.bp v = refl
save_regs-write_ir r Reg.ip v = refl
save_regs-write_ir r Reg.al v = refl
save_regs-write_ir r Reg.bl v = refl
save_regs-write_ir r Reg.cl v = refl
save_regs-write_ir r Reg.dl v = refl
save_regs-write_ir r Reg.ah v = refl
save_regs-write_ir r Reg.bh v = refl
save_regs-write_ir r Reg.ch v = refl
save_regs-write_ir r Reg.dh v = refl
save_regs-write_ir r Reg.eflags v = refl
save_regs-write_ir r Reg.cs v = refl
save_regs-write_ir r Reg.ds v = refl
save_regs-write_ir r Reg.ss v = refl
save_regs-write_ir r Reg.es v = refl
save_regs-write_ir r Reg.fs v = refl
save_regs-write_ir r Reg.gs v = refl
