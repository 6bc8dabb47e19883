-- ===== src/Emulator/Instr.antt =====
-- The five instructions of kernel/i386_emulator.c. The source writes each of them once, as the macro `MC`
-- over the functions of a register block, and `I386E_FUNC` makes it for both blocks.
use klyx.Prelude.{ℕ, ◌+◌, ◌-◌, ◌^◌}
use klyx.Machine.Memory.{Memory, store32, load32}
use klyx.Machine.Regs.{IntRegs, Regs}
use klyx.Emulator.Reg.{Reg, read_ir, write_ir, read_tr, write_tr}
use klyx.Emulator.Operand.{Lexpr, Rexpr, u32}
use klyx.Emulator.Frame.{leset_ir, leget_ir, reget_ir}
use klyx.Emulator.Saved.{leset_tr, leget_tr, reget_tr}

-- The arguments of `MC`: LES, LEG, REG, RR and WR.
pub record RegFile (R : Type 0) : Type 0 where
  pub leset : R → Memory → Lexpr → ℕ → R × Memory
  pub leget : R → Memory → Lexpr → ℕ
  pub reget : R → Memory → Rexpr → ℕ
  pub read : R → Reg → ℕ
  pub write : R → Reg → ℕ → R

abbrev pub int_regs_file : RegFile IntRegs
int_regs_file = record {
  leset = leset_ir;
  leget = leget_ir;
  reget = reget_ir;
  read = read_ir;
  write = write_ir;
}

abbrev pub task_regs_file : RegFile Regs
task_regs_file = record {
  leset = leset_tr;
  leget = leget_tr;
  reget = reget_tr;
  read = read_tr;
  write = write_tr;
}

module _ {R : Type 0} (file : RegFile R) where
  unfoldable pub add : R → Memory → Lexpr → Rexpr → R × Memory
  add regs memory arg0 arg1 =
      file.leset regs memory arg0 (u32 (file.leget regs memory arg0 + file.reget regs memory arg1))

  unfoldable pub sub : R → Memory → Lexpr → Rexpr → R × Memory
  sub regs memory arg0 arg1 =
      file.leset regs memory arg0
        (u32 (file.leget regs memory arg0 + (2 ^ 32 - file.reget regs memory arg1)))

  unfoldable pub jmp_far : R → Memory → Rexpr → R × Memory
  jmp_far regs memory arg1 = (file.write regs Reg.eip (file.reget regs memory arg1), memory)

  -- The operand is read after the stack pointer has moved.
  unfoldable pub push : R → Memory → Rexpr → R × Memory
  push regs memory arg1 =
      let regs1 = file.write regs Reg.esp (u32 (file.read regs Reg.esp + (2 ^ 32 - 4))) in
      (regs1, store32 memory (file.read regs1 Reg.esp) (file.reget regs1 memory arg1))

  unfoldable pub pop : R → Memory → Lexpr → R × Memory
  pop regs memory arg0 =
      let (regs1, memory1) = file.leset regs memory arg0 (load32 memory (file.read regs Reg.esp)) in
      (file.write regs1 Reg.esp (u32 (file.read regs1 Reg.esp + 4)), memory1)
