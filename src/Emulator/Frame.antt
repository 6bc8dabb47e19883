-- ===== src/Emulator/Frame.antt =====
-- The functions on operands of kernel/i386_emulator.c over the interrupt frame, whose names end in _IR.
use klyx.Prelude.{ℕ, ◌+◌, ◌*◌, none, some}
use klyx.Machine.Memory.{Memory, store32, load32}
use klyx.Machine.Regs.{IntRegs}
use klyx.Emulator.Reg.{read_ir, write_ir}
use klyx.Emulator.Operand.{
  reg_of_id, LeftType, reg, mem, sib_rrn, sib_drrn, sib_drn, RightType, left, imm, Lexpr, Rexpr,
  u32,
}

-- A read of a number without a case falls off the end of the C function, whose result is then
-- undefined; it is 0 here. A write of such a number does nothing.
unfoldable pub read_id_ir : IntRegs → ℕ → ℕ
read_id_ir regs id = elim (reg_of_id id) [ none ↦ 0 | some name ↦ read_ir regs name ]

unfoldable pub write_id_ir : IntRegs → ℕ → ℕ → IntRegs
write_id_ir regs id v = elim (reg_of_id id) [ none ↦ regs | some name ↦ write_ir regs name v ]

-- The address of a memory operand with the union member `m`: `MEM` takes the register numbered `m`.
unfoldable pub address_ir : IntRegs → LeftType → ℕ → ℕ
address_ir regs reg m = 0
address_ir regs mem m = read_id_ir regs m
address_ir regs sib_rrn m = u32 (read_id_ir regs m + read_id_ir regs m * m)
address_ir regs sib_drrn m = u32 (read_id_ir regs m + read_id_ir regs m * m + m)
address_ir regs sib_drn m = u32 (read_id_ir regs m * m + m)

unfoldable pub get_place_ir : IntRegs → Memory → LeftType → ℕ → ℕ
get_place_ir regs memory reg m = read_id_ir regs m
get_place_ir regs memory t m = load32 memory (address_ir regs t m)

unfoldable pub leget_ir : IntRegs → Memory → Lexpr → ℕ
leget_ir regs memory le = get_place_ir regs memory le.type le.member

unfoldable pub get_right_ir : IntRegs → Memory → RightType → ℕ → ℕ
get_right_ir regs memory (left t) m = get_place_ir regs memory t m
get_right_ir regs memory imm m = m

unfoldable pub reget_ir : IntRegs → Memory → Rexpr → ℕ
reget_ir regs memory re = get_right_ir regs memory re.type re.member

unfoldable pub set_place_ir : IntRegs → Memory → LeftType → (m val : ℕ) → IntRegs × Memory
set_place_ir regs memory reg m val = (write_id_ir regs m val, memory)
set_place_ir regs memory t m val = (regs, store32 memory (address_ir regs t m) val)

unfoldable pub leset_ir : IntRegs → Memory → Lexpr → ℕ → IntRegs × Memory
leset_ir regs memory le val = set_place_ir regs memory le.type le.member val
