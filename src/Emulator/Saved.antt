-- ===== src/Emulator/Saved.antt =====
-- The functions on operands of kernel/i386_emulator.c over the registers of a task, whose names end in _TR.
use klyx.Prelude.{ℕ, ◌+◌, ◌*◌, none, some}
use klyx.Machine.Memory.{Memory, store32, load32}
use klyx.Machine.Regs.{Regs}
use klyx.Emulator.Reg.{read_tr, write_tr}
use klyx.Emulator.Operand.{
  reg_of_id, LeftType, reg, mem, sib_rrn, sib_drrn, sib_drn, RightType, left, imm, Lexpr, Rexpr,
  u32,
}

-- A read of a number without a case falls off the end of the C function, whose result is then
-- undefined; it is 0 here. A write of such a number does nothing.
unfoldable pub read_id_tr : Regs → ℕ → ℕ
read_id_tr regs id = elim (reg_of_id id) [ none ↦ 0 | some name ↦ read_tr regs name ]

unfoldable pub write_id_tr : Regs → ℕ → ℕ → Regs
write_id_tr regs id v = elim (reg_of_id id) [ none ↦ regs | some name ↦ write_tr regs name v ]

-- The address of a memory operand with the union member `m`: `MEM` takes the register numbered `m`.
unfoldable pub address_tr : Regs → LeftType → ℕ → ℕ
address_tr regs reg m = 0
address_tr regs mem m = read_id_tr regs m
address_tr regs sib_rrn m = u32 (read_id_tr regs m + read_id_tr regs m * m)
address_tr regs sib_drrn m = u32 (read_id_tr regs m + read_id_tr regs m * m + m)
address_tr regs sib_drn m = u32 (read_id_tr regs m * m + m)

unfoldable pub get_place_tr : Regs → Memory → LeftType → ℕ → ℕ
get_place_tr regs memory reg m = read_id_tr regs m
get_place_tr regs memory t m = load32 memory (address_tr regs t m)

unfoldable pub leget_tr : Regs → Memory → Lexpr → ℕ
leget_tr regs memory le = get_place_tr regs memory le.type le.member

unfoldable pub get_right_tr : Regs → Memory → RightType → ℕ → ℕ
get_right_tr regs memory (left t) m = get_place_tr regs memory t m
get_right_tr regs memory imm m = m

unfoldable pub reget_tr : Regs → Memory → Rexpr → ℕ
reget_tr regs memory re = get_right_tr regs memory re.type re.member

unfoldable pub set_place_tr : Regs → Memory → LeftType → (m val : ℕ) → Regs × Memory
set_place_tr regs memory reg m val = (write_id_tr regs m val, memory)
set_place_tr regs memory t m val = (regs, store32 memory (address_tr regs t m) val)

unfoldable pub leset_tr : Regs → Memory → Lexpr → ℕ → Regs × Memory
leset_tr regs memory le val = set_place_tr regs memory le.type le.member val
