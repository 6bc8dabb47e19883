-- ===== src/Emulator/Operand.antt =====
-- The operands of kernel/i386_emulator.c. The source has the functions on them twice, for the two register
-- blocks: those that end in _IR are in Emulator/Frame, those that end in _TR in Emulator/Saved.
use klyx.Prelude.{ℕ, zero, suc, ◌%◌, ◌^◌, Option, none, some, List, [], ◌∷◌}
use klyx.Emulator.Reg.{Reg}

-- `enum i386_reg` by its numbers.
abbrev pub regs_by_id : List Reg
regs_by_id =
    Reg.eax ∷ Reg.ebx ∷ Reg.ecx ∷ Reg.edx ∷ Reg.esi ∷ Reg.edi ∷ Reg.esp ∷ Reg.ebp ∷ Reg.eip ∷ Reg.ax
    ∷ Reg.bx ∷ Reg.cx ∷ Reg.dx ∷ Reg.si ∷ Reg.di ∷ Reg.sp ∷ Reg.bp ∷ Reg.ip ∷ Reg.al ∷ Reg.bl
    ∷ Reg.cl ∷ Reg.dl ∷ Reg.ah ∷ Reg.bh ∷ Reg.ch ∷ Reg.dh ∷ Reg.eflags ∷ Reg.cs ∷ Reg.ds ∷ Reg.ss
    ∷ Reg.es ∷ Reg.fs ∷ Reg.gs ∷ []

abbrev pub nth {ℓ} : {A : Type ℓ} → List A → ℕ → Option A
nth [] i = none
nth (x ∷ xs) zero = some x
nth (x ∷ xs) (suc i) = nth xs i

unfoldable pub reg_of_id : ℕ → Option Reg
reg_of_id id = nth regs_by_id id

-- The types of an operand. A left one is never `imm`.
pub data LeftType : Type 0 where
  reg mem sib_rrn sib_drrn sib_drn : LeftType

pub data RightType : Type 0 where
  left : LeftType → RightType
  imm : RightType

-- `reg1`, `reg2`, `imm1` and `imm2` are members of one union, so they are one number.
pub record Lexpr : Type 0 where
  pub type : LeftType
  pub member : ℕ

pub record Rexpr : Type 0 where
  pub type : RightType
  pub member : ℕ

-- `adword_t`.
abbrev pub u32 : ℕ → ℕ
u32 n = n % 2 ^ 32
