-- ===== src/Emulator/Same.antt =====
-- The two copies of the functions on operands, of kernel/i386_emulator.c: the ones on the interrupt frame
-- against the ones on the registers of a task.
use klyx.Prelude.{ℕ, ◌+◌, ◌*◌, ◌≡◌, refl, sym, ap, Option, none, some}
use klyx.Machine.Memory.{Memory, store32, load32}
use klyx.Machine.Regs.{IntRegs, Regs, save_regs}
use klyx.Emulator.Reg.{Reg, read_ir, read_tr, write_ir, write_tr}
use klyx.Emulator.Operand.{
  reg_of_id, LeftType, reg, mem, sib_rrn, sib_drrn, sib_drn, RightType, left, imm, Rexpr, u32,
}
use klyx.Emulator.Frame.{
  read_id_ir, write_id_ir, address_ir, get_place_ir, get_right_ir, reget_ir, set_place_ir,
}
use klyx.Emulator.Saved.{
  read_id_tr, write_id_tr, address_tr, get_place_tr, get_right_tr, reget_tr, set_place_tr,
}
use klyx.Emulator.Blocks.{read_tr-save_regs, save_regs-write_ir}

read_id_tr-save_regs : (r : IntRegs) (id : ℕ) → read_id_tr (save_regs r) id ≡ read_id_ir r id
unfolding read_id_ir read_id_tr
read_id_tr-save_regs r id = go (reg_of_id id)
  where
    go :
        (o : Option Reg)
        → ◌≡◌ {A = ℕ}
            (elim o [ none ↦ 0 | some name ↦ read_tr (save_regs r) name ])
            (elim o [ none ↦ 0 | some name ↦ read_ir r name ])
    go none = refl
    go (some name) = read_tr-save_regs r name

write_id_tr-save_regs :
    (r : IntRegs) (id v : ℕ) → save_regs (write_id_ir r id v) ≡ write_id_tr (save_regs r) id v
unfolding write_id_ir write_id_tr
write_id_tr-save_regs r id v = go (reg_of_id id)
  where
    go :
        (o : Option Reg)
        → save_regs (elim o [ none ↦ r | some name ↦ write_ir r name v ])
          ≡ elim o [ none ↦ save_regs r | some name ↦ write_tr (save_regs r) name v ]
    go none = refl
    go (some name) = save_regs-write_ir r name v

address_tr-save_regs :
    (r : IntRegs) (t : LeftType) (m : ℕ) → address_tr (save_regs r) t m ≡ address_ir r t m
unfolding address_ir address_tr
address_tr-save_regs r reg m = refl
address_tr-save_regs r mem m = read_id_tr-save_regs r m
address_tr-save_regs r sib_rrn m = ap (λ v. u32 (v + v * m)) (read_id_tr-save_regs r m)
address_tr-save_regs r sib_drrn m = ap (λ v. u32 (v + v * m + m)) (read_id_tr-save_regs r m)
address_tr-save_regs r sib_drn m = ap (λ v. u32 (v * m + m)) (read_id_tr-save_regs r m)

pub get_place_tr-save_regs :
    (r : IntRegs) (memory : Memory) (t : LeftType) (m : ℕ)
    → get_place_tr (save_regs r) memory t m ≡ get_place_ir r memory t m
unfolding get_place_ir get_place_tr
get_place_tr-save_regs r memory reg m = read_id_tr-save_regs r m
get_place_tr-save_regs r memory mem m = ap (load32 memory) (address_tr-save_regs r mem m)
get_place_tr-save_regs r memory sib_rrn m = ap (load32 memory) (address_tr-save_regs r sib_rrn m)
get_place_tr-save_regs r memory sib_drrn m = ap (load32 memory) (address_tr-save_regs r sib_drrn m)
get_place_tr-save_regs r memory sib_drn m = ap (load32 memory) (address_tr-save_regs r sib_drn m)

pub reget_tr-save_regs :
    (r : IntRegs) (memory : Memory) (re : Rexpr)
    → reget_tr (save_regs r) memory re ≡ reget_ir r memory re
unfolding reget_ir reget_tr get_right_ir get_right_tr
reget_tr-save_regs r memory re = go re.type
  where
    go :
        (t : RightType)
        → get_right_tr (save_regs r) memory t re.member ≡ get_right_ir r memory t re.member
    go (left t) = get_place_tr-save_regs r memory t re.member
    go imm = refl

-- The map, on the state that an instruction leaves.
abbrev pub mapped : IntRegs × Memory → Regs × Memory
mapped (r, memory) = (save_regs r, memory)

pub set_place_tr-save_regs :
    (r : IntRegs) (memory : Memory) (t : LeftType) (m val : ℕ)
    → mapped (set_place_ir r memory t m val) ≡ set_place_tr (save_regs r) memory t m val
unfolding set_place_ir set_place_tr
set_place_tr-save_regs r memory reg m val = ap (λ s. (s, memory)) (write_id_tr-save_regs r m val)
set_place_tr-save_regs r memory mem m val =
    ap (λ a. (save_regs r, store32 memory a val)) (sym (address_tr-save_regs r mem m))
set_place_tr-save_regs r memory sib_rrn m val =
    ap (λ a. (save_regs r, store32 memory a val)) (sym (address_tr-save_regs r sib_rrn m))
set_place_tr-save_regs r memory sib_drrn m val =
    ap (λ a. (save_regs r, store32 memory a val)) (sym (address_tr-save_regs r sib_drrn m))
set_place_tr-save_regs r memory sib_drn m val =
    ap (λ a. (save_regs r, store32 memory a val)) (sym (address_tr-save_regs r sib_drn m))
