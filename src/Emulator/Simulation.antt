-- ===== src/Emulator/Simulation.antt =====
-- The instructions of the emulator on the interrupt frame and on the registers of a task.
use klyx.Prelude.{ℕ, ◌^◌, ◌+◌, ◌-◌, ◌≡◌, ◌∙◌, sym, ap, ap₂}
use klyx.Machine.Memory.{Memory, store32, load32}
use klyx.Machine.Regs.{IntRegs, Regs, save_regs}
use klyx.Emulator.Reg.{Reg, read_ir, write_ir, read_tr, write_tr}
use klyx.Emulator.Operand.{Lexpr, Rexpr, u32}
use klyx.Emulator.Frame.{leset_ir, leget_ir, reget_ir, set_place_ir}
use klyx.Emulator.Saved.{leset_tr, leget_tr, reget_tr, set_place_tr}
use klyx.Emulator.Instr.{RegFile, int_regs_file, task_regs_file, add, sub, jmp_far, push, pop}
use klyx.Emulator.Blocks.{read_tr-save_regs, save_regs-write_ir}
use klyx.Emulator.Same.{mapped, get_place_tr-save_regs, reget_tr-save_regs, set_place_tr-save_regs}

-- The five instructions.
pub data Instr : Type 0 where
  add_instr sub_instr : Lexpr → Rexpr → Instr
  jmp_instr push_instr : Rexpr → Instr
  pop_instr : Lexpr → Instr

abbrev pub execute : {R : Type 0} → RegFile R → Instr → R → Memory → R × Memory
execute file (add_instr a b) regs m = add file regs m a b
execute file (sub_instr a b) regs m = sub file regs m a b
execute file (jmp_instr b) regs m = jmp_far file regs m b
execute file (push_instr b) regs m = push file regs m b
execute file (pop_instr a) regs m = pop file regs m a

-- A move of the stack pointer.
moved-save_regs :
    (r : IntRegs) (k : ℕ)
    → save_regs (write_ir r Reg.esp (u32 (read_ir r Reg.esp + k)))
      ≡ write_tr (save_regs r) Reg.esp (u32 (read_tr (save_regs r) Reg.esp + k))
moved-save_regs r k =
    save_regs-write_ir r Reg.esp (u32 (read_ir r Reg.esp + k))
    ∙ ap (λ x. write_tr (save_regs r) Reg.esp (u32 (x + k))) (sym (read_tr-save_regs r Reg.esp))

push-save_regs :
    (r : IntRegs) (memory : Memory) (b : Rexpr)
    → mapped (push int_regs_file r memory b) ≡ push task_regs_file (save_regs r) memory b
unfolding push
push-save_regs r memory b =
    let r1 = write_ir r Reg.esp (u32 (read_ir r Reg.esp + (2 ^ 32 - 4))) in
    ap₂ (λ x y. (save_regs r1, store32 memory x y)) (sym (read_tr-save_regs r1 Reg.esp))
      (sym (reget_tr-save_regs r1 memory b))
    ∙ ap (λ s. (s, store32 memory (read_tr s Reg.esp) (reget_tr s memory b)))
        (moved-save_regs r (2 ^ 32 - 4))

pop-save_regs :
    (r : IntRegs) (memory : Memory) (a : Lexpr)
    → mapped (pop int_regs_file r memory a) ≡ pop task_regs_file (save_regs r) memory a
unfolding pop leset_ir leset_tr
pop-save_regs r memory a =
    let p = set_place_ir r memory a.type a.member (load32 memory (read_ir r Reg.esp)) in
    ap (λ s. (s, p.1)) (moved-save_regs p.0 4)
    ∙ ap (λ (q : Regs × Memory). (write_tr q.0 Reg.esp (u32 (read_tr q.0 Reg.esp + 4)), q.1))
        (set_place_tr-save_regs r memory a.type a.member (load32 memory (read_ir r Reg.esp))
          ∙ ap (λ x. set_place_tr (save_regs r) memory a.type a.member (load32 memory x))
              (sym (read_tr-save_regs r Reg.esp)))

executed :
    (i : Instr) (r : IntRegs) (memory : Memory)
    → mapped (execute int_regs_file i r memory) ≡ execute task_regs_file i (save_regs r) memory
unfolding add sub jmp_far leset_ir leset_tr leget_ir leget_tr
executed (add_instr a b) r memory =
    set_place_tr-save_regs r memory a.type a.member _
    ∙ ap₂ (λ x y. set_place_tr (save_regs r) memory a.type a.member (u32 (x + y)))
        (sym (get_place_tr-save_regs r memory a.type a.member))
        (sym (reget_tr-save_regs r memory b))
executed (sub_instr a b) r memory =
    set_place_tr-save_regs r memory a.type a.member _
    ∙ ap₂ (λ x y. set_place_tr (save_regs r) memory a.type a.member (u32 (x + (2 ^ 32 - y))))
        (sym (get_place_tr-save_regs r memory a.type a.member))
        (sym (reget_tr-save_regs r memory b))
executed (jmp_instr b) r memory =
    ap (λ s. (s, memory))
      (save_regs-write_ir r Reg.eip (reget_ir r memory b)
        ∙ ap (write_tr (save_regs r) Reg.eip) (sym (reget_tr-save_regs r memory b)))
executed (push_instr b) r memory = push-save_regs r memory b
executed (pop_instr a) r memory = pop-save_regs r memory a

-- Each of the five instructions does the same on the interrupt frame and on the registers of a
-- task: to execute it on the frame and save the registers, or to save them and execute it on the
-- copy, gives the same registers and the same memory.
pub execute-save_regs :
    (i : Instr) (regs : IntRegs) (memory : Memory)
    → let (regs', memory') = execute int_regs_file i regs memory in
      execute task_regs_file i (save_regs regs) memory ≡ (save_regs regs', memory')
execute-save_regs i regs memory = sym (executed i regs memory)
