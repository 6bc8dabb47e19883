-- ===== src/Tests/Machine.antt =====
-- Memory, the debugger and the emulator on concrete values.
use klyx.Prelude.{◌≢◌, arith, zero, suc, ◌≡◌, refl, ◌==◌}
use klyx.Prelude.Int.{is_zero}
use klyx.Machine.Memory.{Memory, memcmp}
use klyx.Machine.Compare.{memcmp-first}
use klyx.Machine.Regs.{save_regs}
use klyx.Traps.Debug.{parse_command, apply_command, argument}
use klyx.Traps.Lines.{parse_command-set}
use klyx.Emulator.Reg.{Reg, read_ir, write_ir}
use klyx.Emulator.Written.{write_ir-read}
use klyx.Emulator.Stack.{pop-push}
use klyx.Emulator.Operand.{reg_of_id, reg, left}
use klyx.Emulator.Frame.{reget_ir, get_right_ir, get_place_ir, read_id_ir}
use klyx.Emulator.Instr.{push, pop, int_regs_file, task_regs_file}
use klyx.Emulator.Simulation.{push_instr, execute, execute-save_regs}
use klyx.Tests.World.{call}

-- "setsp 8".
abbrev line : Memory
line zero = b's'
line (suc zero) = b'e'
line (suc (suc zero)) = b't'
line (suc (suc (suc zero))) = b's'
line (suc (suc (suc (suc zero)))) = b'p'
line (suc (suc (suc (suc (suc zero))))) = b' '
line (suc (suc (suc (suc (suc (suc zero)))))) = b'8'
line (suc (suc (suc (suc (suc (suc (suc i))))))) = 0

-- "s" and zeros.
abbrev letter : Memory
letter zero = b's'
letter (suc i) = 0

memcmp-first_example : is_zero (memcmp line 0 letter 0 5) ≡ (line 0 == letter 0)
memcmp-first_example = memcmp-first line 0 letter 0 5

parse_command-set_example :
    apply_command (parse_command line) (call 1 2 3) ≡ record (call 1 2 3) { esi = argument line 6 }
parse_command-set_example = parse_command-set line (call 1 2 3) refl

execute-save_regs_example :
    execute task_regs_file
      (push_instr (record { type = left reg; member = 1 }))
      (save_regs (call 1 2 3))
      line
    ≡ (
      save_regs
          (execute int_regs_file
            (push_instr (record { type = left reg; member = 1 }))
            (call 1 2 3)
            line).0,
      (execute int_regs_file
          (push_instr (record { type = left reg; member = 1 }))
          (call 1 2 3)
          line).1,
    )
execute-save_regs_example =
    execute-save_regs (push_instr (record { type = left reg; member = 1 })) (call 1 2 3) line

-- A write to AX, whose lower half stays.
write_ir-read_example :
    (read_ir (write_ir (call 1 2 3) Reg.ax 0x12345) Reg.ax ≡ 0x2345)
    × (write_ir (write_ir (call 1 2 3) Reg.ax 0x12345) Reg.eax 1 ≡ call 1 2 3)
unfolding read_ir write_ir
write_ir-read_example = write_ir-read (call 1 2 3) Reg.ax 0x12345

ecx_is_other : Reg.ecx ≢ Reg.esp
ecx_is_other e = cc

-- A push of EBX, and a pop into ECX.
pop-push_example :
    (pop int_regs_file
      (push int_regs_file (call 1 2 3) line (record { type = left reg; member = 1 })).0
      (push int_regs_file (call 1 2 3) line (record { type = left reg; member = 1 })).1
      (record { type = reg; member = 2 })).0
    ≡ write_ir (call 1 2 3) Reg.ecx 2
unfolding reget_ir get_right_ir get_place_ir read_id_ir reg_of_id read_ir
pop-push_example =
    pop-push (call 1 2 3) line (record { type = left reg; member = 1 }) 2 Reg.ecx refl ecx_is_other
      (omega arith) (omega arith)
