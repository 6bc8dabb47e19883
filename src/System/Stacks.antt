-- ===== src/System/Stacks.antt =====
-- The stacks of the tasks against the segments, and against INT_END.
use klyx.Prelude.{ℕ, ◌+◌, ◌-◌, ◌≤◌, ◌<◌, ◌≡◌, ◌∙◌, ap, Bool, arith}
use klyx.Machine.Regs.{load_regs}
use klyx.Machine.Tables.{gdt_limit}
use klyx.Machine.Start.{Hardware, gdt_init}
use klyx.Machine.Segments.{gdt_init-Segments}
use klyx.Machine.Entry.{Words, regs_at, int_end}
use klyx.Machine.Frames.{int_end-Resumed}
use klyx.Sched.Task.{tasks_cap, task_stack_cap, stack_top, fresh_task}

-- The stack of every slot lies above the limit of the data segment that gdt_init sets up.
pub stack_top-outside :
    (tss gdt_descriptors : ℕ) (hw : Hardware) (pid : ℕ)
    → gdt_limit ((gdt_init tss gdt_descriptors hw).gdt_descriptors 2)
      < stack_top pid - task_stack_cap
unfolding stack_top
stack_top-outside tss gdt_descriptors hw pid =
    let limit = (gdt_init-Segments tss gdt_descriptors hw).0.data_seg.limit in
    rw limit (omega arith)

-- INT_END on the frame of a fresh task enters its program with the stack pointer 12 bytes above
-- the top of its stack, in the stack of the next slot.
pub int_end-fresh_task :
    (pid eip tty fs gs cs generic_segment : ℕ) (yield_only : Bool) (p : ℕ) (m : Words)
    → pid < tasks_cap
    → regs_at m p ≡ load_regs (fresh_task pid eip tty fs gs cs generic_segment yield_only).regs
    → ((int_end p m).0.eip ≡ eip)
      × ((int_end p m).0.esp ≡ stack_top pid + 12)
      × (stack_top (pid + 1) - task_stack_cap ≤ (int_end p m).0.esp)
unfolding stack_top fresh_task load_regs
int_end-fresh_task pid eip tty fs gs cs generic_segment yield_only p m lt e =
    let top : (regs_at m p).esp ≡ stack_top pid = ap (λ r. r.esp) e in
    let back = int_end-Resumed p m (omega (arith, top)) in
    let esp : (int_end p m).0.esp ≡ stack_top pid + 12 =
      ap (λ r. r.esp) back.regs ∙ ap (λ x. x + 12) top in
    (ap (λ r. r.eip) back.regs ∙ ap (λ r. r.eip) e, esp, omega (arith, esp))
