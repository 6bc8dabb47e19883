-- ===== src/Machine/Regs.antt =====
-- `int_regs_t` of include/klyx/hw.h, `regs_t` of include/klyx/sched.h, and the two copies between
-- them that kernel/sched.c makes field by field. A register is a `word_t`, a number below 2 ^ 32.
use klyx.Prelude.{ℕ, ◌≡◌, refl}

-- The frame that an interrupt leaves on the stack.
pub record IntRegs : Type 0 where
  pub gs : ℕ
  pub fs : ℕ
  pub es : ℕ
  pub ss : ℕ
  pub ds : ℕ
  pub edi : ℕ
  pub esi : ℕ
  pub ebp : ℕ
  pub esp : ℕ
  pub ebx : ℕ
  pub edx : ℕ
  pub ecx : ℕ
  pub eax : ℕ
  pub eip : ℕ
  pub cs : ℕ
  pub eflags : ℕ

-- The registers that a task record keeps.
pub record Regs : Type 0 where
  pub eax : ℕ
  pub ebx : ℕ
  pub ecx : ℕ
  pub edx : ℕ
  pub esi : ℕ
  pub edi : ℕ
  pub esp : ℕ
  pub ebp : ℕ
  pub eip : ℕ
  pub fs : ℕ
  pub gs : ℕ
  pub ds : ℕ
  pub es : ℕ
  pub ss : ℕ
  pub cs : ℕ
  pub eflags : ℕ

-- What `memset` leaves in a register block.
abbrev pub no_regs : Regs
no_regs = record {
  eax = 0;
  ebx = 0;
  ecx = 0;
  edx = 0;
  esi = 0;
  edi = 0;
  esp = 0;
  ebp = 0;
  eip = 0;
  fs = 0;
  gs = 0;
  ds = 0;
  es = 0;
  ss = 0;
  cs = 0;
  eflags = 0;
}

-- `task->regs.x = regs->x`, for every x.
unfoldable pub save_regs : IntRegs → Regs
save_regs r = record {
  fs = r.fs;
  gs = r.gs;
  ds = r.ds;
  ss = r.ss;
  es = r.es;
  cs = r.cs;
  edi = r.edi;
  esi = r.esi;
  ebp = r.ebp;
  esp = r.esp;
  ebx = r.ebx;
  edx = r.edx;
  ecx = r.ecx;
  eax = r.eax;
  eflags = r.eflags;
  eip = r.eip;
}

-- `regs->x = tasks[current_task].regs.x`, for every x.
unfoldable pub load_regs : Regs → IntRegs
load_regs r = record {
  fs = r.fs;
  gs = r.gs;
  es = r.es;
  ss = r.ss;
  ds = r.ds;
  cs = r.cs;
  edi = r.edi;
  esi = r.esi;
  ebp = r.ebp;
  esp = r.esp;
  ebx = r.ebx;
  edx = r.edx;
  ecx = r.ecx;
  eax = r.eax;
  eflags = r.eflags;
  eip = r.eip;
}

pub load_regs-save_regs : (r : IntRegs) → load_regs (save_regs r) ≡ r
unfolding load_regs save_regs
load_regs-save_regs r = refl

pub save_regs-load_regs : (r : Regs) → save_regs (load_regs r) ≡ r
unfolding load_regs save_regs
save_regs-load_regs r = refl
