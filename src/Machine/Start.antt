-- ===== src/Machine/Start.antt =====
-- `gdt_init` and `idt_init` of kernel/hw.c. The addresses of the tables and of the handlers are the
-- linker's, so they are parameters; `lgdt`, `lidt` and `ltr` are single instructions.
use klyx.Prelude.{ℕ, zero, suc, ◌+◌, ◌-◌, ◌*◌, ◌/◌, ◌%◌, ◌^◌, true, false, update, List}
use klyx.Machine.Tables.{GdtDesc, IdtDesc, gdt_cap, gdt_set, idt_set}

-- `gdt_reg_t` and `idt_reg_t`: `descriptors` is the address of the table.
pub record TableReg : Type 0 where
  pub size : ℕ
  pub descriptors : ℕ

-- The tables of kernel/hw.c, and the bytes that were written to ports, the latest first.
pub record Hardware : Type 0 where
  pub gdt_descriptors : ℕ → GdtDesc
  pub idt_descriptors : ℕ → IdtDesc
  pub gdtr : TableReg
  pub idtr : TableReg
  pub tss : ℕ → ℕ
  pub written : List (ℕ × ℕ)

abbrev pub idt_cap : ℕ
idt_cap = 256

abbrev pub idt_gate_32bit_int : ℕ
idt_gate_32bit_int = 0x0E

-- The number of words in `tss`.
abbrev pub tss_cap : ℕ
tss_cap = 26

-- A descriptor of zero bytes.
abbrev pub no_gdt_desc : GdtDesc
no_gdt_desc = record {
  limit_lo = 0;
  base_lo = 0;
  base_mid = 0;
  a = false;
  rw_bit = false;
  dc = false;
  is_executable = false;
  isnt_tss = false;
  ring = 0;
  p = false;
  limit_hi = 0;
  zero_bit = false;
  is_64_bit = false;
  is_32_bit = false;
  is_limit_in_pages = false;
  base_hi = 0;
}

-- The loop over the descriptors from `i` on.
unfoldable pub gdt_fill : (left i : ℕ) → (ℕ → GdtDesc) → ℕ → GdtDesc
gdt_fill zero i gdt = gdt
gdt_fill (suc left) i gdt = gdt_fill left (i + 1) (gdt_set gdt i 0xFFFFF 0 false false 0)

-- The writes through `tssd`: 0x89 sets `a`, `is_executable` and `p`, and 0x40 sets `is_32_bit`.
abbrev pub tss_desc : ℕ → GdtDesc → GdtDesc
tss_desc tss d = record d {
  limit_lo = tss_cap * 4;
  base_lo = tss % 2 ^ 16;
  base_mid = tss / 2 ^ 16 % 2 ^ 8;
  base_hi = tss / 2 ^ 24 % 2 ^ 8;
  a = true;
  rw_bit = false;
  dc = false;
  is_executable = true;
  isnt_tss = false;
  ring = 0;
  p = true;
  limit_hi = 0;
  zero_bit = false;
  is_64_bit = false;
  is_32_bit = true;
  is_limit_in_pages = false;
}

-- The descriptors, with the task state segment at the address `tss`.
unfoldable pub gdt_table : (tss : ℕ) → (ℕ → GdtDesc) → ℕ → GdtDesc
gdt_table tss gdt =
    let filled = gdt_fill (gdt_cap - 1) 1 (update gdt 0 no_gdt_desc) in
    let code = gdt_set filled 1 0xFFFFF 0 true false 0 in
    let data_seg = gdt_set code 2 0xFFFFF 0 false false 0 in
    update data_seg 3 (tss_desc tss (data_seg 3))

-- `memset` of words, from `i` on.
unfoldable pub zero_words : (left i : ℕ) → (ℕ → ℕ) → ℕ → ℕ
zero_words zero i f = f
zero_words (suc left) i f = zero_words left (i + 1) (update f i 0)

-- `memset(tss, 0, sizeof(tss))` and the two writes.
abbrev pub start_tss : (ℕ → ℕ) → ℕ → ℕ
start_tss tss = update (update (zero_words tss_cap 0 tss) 1 0x1000000) 0 0x10

unfoldable pub gdt_init : (tss gdt_descriptors : ℕ) → Hardware → Hardware
gdt_init tss gdt_descriptors hw = record hw {
  gdtr = record { size = gdt_cap * 8 - 1; descriptors = gdt_descriptors };
  tss = start_tss hw.tss;
  gdt_descriptors = gdt_table tss hw.gdt_descriptors;
}

-- The loop over the vectors from `i` on.
unfoldable pub idt_fill : (left i handler : ℕ) → (ℕ → IdtDesc) → ℕ → IdtDesc
idt_fill zero i handler idt = idt
idt_fill (suc left) i handler idt =
    idt_fill left (i + 1) handler (idt_set idt i 0x08 handler idt_gate_32bit_int 0)

unfoldable pub idt_init : (idt_nothing idt_descriptors : ℕ) → Hardware → Hardware
idt_init idt_nothing idt_descriptors hw = record hw {
  idtr = record { size = idt_cap * 8 - 1; descriptors = idt_descriptors };
  idt_descriptors = idt_fill idt_cap 0 idt_nothing hw.idt_descriptors;
}
