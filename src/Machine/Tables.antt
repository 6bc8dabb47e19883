-- ===== src/Machine/Tables.antt =====
-- The descriptor tables of kernel/hw.c: `gdt_set` and `idt_set`. A field keeps as
-- many bits as it has in `gdt_desc_t` and `idt_desc_t`.
use klyx.Prelude.{
  ℕ, ◌+◌, ◌-◌, ◌*◌, ◌/◌, ◌%◌, ◌^◌, ◌<◌, ◌≡◌, ◌≢◌, Bool, true, false, not, update, update_self,
  update_ne, leb, lt→leb, if◌then◌else◌, arith,
}

pub record GdtDesc : Type 0 where
  pub limit_lo : ℕ
  pub base_lo : ℕ
  pub base_mid : ℕ
  pub a : Bool
  pub rw_bit : Bool
  pub dc : Bool
  pub is_executable : Bool
  pub isnt_tss : Bool
  pub ring : ℕ
  pub p : Bool
  pub limit_hi : ℕ
  pub zero_bit : Bool
  pub is_64_bit : Bool
  pub is_32_bit : Bool
  pub is_limit_in_pages : Bool
  pub base_hi : ℕ

pub record IdtDesc : Type 0 where
  pub offset_1 : ℕ
  pub segment : ℕ
  pub zero1 : ℕ
  pub gate_type : ℕ
  pub zero2 : Bool
  pub ring : ℕ
  pub present : Bool
  pub offset_2 : ℕ

-- The descriptor that `gdt_set` fills in.
unfoldable pub gdt_desc : (limit base : ℕ) (is_executable is_tss : Bool) (ring : ℕ) → GdtDesc
gdt_desc limit base is_executable is_tss ring =
    let pages = limit / 2 ^ 12 in
    record {
      limit_lo = pages % 2 ^ 16;
      limit_hi = pages / 2 ^ 16 % 2 ^ 4;
      base_lo = base % 2 ^ 16;
      base_mid = base / 2 ^ 16 % 2 ^ 8;
      base_hi = base / 2 ^ 24 % 2 ^ 8;
      is_executable = is_executable;
      isnt_tss = not is_tss;
      ring = ring % 2 ^ 2;
      a = true;
      rw_bit = true;
      dc = false;
      p = true;
      zero_bit = false;
      is_64_bit = false;
      is_32_bit = true;
      is_limit_in_pages = true;
    }

abbrev pub gdt_cap : ℕ
gdt_cap = 128

unfoldable pub gdt_set :
    (ℕ → GdtDesc) → (id limit base : ℕ) (is_executable is_tss : Bool) (ring : ℕ) → ℕ → GdtDesc
gdt_set gdt id limit base is_executable is_tss ring =
    let i = id % 2 ^ 16 in
    if leb gdt_cap i then gdt else update gdt i (gdt_desc limit base is_executable is_tss ring)

unfoldable pub idt_set : (ℕ → IdtDesc) → (id seg handler gate ring : ℕ) → ℕ → IdtDesc
idt_set idt id seg handler gate ring = update idt (id % 2 ^ 8) (record {
  offset_1 = handler % 2 ^ 16;
  segment = seg % 2 ^ 16;
  zero1 = 0;
  gate_type = gate % 2 ^ 4;
  zero2 = false;
  ring = ring % 2 ^ 2;
  present = true;
  offset_2 = handler / 2 ^ 16 % 2 ^ 16;
})

-- The linear addresses that the processor takes from the fields.
abbrev pub gdt_base : GdtDesc → ℕ
gdt_base d = d.base_lo + d.base_mid * 2 ^ 16 + d.base_hi * 2 ^ 24

-- The last byte of the segment, counted in pages of 4096 bytes.
abbrev pub gdt_limit : GdtDesc → ℕ
gdt_limit d = (d.limit_lo + d.limit_hi * 2 ^ 16) * 2 ^ 12 + (2 ^ 12 - 1)

abbrev pub idt_handler : IdtDesc → ℕ
idt_handler d = d.offset_1 + d.offset_2 * 2 ^ 16

-- For a slot of the table and a 32-bit limit and base, the descriptor that gdt_set writes holds
-- the base, and a limit in pages whose last byte is that of the page of the limit; the other
-- descriptors are as they were.
pub gdt_set-base :
    (gdt : ℕ → GdtDesc) (id limit base : ℕ) (e t : Bool) (ring : ℕ)
    → id < gdt_cap
    → limit < 2 ^ 32
    → base < 2 ^ 32
    → (gdt_base (gdt_set gdt id limit base e t ring id) ≡ base)
      × (gdt_limit (gdt_set gdt id limit base e t ring id) ≡ limit / 2 ^ 12 * 2 ^ 12 + (2 ^ 12 - 1))
      × ((j : ℕ) → j ≢ id → gdt_set gdt id limit base e t ring j ≡ gdt j)
unfolding gdt_set gdt_desc
gdt_set-base gdt id limit base e t ring lt hl hb =
    let same : id % 2 ^ 16 ≡ id = omega arith in
    rw (same, lt→leb gdt_cap id lt, update_self gdt id (gdt_desc limit base e t ring))
      (omega arith, omega arith, λ j ne. update_ne gdt id (gdt_desc limit base e t ring) j ne)

-- For a vector below 256 and a 32-bit address, the descriptor that idt_set writes holds the
-- address of the handler, and the other descriptors are as they were.
pub idt_set-handler :
    (idt : ℕ → IdtDesc) (id seg handler gate ring : ℕ)
    → id < 2 ^ 8
    → handler < 2 ^ 32
    → (idt_handler (idt_set idt id seg handler gate ring id) ≡ handler)
      × ((j : ℕ) → j ≢ id → idt_set idt id seg handler gate ring j ≡ idt j)
unfolding idt_set
idt_set-handler idt id seg handler gate ring lt hb =
    let same : id % 2 ^ 8 ≡ id = omega arith in
    rw (same, update_self idt id _) (omega arith, λ j ne. update_ne idt id _ j ne)
