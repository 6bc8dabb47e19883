-- ===== src/Machine/Segments.antt =====
-- The segments behind `gdt_init` of kernel/hw.c.
use klyx.Prelude.{
  ℕ, zero, suc, ◌+◌, ◌-◌, ◌*◌, ◌%◌, ◌^◌, ◌≤◌, ◌<◌, ◌≡◌, ◌≢◌, ◌∙◌, refl, Bool, true, false, update,
  update_self, update_ne, lt→leb, arith,
}
use native.Mathlib.Decide.{ℕ_discrete}
use klyx.Machine.Tables.{GdtDesc, gdt_cap, gdt_desc, gdt_set, gdt_base, gdt_limit}
use klyx.Machine.Start.{
  Hardware, no_gdt_desc, tss_cap, tss_desc, zero_words, gdt_fill, gdt_table, gdt_init,
}

-- A descriptor for the first MiB, for code or for data.
pub record IsFirstMib (code : Bool) (d : GdtDesc) : Type 0 where
  pub base : gdt_base d ≡ 0
  pub limit : gdt_limit d ≡ 0xFFFFF
  pub executable : d.is_executable ≡ code
  pub present : d.p ≡ true
  pub kernel : d.ring ≡ 0

gdt_desc-IsFirstMib : (code : Bool) → IsFirstMib code (gdt_desc 0xFFFFF 0 code false 0)
unfolding gdt_desc
gdt_desc-IsFirstMib code = record {
  base = refl;
  limit = refl;
  executable = refl;
  present = refl;
  kernel = refl;
}

gdt_set-other :
    (gdt : ℕ → GdtDesc) (i : ℕ) (code : Bool) (w : ℕ)
    → i < gdt_cap
    → w ≢ i
    → gdt_set gdt i 0xFFFFF 0 code false 0 w ≡ gdt w
unfolding gdt_set
gdt_set-other gdt i code w lt ne =
    let same : i % 2 ^ 16 ≡ i = omega arith in
    rw (same, lt→leb gdt_cap i lt) (update_ne gdt i (gdt_desc 0xFFFFF 0 code false 0) w ne)

gdt_set_self :
    (gdt : ℕ → GdtDesc) (i : ℕ) (code : Bool)
    → i < gdt_cap
    → gdt_set gdt i 0xFFFFF 0 code false 0 i ≡ gdt_desc 0xFFFFF 0 code false 0
unfolding gdt_set
gdt_set_self gdt i code lt =
    let same : i % 2 ^ 16 ≡ i = omega arith in
    rw (same, lt→leb gdt_cap i lt) (update_self gdt i (gdt_desc 0xFFFFF 0 code false 0))

gdt_fill-below :
    (left i : ℕ) (gdt : ℕ → GdtDesc) (w : ℕ)
    → w < i
    → i + left ≤ gdt_cap
    → gdt_fill left i gdt w ≡ gdt w
unfolding gdt_fill
gdt_fill-below zero i gdt w lt le = refl
gdt_fill-below (suc left) i gdt w lt le =
    gdt_fill-below left (i + 1) (gdt_set gdt i 0xFFFFF 0 false false 0) w (omega arith)
      (omega arith)
    ∙ gdt_set-other gdt i false w (omega arith) (λ e. omega arith)

gdt_fill-IsFirstMib :
    (left i : ℕ) (gdt : ℕ → GdtDesc) (w : ℕ)
    → i ≤ w
    → w < i + left
    → i + left ≤ gdt_cap
    → IsFirstMib false (gdt_fill left i gdt w)
unfolding gdt_fill
gdt_fill-IsFirstMib zero i gdt w ge lt le = absurd (omega arith)
gdt_fill-IsFirstMib (suc left) i gdt w ge lt le =
    let gdt1 = gdt_set gdt i 0xFFFFF 0 false false 0 in
    elim (ℕ_discrete w i) [
      | yes here ↦
          rw
            (
              here,
              gdt_fill-below left (i + 1) gdt1 i (omega arith) (omega arith),
              gdt_set_self gdt i false (omega arith),
            )
            (gdt_desc-IsFirstMib false)
      | no ne ↦ gdt_fill-IsFirstMib left (i + 1) gdt1 w (omega arith) (omega arith) (omega arith)
    ]

zero_words-below : (left i : ℕ) (f : ℕ → ℕ) (w : ℕ) → w < i → zero_words left i f w ≡ f w
unfolding zero_words
zero_words-below zero i f w lt = refl
zero_words-below (suc left) i f w lt =
    zero_words-below left (i + 1) (update f i 0) w (omega arith)
    ∙ update_ne f i 0 w (λ e. omega arith)

zero_words-zero :
    (left i : ℕ) (f : ℕ → ℕ) (w : ℕ) → i ≤ w → w < i + left → zero_words left i f w ≡ 0
unfolding zero_words
zero_words-zero zero i f w ge lt = absurd (omega arith)
zero_words-zero (suc left) i f w ge lt = elim (ℕ_discrete w i) [
  | yes here ↦
      rw (here, zero_words-below left (i + 1) (update f i 0) i (omega arith)) (update_self f i 0)
  | no ne ↦ zero_words-zero left (i + 1) (update f i 0) w (omega arith) (omega arith)
]

-- The table.
pub record Segments (tss : ℕ) (gdt : ℕ → GdtDesc) : Type 0 where
  pub null : gdt 0 ≡ no_gdt_desc
  pub code : IsFirstMib true (gdt 1)
  pub data_seg : IsFirstMib false (gdt 2)
  pub task : gdt_base (gdt 3) ≡ tss % 2 ^ 32
  pub task_limit : (gdt 3).limit_lo + (gdt 3).limit_hi * 2 ^ 16 ≡ tss_cap * 4
  pub others : (w : ℕ) → 4 ≤ w → w < gdt_cap → IsFirstMib false (gdt w)

-- gdt_init leaves a null descriptor, one for code and then one for data that each cover the first
-- MiB, the descriptor of the task state segment with its 32-bit address and 104 bytes, further
-- data descriptors for the first MiB, and a task state segment whose words are 0 but for the first
-- two.
pub gdt_init-Segments :
    (tss gdt_descriptors : ℕ) (hw : Hardware)
    → Segments tss (gdt_init tss gdt_descriptors hw).gdt_descriptors
      × ((gdt_init tss gdt_descriptors hw).tss 0 ≡ 0x10)
      × ((gdt_init tss gdt_descriptors hw).tss 1 ≡ 0x1000000)
      × ((i : ℕ) → 2 ≤ i → i < tss_cap → (gdt_init tss gdt_descriptors hw).tss i ≡ 0)
unfolding gdt_init gdt_table
gdt_init-Segments tss gdt_descriptors hw =
    let start = update hw.gdt_descriptors 0 no_gdt_desc in
    let filled = gdt_fill (gdt_cap - 1) 1 start in
    let code = gdt_set filled 1 0xFFFFF 0 true false 0 in
    let data_seg = gdt_set code 2 0xFFFFF 0 false false 0 in
    (
      record {
        null =
            gdt_set-other code 2 false 0 (omega arith) (λ e. omega arith)
            ∙ gdt_set-other filled 1 true 0 (omega arith) (λ e. omega arith)
            ∙ gdt_fill-below (gdt_cap - 1) 1 start 0 (omega arith) (omega arith);
        code =
            rw
              (
                gdt_set-other code 2 false 1 (omega arith) (λ e. omega arith),
                gdt_set_self filled 1 true (omega arith),
              )
              (gdt_desc-IsFirstMib true);
        data_seg = rw (gdt_set_self code 2 false (omega arith)) (gdt_desc-IsFirstMib false);
        task = omega arith;
        task_limit = refl;
        others = λ w ge lt.
            rw
              (
                update_ne data_seg 3 (tss_desc tss (data_seg 3)) w (λ e. omega arith),
                gdt_set-other code 2 false w (omega arith) (λ e. omega arith),
                gdt_set-other filled 1 true w (omega arith) (λ e. omega arith),
              )
              (gdt_fill-IsFirstMib (gdt_cap - 1) 1 start w (omega arith) (omega arith)
                (omega arith));
      },
      refl,
      refl,
      λ i ge lt. zeroed i ge lt,
    )
  where
    zeroed :
        (i : ℕ)
        → 2 ≤ i
        → i < tss_cap
        → update (update (zero_words tss_cap 0 hw.tss) 1 0x1000000) 0 0x10 i ≡ 0
    zeroed i ge lt =
        update_ne (update (zero_words tss_cap 0 hw.tss) 1 0x1000000) 0 0x10 i (λ e. omega arith)
        ∙ update_ne (zero_words tss_cap 0 hw.tss) 1 0x1000000 i (λ e. omega arith)
        ∙ zero_words-zero tss_cap 0 hw.tss i (omega arith) (omega arith)
