-- ===== src/System/Vectors.antt =====
-- The interrupt vectors behind `kernel_start` of kernel/main.c.
use klyx.Prelude.{
  ℕ, zero, suc, ◌+◌, ◌%◌, ◌^◌, ◌≤◌, ◌<◌, ◌≡◌, ◌≢◌, ◌∙◌, refl, Bool, true, not, ◌&&◌, List, [], ◌∷◌,
  ◌==◌, ltb, update_self, update_ne, arith,
}
use native.Mathlib.Decide.{ℕ_discrete}
use klyx.Machine.Tables.{IdtDesc, idt_set, idt_handler}
use klyx.Machine.Start.{Hardware, idt_cap, idt_gate_32bit_int, idt_fill, gdt_init, idt_init}
use klyx.System.Boot.{Symbols, handlers, set_handlers, start_pic, start_pit, start_hardware}

-- A descriptor through which an interrupt of `ring` or below enters the handler, with interrupts off, in
-- the code segment of the kernel.
pub record Enters (handler level : ℕ) (d : IdtDesc) : Type 0 where
  pub address : idt_handler d ≡ handler % 2 ^ 32
  pub segment : d.segment ≡ 0x08
  pub gate : d.gate_type ≡ idt_gate_32bit_int
  pub ring : d.ring ≡ level % 2 ^ 2
  pub present : d.present ≡ true

-- A call of the list has done what it asks for.
abbrev pub EntersAll : (ℕ → IdtDesc) → List (ℕ × ℕ × ℕ) → Type 0
EntersAll idt [] = Unit
EntersAll idt ((vector, handler, ring) ∷ rest) =
    Enters handler ring (idt vector) × EntersAll idt rest

-- No call of the list sets `vector`.
abbrev pub is_free : ℕ → List (ℕ × ℕ × ℕ) → Bool
is_free vector [] = true
is_free vector ((v, handler, ring) ∷ rest) = not (vector == v) && is_free vector rest

-- The calls set different vectors of the table.
abbrev are_distinct : List (ℕ × ℕ × ℕ) → Bool
are_distinct [] = true
are_distinct ((v, handler, ring) ∷ rest) = is_free v rest && ltb v idt_cap && are_distinct rest

idt_set-Enters :
    (idt : ℕ → IdtDesc) (v handler ring : ℕ)
    → v < idt_cap
    → Enters handler ring (idt_set idt v 0x08 handler idt_gate_32bit_int ring v)
unfolding idt_set
idt_set-Enters idt v handler ring lt =
    let same : v % 2 ^ 8 ≡ v = omega arith in
    rw (same, update_self idt v _)
      (record { address = omega arith; segment = refl; gate = refl; ring = refl; present = refl })

idt_set-other :
    (idt : ℕ → IdtDesc) (v handler ring w : ℕ)
    → v < idt_cap
    → w ≢ v
    → idt_set idt v 0x08 handler idt_gate_32bit_int ring w ≡ idt w
unfolding idt_set
idt_set-other idt v handler ring w lt ne =
    let same : v % 2 ^ 8 ≡ v = omega arith in rw same (update_ne idt v _ w ne)

-- A vector that no call sets keeps its descriptor.
set_handlers-free :
    (calls : List (ℕ × ℕ × ℕ)) (idt : ℕ → IdtDesc) (w : ℕ)
    → are_distinct calls ≡ true
    → is_free w calls ≡ true
    → set_handlers calls idt w ≡ idt w
unfolding set_handlers
set_handlers-free [] idt w d f = refl
set_handlers-free ((v, handler, ring) ∷ rest) idt w d f =
    set_handlers-free rest (idt_set idt v 0x08 handler idt_gate_32bit_int ring) w (ground arith)
      (ground arith)
    ∙ idt_set-other idt v handler ring w (ground arith) (λ e. ground arith)

-- A later call does not overwrite an earlier one.
set_handlers-EntersAll :
    (calls : List (ℕ × ℕ × ℕ)) (idt : ℕ → IdtDesc)
    → are_distinct calls ≡ true
    → EntersAll (set_handlers calls idt) calls
unfolding set_handlers
set_handlers-EntersAll [] idt d = tt
set_handlers-EntersAll ((v, handler, ring) ∷ rest) idt d =
    let idt1 = idt_set idt v 0x08 handler idt_gate_32bit_int ring in
    (
      rw (set_handlers-free rest idt1 v (ground arith) (ground arith))
          (idt_set-Enters idt v handler ring (ground arith)),
      set_handlers-EntersAll rest idt1 (ground arith),
    )

idt_fill-below :
    (left i handler : ℕ) (idt : ℕ → IdtDesc) (w : ℕ)
    → w < i
    → i + left ≤ idt_cap
    → idt_fill left i handler idt w ≡ idt w
unfolding idt_fill
idt_fill-below zero i handler idt w lt le = refl
idt_fill-below (suc left) i handler idt w lt le =
    idt_fill-below left (i + 1) handler (idt_set idt i 0x08 handler idt_gate_32bit_int 0) w
      (omega arith) (omega arith)
    ∙ idt_set-other idt i handler 0 w (omega arith) (λ e. omega arith)

idt_fill-Enters :
    (left i handler : ℕ) (idt : ℕ → IdtDesc) (w : ℕ)
    → i ≤ w
    → w < i + left
    → i + left ≤ idt_cap
    → Enters handler 0 (idt_fill left i handler idt w)
unfolding idt_fill
idt_fill-Enters zero i handler idt w ge lt le = absurd (omega arith)
idt_fill-Enters (suc left) i handler idt w ge lt le =
    let idt1 = idt_set idt i 0x08 handler idt_gate_32bit_int 0 in
    elim (ℕ_discrete w i) [
      | yes here ↦
          rw (here, idt_fill-below left (i + 1) handler idt1 i (omega arith) (omega arith))
            (idt_set-Enters idt i handler 0 (omega arith))
      | no ne ↦
          idt_fill-Enters left (i + 1) handler idt1 w (omega arith) (omega arith) (omega arith)
    ]

-- Behind the start, every vector that kernel_start sets enters its own handler, with the ring that
-- it asks for, and every other vector of the table enters idt_nothing.
pub start_hardware-EntersAll :
    (s : Symbols) (mask : ℕ) (hw : Hardware)
    → EntersAll (start_hardware s mask hw).idt_descriptors (handlers s)
      × ((w : ℕ)
          → w < idt_cap
          → is_free w (handlers s) ≡ true
          → Enters s.idt_nothing 0 ((start_hardware s mask hw).idt_descriptors w))
unfolding start_hardware start_pic start_pit idt_init gdt_init
start_hardware-EntersAll s mask hw =
    let filled = idt_fill idt_cap 0 s.idt_nothing hw.idt_descriptors in
    (
      set_handlers-EntersAll (handlers s) filled refl,
      λ w lt free. rw (set_handlers-free (handlers s) filled w refl free) (
          idt_fill-Enters idt_cap 0 s.idt_nothing hw.idt_descriptors w (omega arith) (omega arith)
            (omega arith)),
    )
