-- ===== src/System/Nested.antt =====
-- Interrupts that come while a call of `syscall_handler` in kernel/traps.c has let them in.
use klyx.Prelude.{ℕ, ◌+◌, ◌≤◌, ◌<◌, ◌≡◌, refl, ◌⊎◌, List, [], ◌∷◌}
use klyx.Machine.Regs.{IntRegs}
use klyx.Machine.Entry.{Words, int_end}
use klyx.System.Async.{Pointers, finish, During, interrupted, stored}

-- Interrupts of code whose stack ends at `p`, with 64 bytes each, and stores outside of the frame there.
abbrev pub Within : (p : ℕ) → List During → Type 0
Within p [] = Unit
Within p (interrupted c ∷ ds) = ((64 ≤ c.esp) × (c.esp ≤ p)) × Within p ds
Within p (stored a v ∷ ds) = ((a + 4 ≤ p) ⊎ (p + 64 ≤ a)) × Within p ds

-- Words that are the same in the frame at `p`.
abbrev AtFrame : (p : ℕ) → (m m' : Words) → Type 0
AtFrame p m m' = (a : ℕ) → p ≤ a → a < p + 64 → m' a ≡ m a

-- With the pointer of its own INT_START, INT_END goes back as it does without others.
finish-own :
    (g : Pointers) (m : Words)
    → ((finish g.esp_stack (g, m)).0 ≡ (int_end g.esp_stack m).0)
      × ((finish g.esp_stack (g, m)).2 ≡ (int_end g.esp_stack m).1)
unfolding finish int_end
finish-own g m = (refl, refl)

-- A return with `value` and, from the stack pointer on, the words of `n`.
Answered : (value : ℕ) (c : IntRegs) (n : Words) → IntRegs × Words → Type 0
Answered value c n r = (r.0 ≡ record c { eax = value }) × ((a : ℕ) → c.esp ≤ a → r.1 a ≡ n a)
