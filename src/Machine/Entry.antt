-- ===== src/Machine/Entry.antt =====
-- The macros INT_START and INT_END of include/klyx/hw.h: how a handler gets the registers of the code
-- that it interrupts, and how it goes back. The stack is modelled by its words: `m a` is the word at
-- address `a`, and no two words overlap. A push wraps at 32 bits; the fields of a frame are read from
-- its address on. A segment register fills a word. The segments that the handler itself runs with and
-- the two bytes that end the interrupt at the controllers are left out; the globals of the two macros are in
-- System/Async.
use klyx.Prelude.{ℕ, ◌+◌, ◌-◌, ◌%◌, ◌^◌, List, [], ◌∷◌, update}
use klyx.Machine.Regs.{IntRegs}

abbrev pub Words : Type 0
Words = ℕ → ℕ

-- `esp - 4`.
abbrev pub below : ℕ → ℕ
below esp = (esp + (2 ^ 32 - 4)) % 2 ^ 32

-- Pushes, in order, from the stack pointer and the words.
unfoldable pub push_all : List ℕ → ℕ × Words → ℕ × Words
push_all [] s = s
push_all (v ∷ vs) (esp, m) = push_all vs (below esp, update m (below esp) v)

-- `int_regs_t` at `p`.
unfoldable pub regs_at : Words → ℕ → IntRegs
regs_at m p = record {
  gs = m (p + 0);
  fs = m (p + 4);
  es = m (p + 8);
  ss = m (p + 12);
  ds = m (p + 16);
  edi = m (p + 20);
  esi = m (p + 24);
  ebp = m (p + 28);
  esp = m (p + 32);
  ebx = m (p + 36);
  edx = m (p + 40);
  ecx = m (p + 44);
  eax = m (p + 48);
  eip = m (p + 52);
  cs = m (p + 56);
  eflags = m (p + 60);
}

-- What the processor pushes at an interrupt.
abbrev pub return_words : IntRegs → List ℕ
return_words c = c.eflags ∷ c.cs ∷ c.eip ∷ []

-- What `pushal` and the pushes of the segment registers store; `esp` is the pointer before `pushal`.
abbrev pub saved_words : IntRegs → (esp : ℕ) → List ℕ
saved_words c esp =
    c.eax ∷ c.ecx ∷ c.edx ∷ c.ebx ∷ esp ∷ c.ebp ∷ c.esi ∷ c.edi ∷ c.ds ∷ c.ss ∷ c.es ∷ c.fs ∷ c.gs
    ∷ []

-- The result holds `interrupt_esp_stack_ptr`.
unfoldable pub int_start : IntRegs → Words → ℕ × Words
int_start c m = let s = push_all (return_words c) (c.esp, m) in push_all (saved_words c s.0) s

-- The three pushes at `regs->esp+12`, and `iretl`, which takes them again.
unfoldable pub return_to : IntRegs → Words → IntRegs × Words
return_to regs m =
    let (esp, m1) = push_all (return_words regs) ((regs.esp + 12) % 2 ^ 32, m) in
    (
      record regs {
        eip = m1 (esp + 0);
        cs = m1 (esp + 4);
        eflags = m1 (esp + 8);
        esp = (esp + 12) % 2 ^ 32;
      },
      m1,
    )

-- The pops from the frame at `p`, and the return.
unfoldable pub int_end : ℕ → Words → IntRegs × Words
int_end p m = return_to (regs_at m p) m
