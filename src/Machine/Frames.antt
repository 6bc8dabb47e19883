-- ===== src/Machine/Frames.antt =====
-- The frame that INT_START stores and INT_END takes back.
use klyx.Prelude.{
  ℕ, suc, ◌+◌, ◌-◌, ◌*◌, ◌%◌, ◌^◌, ◌≤◌, ◌<◌, ◌≡◌, ◌≢◌, ◌∙◌, ◌⊎◌, inl, inr, refl, ap, subst, List,
  [], ◌∷◌, length, get_or, update, update_self, update_ne, arith,
}
use native.Mathlib.Decide.{ℕ_discrete}
use klyx.Machine.Regs.{IntRegs}
use klyx.Machine.Entry.{
  Words, return_words, saved_words, below, push_all, regs_at, int_start, int_end, return_to,
}

below-at : (a : ℕ) → a + 4 < 2 ^ 32 → below (a + 4) ≡ a
below-at a lt = omega arith

-- Behind pushes that end at `p`: the pointer, the words from `p` on, the last one first, and the words
-- outside.
record Pushed (vs : List ℕ) (p : ℕ) (m : Words) (s : ℕ × Words) : Type 0 where
  pointer : s.0 ≡ p
  stored : (i : ℕ) → i < length vs → s.1 (p + 4 * i) ≡ get_or vs (length vs - 1 - i) 0
  outside : (a : ℕ) → (a < p) ⊎ (p + 4 * length vs ≤ a) → s.1 a ≡ m a

push_all-Pushed :
    (vs : List ℕ) (p : ℕ) (m : Words)
    → p + 4 * length vs < 2 ^ 32
    → Pushed vs p m (push_all vs (p + 4 * length vs, m))
unfolding push_all
push_all-Pushed [] p m lt = record {
  pointer = omega arith;
  stored = λ i l. absurd (omega arith);
  outside = λ a o. refl;
}
push_all-Pushed (v ∷ vs) p m lt =
    let n = length vs in
    let at : below (p + 4 * suc n) ≡ p + 4 * n = omega arith in
    let m1 = update m (p + 4 * n) v in
    rw at (
      go m1 (push_all-Pushed vs p m1 (omega arith)) (update_self m (p + 4 * n) v)
        (λ a ne. update_ne m (p + 4 * n) v a ne))
  where
    go :
        {s : ℕ × Words} (m1 : Words)
        → Pushed vs p m1 s
        → m1 (p + 4 * length vs) ≡ v
        → ((a : ℕ) → a ≢ p + 4 * length vs → m1 a ≡ m a)
        → Pushed (v ∷ vs) p m s
    go m1 rest here there = record {
      pointer = rest.pointer;
      stored = λ i l. elim (ℕ_discrete i (length vs)) [
        | yes last ↦
            let first : length (v ∷ vs) - 1 - i ≡ 0 = omega arith in
            rw (first, last) (rest.outside (p + 4 * length vs) (inr (omega arith)) ∙ here)
        | no ne ↦
            let next : length (v ∷ vs) - 1 - i ≡ suc (length vs - 1 - i) = omega arith in
            rw next (rest.stored i (omega arith))
      ];
      outside = λ a o. elim o [
        | inl lo ↦ rest.outside a (inl lo) ∙ there a (λ e. omega arith)
        | inr hi ↦ rest.outside a (inr (omega arith)) ∙ there a (λ e. omega arith)
      ];
    }

-- The frame.
pub record Framed (c : IntRegs) (p : ℕ) (m : Words) (s : ℕ × Words) : Type 0 where
  pub pointer : s.0 ≡ p
  pub frame : regs_at s.1 p ≡ record c { esp = p + 52 }
  pub outside : (a : ℕ) → (a < p) ⊎ (p + 64 ≤ a) → s.1 a ≡ m a

-- The two groups of pushes make the frame.
frame-Framed :
    (c : IntRegs) (p : ℕ) (m m1 : Words) (s : ℕ × Words)
    → Pushed (return_words c) (p + 52) m (p + 52, m1)
    → Pushed (saved_words c (p + 52)) p m1 s
    → Framed c p m s
unfolding regs_at
frame-Framed c p m m1 s high low =
    let high_word : (i a : ℕ)
        → i < 3
        → p + 52 + 4 * i ≡ a
        → m1 a ≡ get_or (return_words c) (2 - i) 0 =
      λ i a l e. subst (λ x. m1 x ≡ get_or (return_words c) (2 - i) 0) e (high.stored i l) in
    let gs_word : s.1 (p + 0) ≡ c.gs = low.stored 0 (omega arith) in
    let fs_word : s.1 (p + 4) ≡ c.fs = low.stored 1 (omega arith) in
    let es_word : s.1 (p + 8) ≡ c.es = low.stored 2 (omega arith) in
    let ss_word : s.1 (p + 12) ≡ c.ss = low.stored 3 (omega arith) in
    let ds_word : s.1 (p + 16) ≡ c.ds = low.stored 4 (omega arith) in
    let edi_word : s.1 (p + 20) ≡ c.edi = low.stored 5 (omega arith) in
    let esi_word : s.1 (p + 24) ≡ c.esi = low.stored 6 (omega arith) in
    let ebp_word : s.1 (p + 28) ≡ c.ebp = low.stored 7 (omega arith) in
    let esp_word : s.1 (p + 32) ≡ p + 52 = low.stored 8 (omega arith) in
    let ebx_word : s.1 (p + 36) ≡ c.ebx = low.stored 9 (omega arith) in
    let edx_word : s.1 (p + 40) ≡ c.edx = low.stored 10 (omega arith) in
    let ecx_word : s.1 (p + 44) ≡ c.ecx = low.stored 11 (omega arith) in
    let eax_word : s.1 (p + 48) ≡ c.eax = low.stored 12 (omega arith) in
    let eip_word : s.1 (p + 52) ≡ c.eip =
      low.outside (p + 52) (inr (omega arith)) ∙ high_word 0 (p + 52) (omega arith) (omega arith) in
    let cs_word : s.1 (p + 56) ≡ c.cs =
      low.outside (p + 56) (inr (omega arith)) ∙ high_word 1 (p + 56) (omega arith) (omega arith) in
    let eflags_word : s.1 (p + 60) ≡ c.eflags =
      low.outside (p + 60) (inr (omega arith)) ∙ high_word 2 (p + 60) (omega arith) (omega arith) in
    record {
      pointer = low.pointer;
      frame =
          rw
            (
              gs_word, fs_word, es_word, ss_word, ds_word, edi_word, esi_word, ebp_word, esp_word,
              ebx_word, edx_word, ecx_word, eax_word, eip_word, cs_word, eflags_word,
            )
            refl;
      outside = λ a o. elim o [
        | inl lo ↦ low.outside a (inl lo) ∙ high.outside a (inl (omega arith))
        | inr hi ↦ low.outside a (inr (omega arith)) ∙ high.outside a (inr (omega arith))
      ];
    }

-- start
pub int_start-Framed :
    (c : IntRegs) (p : ℕ) (m : Words)
    → c.esp ≡ p + 64
    → p + 64 < 2 ^ 32
    → Framed c p m (int_start c m)
unfolding int_start
int_start-Framed c p m e lt =
    let top : p + 52 + 4 * 3 ≡ c.esp = omega arith in
    go (push_all (return_words c) (c.esp, m)) (
      subst (λ x. Pushed (return_words c) (p + 52) m (push_all (return_words c) (x, m))) top
        (push_all-Pushed (return_words c) (p + 52) m (omega arith)))
  where
    go :
        (s : ℕ × Words)
        → Pushed (return_words c) (p + 52) m s
        → Framed c p m (push_all (saved_words c s.0) s)
    go (esp, m1) high =
        let at : esp ≡ p + 52 = high.pointer in
        rw at (
          frame-Framed c p m m1 _ (subst (λ x. Pushed (return_words c) (p + 52) m (x, m1)) at high)
            (push_all-Pushed (saved_words c (p + 52)) p m1 (omega arith)))

-- What INT_END leaves: the registers of the frame, with the pointer above the three words that it
-- pushes again, and the words outside these.
pub record Resumed (c : IntRegs) (m : Words) (o : IntRegs × Words) : Type 0 where
  pub regs : o.0 ≡ record c { esp = c.esp + 12 }
  pub outside : (a : ℕ) → (a < c.esp) ⊎ (c.esp + 12 ≤ a) → o.1 a ≡ m a

iretl-Resumed :
    (c : IntRegs) (m : Words) (s : ℕ × Words)
    → c.esp + 12 < 2 ^ 32
    → Pushed (return_words c) c.esp m s
    → Resumed c m (
      record c {
        eip = s.1 (s.0 + 0);
        cs = s.1 (s.0 + 4);
        eflags = s.1 (s.0 + 8);
        esp = (s.0 + 12) % 2 ^ 32;
      },
      s.1,
    )
iretl-Resumed c m (esp, m1) lt q =
    let at : esp ≡ c.esp = q.pointer in
    let eip_word : m1 (c.esp + 0) ≡ c.eip = q.stored 0 (omega arith) in
    let cs_word : m1 (c.esp + 4) ≡ c.cs = q.stored 1 (omega arith) in
    let eflags_word : m1 (c.esp + 8) ≡ c.eflags = q.stored 2 (omega arith) in
    let top : (c.esp + 12) % 2 ^ 32 ≡ c.esp + 12 = omega arith in
    record { regs = rw (at, eip_word, cs_word, eflags_word, top) refl; outside = q.outside }

-- end
pub int_end-Resumed :
    (p : ℕ) (m : Words) → (regs_at m p).esp + 12 < 2 ^ 32 → Resumed (regs_at m p) m (int_end p m)
unfolding int_end return_to
int_end-Resumed p m lt =
    let c = regs_at m p in
    let top : (c.esp + 12) % 2 ^ 32 ≡ c.esp + 12 = omega arith in
    rw top (
      iretl-Resumed c m (push_all (return_words c) (c.esp + 12, m)) lt
        (push_all-Pushed (return_words c) c.esp m lt))

-- INT_START and then INT_END, with at least 64 bytes of stack, give back every register of the
-- interrupted code, and every word from its stack pointer on is as it was.
pub int_end-int_start :
    (c : IntRegs) (m : Words)
    → 64 ≤ c.esp
    → c.esp < 2 ^ 32
    → ((int_end (int_start c m).0 (int_start c m).1).0 ≡ c)
      × ((a : ℕ) → c.esp ≤ a → (int_end (int_start c m).0 (int_start c m).1).1 a ≡ m a)
int_end-int_start c m ge lt =
    let p = c.esp - 64 in
    let top : c.esp ≡ p + 64 = omega arith in
    go p top (omega arith) (int_start c m) (int_start-Framed c p m top (omega arith))
  where
    go :
        (p : ℕ)
        → c.esp ≡ p + 64
        → p + 64 < 2 ^ 32
        → (s : ℕ × Words) → Framed c p m s
        → ((int_end s.0 s.1).0 ≡ c) × ((a : ℕ) → c.esp ≤ a → (int_end s.0 s.1).1 a ≡ m a)
    go p top lt (p', m1) f =
        let at : p' ≡ p = f.pointer in
        let pointer : (regs_at m1 p).esp ≡ p + 52 = ap (λ r. r.esp) f.frame in
        let back : Resumed (regs_at m1 p) m1 (int_end p m1) =
          int_end-Resumed p m1 (omega (arith, pointer)) in
        rw at (
          back.regs
              ∙ ap (λ (r : IntRegs). record r { esp = r.esp + 12 }) f.frame
              ∙ (let same : p + 52 + 12 ≡ c.esp = omega arith in
                  ap (λ x. record c { esp = x }) same),
          λ a hi. back.outside a (inr (omega (arith, pointer))) ∙ f.outside a (inr (omega arith)),
        )
