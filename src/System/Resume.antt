-- ===== src/System/Resume.antt =====
-- Two interrupts of kernel/traps.c that switch tasks: the first one leaves a task, a later one goes back.
use klyx.Prelude.{
  ℕ, zero, suc, ◌+◌, ◌-◌, ◌*◌, ◌^◌, ◌≤◌, ◌<◌, ◌≡◌, ◌≢◌, ◌∙◌, ◌⊎◌, inl, refl, sym, ap, subst, List,
  [], ◌∷◌, length, get_or, update, update_self, update_ne, arith,
}
use klyx.Machine.Regs.{IntRegs, Regs, save_regs, load_regs}
use klyx.Machine.Outcome.{returned, ◌>>=◌, >>=-eq-returned}
use klyx.Machine.Entry.{Words, regs_at, int_start, int_end}
use klyx.Machine.Frames.{Framed, int_start-Framed, int_end-Resumed}
use klyx.Sched.Task.{Kernel}
use klyx.Sched.Flush.{Printf, Result}
use klyx.Sched.Switch.{sched_next_task}
use klyx.Sched.Quiet.{AllQueues}
use klyx.Sched.Next.{sched_next_task-regs}
use klyx.System.Interrupt.{write_words, fields, put_regs, leave, interrupt}

pub write_words-outside :
    (vs : List ℕ) (p : ℕ) (m : Words) (a : ℕ)
    → (a < p) ⊎ (p + 4 * length vs ≤ a)
    → write_words vs p m a ≡ m a
unfolding write_words
write_words-outside [] p m a o = refl
write_words-outside (v ∷ vs) p m a o =
    write_words-outside vs (p + 4) (update m p v) a (ground arith)
    ∙ update_ne m p v a (ground arith)

write_words-at :
    (vs : List ℕ) (p : ℕ) (m : Words) (i : ℕ)
    → i < length vs
    → write_words vs p m (p + 4 * i) ≡ get_or vs i 0
unfolding write_words
write_words-at [] p m i lt = absurd (omega arith)
write_words-at (v ∷ vs) p m zero lt =
    let here : p + 4 * zero ≡ p = omega arith in
    rw here
      (write_words-outside vs (p + 4) (update m p v) p (inl (omega arith)) ∙ update_self m p v)
write_words-at (v ∷ vs) p m (suc i) lt =
    let next : p + 4 * suc i ≡ p + 4 + 4 * i = omega arith in
    rw next (write_words-at vs (p + 4) (update m p v) i (omega arith))

pub put_regs-regs_at : (m : Words) (p : ℕ) (r : IntRegs) → regs_at (put_regs m p r) p ≡ r
unfolding regs_at
put_regs-regs_at m p r =
    let gs_word : put_regs m p r (p + 0) ≡ r.gs = word 0 (p + 0) (omega arith) (omega arith) in
    let fs_word : put_regs m p r (p + 4) ≡ r.fs = word 1 (p + 4) (omega arith) (omega arith) in
    let es_word : put_regs m p r (p + 8) ≡ r.es = word 2 (p + 8) (omega arith) (omega arith) in
    let ss_word : put_regs m p r (p + 12) ≡ r.ss = word 3 (p + 12) (omega arith) (omega arith) in
    let ds_word : put_regs m p r (p + 16) ≡ r.ds = word 4 (p + 16) (omega arith) (omega arith) in
    let edi_word : put_regs m p r (p + 20) ≡ r.edi = word 5 (p + 20) (omega arith) (omega arith) in
    let esi_word : put_regs m p r (p + 24) ≡ r.esi = word 6 (p + 24) (omega arith) (omega arith) in
    let ebp_word : put_regs m p r (p + 28) ≡ r.ebp = word 7 (p + 28) (omega arith) (omega arith) in
    let esp_word : put_regs m p r (p + 32) ≡ r.esp = word 8 (p + 32) (omega arith) (omega arith) in
    let ebx_word : put_regs m p r (p + 36) ≡ r.ebx = word 9 (p + 36) (omega arith) (omega arith) in
    let edx_word : put_regs m p r (p + 40) ≡ r.edx = word 10 (p + 40) (omega arith) (omega arith) in
    let ecx_word : put_regs m p r (p + 44) ≡ r.ecx = word 11 (p + 44) (omega arith) (omega arith) in
    let eax_word : put_regs m p r (p + 48) ≡ r.eax = word 12 (p + 48) (omega arith) (omega arith) in
    let eip_word : put_regs m p r (p + 52) ≡ r.eip = word 13 (p + 52) (omega arith) (omega arith) in
    let cs_word : put_regs m p r (p + 56) ≡ r.cs = word 14 (p + 56) (omega arith) (omega arith) in
    let eflags_word : put_regs m p r (p + 60) ≡ r.eflags =
      word 15 (p + 60) (omega arith) (omega arith) in
    rw
      (
        gs_word, fs_word, es_word, ss_word, ds_word, edi_word, esi_word, ebp_word, esp_word,
        ebx_word, edx_word, ecx_word, eax_word, eip_word, cs_word, eflags_word,
      )
      refl
  where
    word : (i a : ℕ) → i < 16 → p + 4 * i ≡ a → put_regs m p r a ≡ get_or (fields r) i 0
    word i a lt e =
        subst (λ x. put_regs m p r x ≡ get_or (fields r) i 0) e (write_words-at (fields r) p m i lt)

-- What an interrupt leaves that switches tasks.
record Left (c : IntRegs) (k : Kernel) (c' : IntRegs) (k' : Kernel) : Type 0 where
  kept : (k'.tasks k.current_task).regs ≡ save_regs (record c { esp = c.esp - 12 })
  others : (j : ℕ) → j ≢ k.current_task → (k'.tasks j).regs ≡ (k.tasks j).regs
  loaded :
      (r : Regs)
      → (k'.tasks k'.current_task).regs ≡ r
      → r.esp + 12 < 2 ^ 32
      → c' ≡ record (load_regs r) { esp = r.esp + 12 }

same_state :
    (x y : IntRegs × Words × Kernel)
    → ◌≡◌ {A = Result (IntRegs × Words × Kernel)} (returned x) (returned y)
    → x ≡ y
same_state x y e = cc

module _ (printf : Printf) where
  interrupt-Left :
      (c : IntRegs) (m : Words) (k : Kernel) {c' : IntRegs} {m' : Words} {k' : Kernel}
      → AllQueues k
      → 64 ≤ c.esp
      → c.esp < 2 ^ 32
      → interrupt (sched_next_task printf) c m k ≡ returned (c', m', k')
      → Left c k c' k'
  unfolding interrupt load_regs
  interrupt-Left c m k {c'} {m'} {k'} q ge lt e =
      go (int_start c m) (int_start-Framed c (c.esp - 64) m (omega arith) (omega arith)) e
    where
      moved :
          c.esp - 64 + 52 ≡ c.esp - 12
          → ◌≡◌ {A = IntRegs} (record c { esp = c.esp - 64 + 52 }) (record c { esp = c.esp - 12 })
      moved same = ap (λ x. record c { esp = x }) same

      go :
          (s : ℕ × Words)
          → Framed c (c.esp - 64) m s
          → (sched_next_task printf (regs_at s.1 s.0) k >>= λ r. returned (leave s.0 s.1 r))
            ≡ returned (c', m', k')
          → Left c k c' k'
      go s f h =
          let (r, switched, rest) =
            >>=-eq-returned (sched_next_task printf (regs_at s.1 s.0) k) _ h in
          let frame = put_regs s.1 s.0 r.0 in
          let same = same_state (leave s.0 s.1 r) (c', m', k') rest in
          let (kept, others, loaded, back) =
            sched_next_task-regs printf (regs_at s.1 s.0) k q switched in
          let kernel : r.1 ≡ k' = ap (λ t. t.2) same in
          let resumed : (int_end s.0 frame).0 ≡ c' = ap (λ t. t.0) same in
          let stored : regs_at s.1 s.0 ≡ record c { esp = c.esp - 12 } =
            ap (regs_at s.1) f.pointer ∙ f.frame ∙ moved (omega arith) in
          rw (sym kernel) (record {
            kept = kept ∙ ap save_regs stored;
            others = others;
            loaded = λ r' e' fits.
                let all : regs_at frame s.0 ≡ load_regs r' =
                  put_regs-regs_at s.1 s.0 r.0 ∙ loaded ∙ ap load_regs e' in
                let above =
                  int_end-Resumed s.0 frame
                    (subst (λ (x : IntRegs). x.esp + 12 < 2 ^ 32) (sym all) fits) in
                sym resumed ∙ above.regs ∙ ap (λ (x : IntRegs). record x { esp = x.esp + 12 }) all;
          })

  -- The handler is the switch itself.
  switch-resumes :
      (c : IntRegs) (m : Words) (k : Kernel) (d : IntRegs) (n : Words) (l : Kernel) {c' : IntRegs}
      {m' : Words} {k' : Kernel} {d' : IntRegs} {n' : Words} {l' : Kernel}
      → AllQueues k
      → AllQueues l
      → 64 ≤ c.esp
      → c.esp < 2 ^ 32
      → 64 ≤ d.esp
      → d.esp < 2 ^ 32
      → interrupt (sched_next_task printf) c m k ≡ returned (c', m', k')
      → (l.tasks k.current_task).regs ≡ (k'.tasks k.current_task).regs
      → l.current_task ≢ k.current_task
      → interrupt (sched_next_task printf) d n l ≡ returned (d', n', l')
      → l'.current_task ≡ k.current_task
      → d' ≡ c
  unfolding load_regs save_regs
  switch-resumes c m k d n l {c'} {m'} {k'} {d'} {n'} {l'} qk ql ge lt ge' lt' left_by same away
        back_by home =
      let gone = interrupt-Left c m k qk ge lt left_by in
      let back = interrupt-Left d n l ql ge' lt' back_by in
      back.loaded (save_regs (record c { esp = c.esp - 12 }))
        (ap (λ i. (l'.tasks i).regs) home
          ∙ back.others k.current_task (λ e. away (sym e))
          ∙ same
          ∙ gone.kept)
        (omega arith)
      ∙ whole (omega arith)
    where
      whole : c.esp - 12 + 12 ≡ c.esp → ◌≡◌ {A = IntRegs} (record c { esp = c.esp - 12 + 12 }) c
      whole e = ap {A = ℕ} {B = IntRegs} (λ x. record c { esp = x }) e

  -- A handler that, on the frame of its interrupt, switches tasks and does nothing else.
  abbrev pub Switches :
      (IntRegs → Kernel → Result (IntRegs × Kernel)) → IntRegs → Words → Kernel → Type 0
  Switches h c m k =
      let s = int_start c m in h (regs_at s.1 s.0) k ≡ sched_next_task printf (regs_at s.1 s.0) k

  interrupt-Switches :
      (h : IntRegs → Kernel → Result (IntRegs × Kernel)) (c : IntRegs) (m : Words) (k : Kernel)
      → Switches h c m k
      → interrupt (sched_next_task printf) c m k ≡ interrupt h c m k
  unfolding interrupt
  interrupt-Switches h c m k e =
      let s = int_start c m in
      ap (λ (o : Result (IntRegs × Kernel)). o >>= λ r. returned (leave s.0 s.1 r)) (sym e)

  -- A task that an interrupt has left goes on, when a later one goes back to it, with every
  -- register as it was when the first interrupt came, if both handlers do no more than switch
  -- tasks, as the timer and yield do, its record has not been written in between, both stack
  -- pointers have 64 bytes below them, and the signal rings are valid at both interrupts.
  pub interrupt-resumes :
      (h : IntRegs → Kernel → Result (IntRegs × Kernel)) (c : IntRegs) (m : Words) (k : Kernel)
      (g : IntRegs → Kernel → Result (IntRegs × Kernel)) (d : IntRegs) (n : Words) (l : Kernel)
      {c' : IntRegs} {m' : Words} {k' : Kernel} {d' : IntRegs} {n' : Words} {l' : Kernel}
      → Switches h c m k
      → Switches g d n l
      → AllQueues k
      → AllQueues l
      → 64 ≤ c.esp
      → c.esp < 2 ^ 32
      → 64 ≤ d.esp
      → d.esp < 2 ^ 32
      → interrupt h c m k ≡ returned (c', m', k')
      → (l.tasks k.current_task).regs ≡ (k'.tasks k.current_task).regs
      → l.current_task ≢ k.current_task
      → interrupt g d n l ≡ returned (d', n', l')
      → l'.current_task ≡ k.current_task
      → d' ≡ c
  interrupt-resumes h c m k g d n l sh sg qk ql ge lt ge' lt' left_by same away back_by home =
      switch-resumes c m k d n l qk ql ge lt ge' lt' (interrupt-Switches h c m k sh ∙ left_by) same
        away (interrupt-Switches g d n l sg ∙ back_by) home
