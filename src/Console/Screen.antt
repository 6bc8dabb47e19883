-- ===== src/Console/Screen.antt =====
-- What printing does to the screens: where it writes, where it leaves the cursor, and that the screen
-- goes on showing the copy of the displayed console.
use klyx.Prelude.{
  ap, ℕ, ◌≤◌, ◌<◌, ◌≡◌, ◌≢◌, inl, inr, refl, ◌∙◌, sym, Bool, true, false, List, [], ◌∷◌, update,
  update_self, update_ne, leb, leb→lt, if◌then◌else◌, ◌==◌, ==_ne, ==_refl, Bool-cases, arith,
}
use native.Mathlib.Decide.{ℕ_discrete}
use klyx.Machine.Memory.{memcpy}
use klyx.Machine.Copies.{
  memcpy-outside, memset-outside, AgreeBelow, update-AgreeBelow, memcpy-AgreeBelow,
  memset-AgreeBelow,
}
use klyx.Console.State.{Console}
use klyx.Console.Output.{
  cells, columns, last_row, cell_of, scroll, is_control, next_cursor, straight, mirrored, put_char,
  wrap_screen, put_chars, con_putstr, con_putstr_rev,
}

-- The screen shows the copy of the displayed console.
abbrev pub IsShown : Console → Type 0
IsShown c = AgreeBelow cells c.con_addr (c.vga_copies c.current_tty_displ)

-- A change by a call that prints on console `tty`.
pub record Printed (tty : ℕ) (c c' : Console) : Type 0 where
  pub cursors : (j : ℕ) → j ≢ tty → c'.con_cursors j ≡ c.con_cursors j
  pub copies : (j : ℕ) → j ≢ tty → c'.vga_copies j ≡ c.vga_copies j
  pub copy_end : (i : ℕ) → cells ≤ i → c'.vga_copies tty i ≡ c.vga_copies tty i
  pub screen_end : (i : ℕ) → cells ≤ i → c'.con_addr i ≡ c.con_addr i
  pub hidden : c.current_tty_displ ≢ tty → c'.con_addr ≡ c.con_addr
  pub shown : IsShown c → IsShown c'
  pub display : c'.current_tty_displ ≡ c.current_tty_displ

Printed-refl : (tty : ℕ) (c : Console) → Printed tty c c
Printed-refl tty c = record {
  cursors = λ j ne. refl;
  copies = λ j ne. refl;
  copy_end = λ i le. refl;
  screen_end = λ i le. refl;
  hidden = λ ne. refl;
  shown = λ s. s;
  display = refl;
}

Printed-trans : (tty : ℕ) {a b c : Console} → Printed tty a b → Printed tty b c → Printed tty a c
Printed-trans tty {a} p q = record {
  cursors = λ j ne. q.cursors j ne ∙ p.cursors j ne;
  copies = λ j ne. q.copies j ne ∙ p.copies j ne;
  copy_end = λ i le. q.copy_end i le ∙ p.copy_end i le;
  screen_end = λ i le. q.screen_end i le ∙ p.screen_end i le;
  hidden = λ ne. q.hidden (rw p.display ne) ∙ p.hidden ne;
  shown = λ s. q.shown (p.shown s);
  display = q.display ∙ p.display;
}

Printed-if :
    (tty : ℕ) (c : Console) (b : Bool) (x y : Console)
    → Printed tty c x
    → Printed tty c y
    → Printed tty c (if b then x else y)
Printed-if tty c true x y p q = p
Printed-if tty c false x y p q = q

-- A change of the copy of `tty` by `f`, and of the screen by the same `f` if `tty` is displayed.
changed : (f : (ℕ → ℕ) → ℕ → ℕ) (tty cursor : ℕ) → Console → Console
changed f tty cursor c = record c {
  con_cursors = update c.con_cursors tty cursor;
  vga_copies = update c.vga_copies tty (f (c.vga_copies tty));
  con_addr = if c.current_tty_displ == tty then f c.con_addr else c.con_addr;
}

-- Such a change prints on `tty` if `f` stays below `cells`, in what it writes and in what it reads.
changed-Printed :
    (f : (ℕ → ℕ) → ℕ → ℕ) (tty cursor : ℕ) (c : Console)
    → ((m : ℕ → ℕ) (i : ℕ) → cells ≤ i → f m i ≡ m i)
    → ((m l : ℕ → ℕ) → AgreeBelow cells m l → AgreeBelow cells (f m) (f l))
    → Printed tty c (changed f tty cursor c)
unfolding changed
changed-Printed f tty cursor c outside agree = record {
  cursors = λ j ne. update_ne c.con_cursors tty cursor j ne;
  copies = λ j ne. update_ne c.vga_copies tty (f (c.vga_copies tty)) j ne;
  copy_end = λ i le.
      rw (update_self c.vga_copies tty (f (c.vga_copies tty))) (outside (c.vga_copies tty) i le);
  screen_end = λ i le. elim (Bool-cases (c.current_tty_displ == tty)) [
    | inl here ↦ rw here (outside c.con_addr i le)
    | inr other ↦ rw other refl
  ];
  hidden = λ ne. rw (==_ne c.current_tty_displ tty ne) refl;
  shown = λ s i lt. elim (ℕ_discrete c.current_tty_displ tty) [
    | yes same ↦
        let here : (c.current_tty_displ == tty) ≡ true = rw same (==_refl tty) in
        ap (λ b. (if b then f c.con_addr else c.con_addr) i) here
        ∙ agree c.con_addr (c.vga_copies tty)
            (λ n below. s n below ∙ ap (λ d. c.vga_copies d n) same) i lt
        ∙ ap (λ m. m i) (sym (update_self c.vga_copies tty (f (c.vga_copies tty))))
        ∙ ap (λ d. update c.vga_copies tty (f (c.vga_copies tty)) d i) (sym same)
    | no ne ↦
        ap (λ b. (if b then f c.con_addr else c.con_addr) i) (==_ne c.current_tty_displ tty ne)
        ∙ s i lt
        ∙ ap (λ m. m i)
            (sym (update_ne c.vga_copies tty (f (c.vga_copies tty)) c.current_tty_displ ne))
  ];
  display = refl;
}

scroll-outside : (m : ℕ → ℕ) (i : ℕ) → cells ≤ i → scroll m i ≡ m i
unfolding scroll
scroll-outside m i le =
    memset-outside (memcpy m 0 columns last_row) last_row 0 columns i (inr (omega arith))
    ∙ memcpy-outside m 0 columns last_row i (inr (omega arith))

scroll-AgreeBelow : (m l : ℕ → ℕ) → AgreeBelow cells m l → AgreeBelow cells (scroll m) (scroll l)
unfolding scroll
scroll-AgreeBelow m l a =
    memset-AgreeBelow cells _ _ last_row 0 columns
      (memcpy-AgreeBelow cells m l 0 columns last_row (omega arith) a)

-- A write of one cell of the screen.
update-outside : (p x : ℕ) → p < cells → (m : ℕ → ℕ) (i : ℕ) → cells ≤ i → update m p x i ≡ m i
update-outside p x lt m i le = update_ne m p x i (omega arith)

-- The cursor is on the screen.
abbrev pub IsOnScreen : ℕ → Console → Type 0
IsOnScreen tty c = c.con_cursors tty < cells

module _ (place : ℕ → ℕ) (stays : (cur : ℕ) → cur < cells → place cur < cells) (tty : ℕ) where
  put_char-Printed :
      (c : Console) (ch : ℕ) → IsOnScreen tty c → Printed tty c (put_char place tty c ch)
  unfolding put_char changed
  put_char-Printed c ch on =
      Printed-if tty c (is_control ch) _ _
        (record {
          cursors = λ j ne. update_ne c.con_cursors tty (next_cursor ch (c.con_cursors tty)) j ne;
          copies = λ j ne. refl;
          copy_end = λ i le. refl;
          screen_end = λ i le. refl;
          hidden = λ ne. refl;
          shown = λ s. s;
          display = refl;
        })
        (changed-Printed (λ m. update m (place (c.con_cursors tty)) (cell_of ch)) tty
          (next_cursor ch (c.con_cursors tty)) c
          (update-outside (place (c.con_cursors tty)) (cell_of ch) (stays (c.con_cursors tty) on))
          (λ m l a.
            update-AgreeBelow cells m l (place (c.con_cursors tty)) (cell_of ch) (cell_of ch) refl
              a))

  wrap_screen-Printed : (c : Console) → Printed tty c (wrap_screen place tty c)
  unfolding wrap_screen changed
  wrap_screen-Printed c = elim (Bool-cases (leb cells (c.con_cursors tty))) [
    | inl below ↦ rw below (changed-Printed scroll tty last_row c scroll-outside scroll-AgreeBelow)
    | inr on ↦ rw on (Printed-refl tty c)
  ]

  wrap_screen-IsOnScreen : (c : Console) → IsOnScreen tty (wrap_screen place tty c)
  unfolding wrap_screen
  wrap_screen-IsOnScreen c = elim (Bool-cases (leb cells (c.con_cursors tty))) [
    | inl below ↦ rw (below, update_self c.con_cursors tty last_row) (omega arith)
    | inr on ↦ rw on (leb→lt cells (c.con_cursors tty) on)
  ]

  put_chars-Printed :
      (c : Console) (buf : List ℕ)
      → IsOnScreen tty c
      → IsOnScreen tty (put_chars place tty c buf) × Printed tty c (put_chars place tty c buf)
  unfolding put_chars
  put_chars-Printed c [] on = (on, Printed-refl tty c)
  put_chars-Printed c (ch ∷ buf) on =
      let typed = put_char place tty c ch in
      let (on', rest) =
        put_chars-Printed (wrap_screen place tty typed) buf (wrap_screen-IsOnScreen typed) in
      (
        on',
        Printed-trans tty (put_char-Printed c ch on)
            (Printed-trans tty (wrap_screen-Printed typed) rest),
      )

-- con_putstr on a console whose cursor is on the screen leaves it on the screen; it writes no cell
-- behind the 2000 of the copy and of the screen, touches no other console, leaves the screen alone
-- if its console is not displayed, and leaves it showing the copy of the displayed console if it
-- did.
pub con_putstr-Printed :
    (c : Console) (tty : ℕ) (buf : List ℕ)
    → IsOnScreen tty c
    → IsOnScreen tty (con_putstr c tty buf).1 × Printed tty c (con_putstr c tty buf).1
unfolding con_putstr straight
con_putstr-Printed c tty buf on = put_chars-Printed straight (λ cur lt. lt) tty c buf on

-- con_putstr_rev, which writes each row from right to left, keeps the same bounds: the cursor
-- stays on the screen, no cell behind the 2000 is written, no other console is touched, and the
-- screen goes on showing the copy of the displayed console.
pub con_putstr_rev-Printed :
    (c : Console) (tty : ℕ) (buf : List ℕ)
    → IsOnScreen tty c
    → IsOnScreen tty (con_putstr_rev c tty buf).1 × Printed tty c (con_putstr_rev c tty buf).1
unfolding con_putstr_rev mirrored
con_putstr_rev-Printed c tty buf on =
    put_chars-Printed mirrored (λ cur lt. omega arith) tty c buf on
