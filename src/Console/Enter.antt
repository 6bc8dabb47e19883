-- ===== src/Console/Enter.antt =====
-- `tty_read` comes back: an end of line among the keys that wait ends it.
use klyx.Prelude.{
  ℕ, zero, suc, ◌-◌, ◌≤◌, ◌<◌, ◌≡◌, ◌≢◌, ◌⊎◌, inl, inr, refl, sym, subst, ap, ◌∙◌, true, false,
  List, [], ◌∷◌, replicate, some, update, update_self, lt→leb, ==_refl, ==_ne, if◌then◌else◌,
  Bool-cases, arith,
}
use klyx.Prelude.Int.{ℤ, pos, negsuc}
use klyx.Prelude.Ring.{window}
use klyx.Console.State.{input_buf_cap, Console, InputBuf, eno, con, ttys_cap}
use klyx.Console.Input.{pop_from, pop_scancode, scan_code_char, con_read}
use klyx.Console.Ring.{IsRing, waiting, pop_from-IsRing, pop_from-waiting}
use klyx.Console.Keyboard.{Scan, int_keyboards}
use klyx.Console.Tty.{Line, ReadResult, put_key, read_round, read_loop, tty_read, is_eagain}
use klyx.Console.Steady.{put_key-SameKeys}

-- A read with a key that waits.
con_read-pops :
    (c : Console) (td : ℕ)
    → c.current_tty_displ ≡ td
    → (c.input td).size ≢ 0
    → con_read c td ≡ (
      scan_code_char (pop_from (c.input td)).0,
      record c { input = update c.input td (pop_from (c.input td)).1 },
    )
unfolding con_read pop_scancode
con_read-pops c td e ne = rw (e, ==_refl td, ==_ne (c.input td).size 0 ne) refl

-- One round that takes a key.
record Round (td : ℕ) (b : InputBuf) (res : ℤ) (l : Line) : Type 0 where
  display : l.console.current_tty_displ ≡ td
  input : l.console.input td ≡ (pop_from b).1
  ends : res ≡ pos b'\n' → l.end_of_loop ≡ true

put_key-newline :
    (td count ch : ℕ) (l : Line) → ch ≡ b'\n' → (put_key td count ch l).end_of_loop ≡ true
unfolding put_key
put_key-newline td count ch l e = rw e refl

module _ (td count : ℕ) where
  read_round-Round :
      (l : Line)
      → l.console.current_tty_displ ≡ td
      → (l.console.input td).size ≢ 0
      → Round td
          (l.console.input td)
          (scan_code_char (pop_from (l.console.input td)).0)
          (read_round td count l)
  unfolding read_round
  read_round-Round l e ne =
      subst
        (λ (r : ℤ × Console).
          Round td (l.console.input td) (scan_code_char (pop_from (l.console.input td)).0) (
            if is_eagain (r.1).errno then record l { console = r.1 } else elim r.0 [
              | pos ch ↦ put_key td count ch (record l { console = r.1 })
              | negsuc n ↦ record l { console = r.1 }
            ]))
        (sym (con_read-pops (record (l.console) { errno = eno }) td e ne))
        (go (scan_code_char (pop_from (l.console.input td)).0))
    where
      popped : Line
      popped = record l {
        console = record (l.console) {
          errno = eno;
          input = update (l.console).input td (pop_from (l.console.input td)).1;
        };
      }

      taken : (popped.console).input td ≡ (pop_from (l.console.input td)).1
      taken = update_self (l.console).input td (pop_from (l.console.input td)).1

      go :
          (res : ℤ)
          → Round td
              (l.console.input td)
              res
              (elim res [ pos ch ↦ put_key td count ch popped | negsuc n ↦ popped ])
      go (pos ch) =
          let keys = put_key-SameKeys td count ch popped in
          record {
            display = keys.display ∙ e;
            input = ap (λ f. f td) keys.input ∙ taken;
            ends = λ line. put_key-newline td count ch popped cc;
          }
      go (negsuc n) = record { display = e; input = taken; ends = λ line. cc }

-- An end of line is among the keys.
abbrev pub HasEnter : List ℕ → Type 0
HasEnter [] = ⊥
HasEnter (sc ∷ codes) = (scan_code_char sc ≡ pos b'\n') ⊎ HasEnter codes

-- Rounds before which nothing comes in from the keyboard.
abbrev pub still : ℕ → List (List Scan)
still n = replicate n []

HasEnter-some : (b : InputBuf) → HasEnter (waiting b) → b.size ≢ 0
HasEnter-some b keys z =
    subst (λ n. HasEnter (window input_buf_cap b.scancode b.read_head n)) z keys

one_less : (b : InputBuf) → (pop_from b).1.size ≡ b.size - 1
unfolding pop_from
one_less b = refl

module _ (td count : ℕ) where
  -- The loop ends within as many rounds as keys wait.
  read_loop-ends :
      (n : ℕ) (l : Line)
      → l.console.current_tty_displ ≡ td
      → IsRing (l.console.input td)
      → HasEnter (waiting (l.console.input td))
      → (l.console.input td).size ≤ n
      → (r : Line × List (List Scan)) × (read_loop td count (still n) l ≡ some r)
  unfolding read_loop int_keyboards
  read_loop-ends zero l e ring keys few =
      absurd (omega (arith, HasEnter-some (l.console.input td) keys))
  read_loop-ends (suc n) l e ring keys few =
      go (read_round td count l) (read_round-Round td count l e some_key)
        (subst HasEnter (pop_from-waiting b some_key) keys)
        (read_loop-ends n (read_round td count l))
    where
      b : InputBuf
      b = l.console.input td

      true-false : true ≡ false → ⊥
      true-false h = cc

      some_key : b.size ≢ 0
      some_key = HasEnter-some b keys

      go :
          (l1 : Line)
          → Round td b (scan_code_char (pop_from b).0) l1
          → (scan_code_char (pop_from b).0 ≡ pos b'\n') ⊎ HasEnter (waiting (pop_from b).1)
          → (l1.console.current_tty_displ ≡ td
              → IsRing (l1.console.input td)
              → HasEnter (waiting (l1.console.input td))
              → (l1.console.input td).size ≤ n
              → (r : Line × List (List Scan)) × (read_loop td count (still n) l1 ≡ some r))
          → (r : Line × List (List Scan)) × (elim l1.end_of_loop [
            | true ↦ some (l1, still n)
            | false ↦ read_loop td count (still n) l1
          ]
              ≡ some r)
      go l1 round next ih = elim (Bool-cases l1.end_of_loop) [
        | inl ends ↦ rw ends ((l1, still n), refl)
        | inr on ↦ rw on (elim next [
          | inl line ↦ absurd (true-false (sym (round.ends line) ∙ on))
          | inr later ↦
              ih round.display (subst IsRing (sym round.input) (pop_from-IsRing b ring some_key))
                (subst (λ u. HasEnter (waiting u)) (sym round.input) later)
                (subst (λ u. u.size ≤ n) (sym round.input) (omega (arith, one_less b, few)))
        ])
      ]

-- A tty_read on the displayed console returns, within as many rounds as keys wait, if one of the
-- keys that wait is an end of line, the ring is valid and the console can be read.
pub tty_read-returns :
    (c : Console) (td : ℕ) (buf : ℕ → ℕ) (count : ℕ)
    → td < ttys_cap
    → (c.ttys td).read ≡ some con
    → c.current_tty_displ ≡ td
    → IsRing (c.input td)
    → HasEnter (waiting (c.input td))
    → (r : ReadResult) × (tty_read c td buf count (still (c.input td).size) ≡ some r)
unfolding tty_read
tty_read-returns c td buf count lt dev e ring keys =
    let (r, ends) =
      read_loop-ends td count (c.input td).size
        (record { text_cur = 0; buf = buf; end_of_loop = false; console = c }) e ring keys
        (omega arith) in
    (
      record { count = (r.0).text_cur; buf = (r.0).buf; console = (r.0).console; rest = r.1 },
      rw (lt→leb ttys_cap td lt, dev, ends) refl,
    )
