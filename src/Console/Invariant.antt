-- ===== src/Console/Invariant.antt =====
-- Reading and the keyboard, and the soundness of the consoles.
use klyx.Prelude.{
  ℕ, ◌-◌, ◌%◌, ◌<◌, ◌≡◌, refl, inl, inr, Bool, true, false, List, [], ◌∷◌, Option, none, some,
  update, update_all, get_or, lt→ltb, ◌==◌, leb, leb→lt, ltb, if◌then◌else◌, Bool-cases, arith,
}
use klyx.Prelude.Int.{ℤ, pos, negsuc, is_zero, eq_int}
use klyx.Console.State.{
  Console, Device, Errno, InputBuf, con, eno, enosys, efault, eagain, ttys_cap, input_buf_cap,
}
use klyx.Console.Keys.{scan_code_table_special, f1, f2, f3, f4}
use klyx.Console.Input.{pop_from, pop_scancode, push_to, push_scancode, con_read, con_handle_input}
use klyx.Console.Output.{cells}
use klyx.Console.Ring.{IsRing, displayed, pop_from-IsRing, push_to-IsRing}
use klyx.Console.Sound.{IsSound, with_errno-IsSound, echo-IsSound}
use klyx.Console.Keyboard.{Scan, copy_cells, show_tty, switch_tty, int_keyboard, int_keyboards}
use klyx.Console.Tty.{
  with_errno, Line, put_key, is_eagain, read_round, read_loop, ReadResult, tty_read,
}

IsSound-if : (b : Bool) (x y : Console) → IsSound x → IsSound y → IsSound (if b then x else y)
IsSound-if true x y p q = p
IsSound-if false x y p q = q

-- A write of one ring.
set_ring-IsSound :
    (c : Console) (i : ℕ) (b : InputBuf)
    → IsSound c
    → IsRing b
    → IsSound (record c { input = update c.input i b })
set_ring-IsSound c i b s r = record {
  rings = update_all (λ j u. IsRing u) c.input i b r s.rings;
  cursors = s.cursors;
  display = s.display;
  shown = s.shown;
}

set_keys-IsSound :
    (c : Console) (i : ℕ) (b : Bool)
    → IsSound c
    → IsSound (record c { keys_state = update c.keys_state i b })
set_keys-IsSound c i b s = record {
  rings = s.rings;
  cursors = s.cursors;
  display = s.display;
  shown = s.shown;
}

pop_scancode-IsSound : (c : Console) → IsSound c → IsSound (pop_scancode c).1
unfolding pop_scancode
pop_scancode-IsSound c s = elim (Bool-cases ((displayed c).size == 0)) [
  | inl empty ↦ rw empty (with_errno-IsSound eagain c s)
  | inr some_key ↦ rw some_key (
      set_ring-IsSound c c.current_tty_displ (pop_from (displayed c)).1 s
        (pop_from-IsRing (displayed c) (s.rings c.current_tty_displ) (ground arith)))
]

push_scancode-IsSound : (c : Console) (ch : ℕ) → IsSound c → IsSound (push_scancode c ch).1
unfolding push_scancode
push_scancode-IsSound c ch s = elim (Bool-cases ((displayed c).size == input_buf_cap - 1)) [
  | inl full ↦ rw full s
  | inr room ↦ rw room (
      set_ring-IsSound c c.current_tty_displ (push_to (displayed c) ch) s
        (push_to-IsRing (displayed c) ch (s.rings c.current_tty_displ) (ground arith)))
]

con_read-IsSound : (c : Console) (td : ℕ) → IsSound c → IsSound (con_read c td).1
unfolding con_read
con_read-IsSound c td s = elim (Bool-cases (td == c.current_tty_displ)) [
  | inl here ↦ rw here (pop_scancode-IsSound c s)
  | inr other ↦ rw other s
]

show_tty-IsSound : (n : ℕ) (c : Console) → n < ttys_cap → IsSound c → IsSound (show_tty n c)
unfolding show_tty copy_cells
show_tty-IsSound n c lt s = record {
  rings = s.rings;
  cursors = s.cursors;
  display = lt;
  shown = λ i below. rw (lt→ltb i cells below) refl;
}

switch_tty-IsSound : (ch : ℤ) (c : Console) → IsSound c → IsSound (switch_tty ch c)
unfolding switch_tty
switch_tty-IsSound ch c s = IsSound-if (eq_int ch f1) _ _ (show_tty-IsSound 0 c (omega arith) s) (
    IsSound-if (eq_int ch f2) _ _ (show_tty-IsSound 1 c (omega arith) s) (
      IsSound-if (eq_int ch f3) _ _ (show_tty-IsSound 2 c (omega arith) s)
        (IsSound-if (eq_int ch f4) _ _ (show_tty-IsSound 3 c (omega arith) s) s)))

con_handle_input-IsSound :
    (status code : ℕ) (c : Console) → IsSound c → IsSound (con_handle_input status code c).1
unfolding con_handle_input
con_handle_input-IsSound status code c s = result-if (status % 2 == 0) _ _ s (
    result-if (leb 128 code) _ _ (set_keys-IsSound c (code % 128) false s) (
      result-if (c.keys_state code) _ _ s (
        result-if (is_zero (get_or scan_code_table_special code (pos 0))) _ _
          (push_scancode-IsSound pressed code (set_keys-IsSound c code true s))
          (set_keys-IsSound c code true s))))
  where
    pressed : Console
    pressed = record c { keys_state = update c.keys_state code true }

    result-if :
        (b : Bool) (x y : ℤ × Console) → IsSound x.1 → IsSound y.1 → IsSound (if b then x else y).1
    result-if true x y p q = p
    result-if false x y p q = q

-- A keyboard interrupt keeps the consoles sound.
pub int_keyboard-IsSound : (scan : Scan) (c : Console) → IsSound c → IsSound (int_keyboard scan c)
unfolding int_keyboard
int_keyboard-IsSound scan c s =
    switch_tty-IsSound (con_handle_input scan.status scan.code c).0 _
      (con_handle_input-IsSound scan.status scan.code c s)

int_keyboards-IsSound :
    (scans : List Scan) (c : Console) → IsSound c → IsSound (int_keyboards scans c)
unfolding int_keyboards
int_keyboards-IsSound [] c s = s
int_keyboards-IsSound (scan ∷ scans) c s =
    int_keyboards-IsSound scans (int_keyboard scan c) (int_keyboard-IsSound scan c s)

module _ (td count : ℕ) (lt : td < ttys_cap) where
  put_key-IsSound :
      (ch : ℕ) (l : Line) → IsSound l.console → IsSound (put_key td count ch l).console
  unfolding put_key
  put_key-IsSound ch l s = line-if (ch == b'\n') _ _ (echo-IsSound td (ch ∷ []) l.console lt s) (
      line-if (ch == 0) _ _ s (
        line-if (ch == 0x08) _ _
          (line-if (l.text_cur == 0) _ _ s
            (echo-IsSound td (0x08 ∷ b' ' ∷ 0x08 ∷ []) l.console lt s))
          (line-if (ltb l.text_cur count) _ _ (echo-IsSound td (ch ∷ []) l.console lt s) s)))
    where
      line-if :
          (b : Bool) (x y : Line)
          → IsSound x.console
          → IsSound y.console
          → IsSound (if b then x else y).console
      line-if true x y p q = p
      line-if false x y p q = q

  read_round-IsSound : (l : Line) → IsSound l.console → IsSound (read_round td count l).console
  unfolding read_round
  read_round-IsSound l s =
      go (con_read (with_errno eno l.console) td)
        (con_read-IsSound (with_errno eno l.console) td (with_errno-IsSound eno l.console s))
    where
      line-if :
          (b : Bool) (x y : Line)
          → IsSound x.console
          → IsSound y.console
          → IsSound (if b then x else y).console
      line-if true x y p q = p
      line-if false x y p q = q

      go :
          (r : ℤ × Console)
          → IsSound r.1
          → IsSound
              (if◌then◌else◌ {A = Line}
                (is_eagain (r.1).errno)
                (record l { console = r.1 })
                (elim r.0 [
                  | pos ch ↦ put_key td count ch (record l { console = r.1 })
                  | negsuc n ↦ record l { console = r.1 }
                ])).console
      go (pos ch, c) sc =
          line-if (is_eagain c.errno) _ _ sc (put_key-IsSound ch (record l { console = c }) sc)
      go (negsuc n, c) sc = line-if (is_eagain c.errno) _ _ sc sc

  read_loop-IsSound :
      (rounds : List (List Scan)) (l : Line) {l' : Line} {rest : List (List Scan)}
      → IsSound l.console
      → read_loop td count rounds l ≡ some (l', rest)
      → IsSound l'.console
  unfolding read_loop
  read_loop-IsSound [] l s e = cc
  read_loop-IsSound (scans ∷ rounds) l {l'} {rest} s e =
      go (read_round td count heard)
        (read_round-IsSound heard (int_keyboards-IsSound scans l.console s))
        (λ l1. read_loop-IsSound rounds l1) e
    where
      heard : Line
      heard = record l { console = int_keyboards scans l.console }

      go :
          (l1 : Line)
          → IsSound l1.console
          → ((l2 : Line)
              → IsSound l2.console
              → read_loop td count rounds l2 ≡ some (l', rest)
              → IsSound l'.console)
          → elim l1.end_of_loop [ true ↦ some (l1, rounds) | false ↦ read_loop td count rounds l1 ]
            ≡ some (l', rest)
          → IsSound l'.console
      go l1 s1 ih f = elim (Bool-cases l1.end_of_loop) [
        | inl ends ↦
            let last : ◌≡◌ {A = Option (Line × List (List Scan))} (some (l1, rounds))
                (some (l', rest)) =
              rw ends at f in
            let same : l' ≡ l1 = cc in rw same s1
        | inr on ↦ ih l1 s1 (rw on at f)
      ]

-- A `tty_read` that returns leaves the consoles sound.
pub tty_read-IsSound :
    (c : Console) (td : ℕ) (buf : ℕ → ℕ) (count : ℕ) (rounds : List (List Scan)) {r : ReadResult}
    → IsSound c
    → tty_read c td buf count rounds ≡ some r
    → IsSound r.console
unfolding tty_read
tty_read-IsSound c td buf count rounds {r} s e =
    go (leb ttys_cap td) ((c.ttys td).read) (read_loop td count rounds start) (leb→lt ttys_cap td)
      refl e
  where
    start : Line
    start = record { text_cur = 0; buf = buf; end_of_loop = false; console = c }

    failed : (err : Errno) → ReadResult
    failed err = record { count = 0; buf = buf; console = with_errno err c; rest = rounds }

    go :
        (b : Bool) (dev : Option Device) (o : Option (Line × List (List Scan)))
        → (b ≡ false → td < ttys_cap)
        → read_loop td count rounds start ≡ o
        → (if b then some (failed efault) else elim dev [
          | none ↦ some (failed enosys)
          | some con ↦ elim o [
            | none ↦ none
            | some (l, rest) ↦
                some (record { count = l.text_cur; buf = l.buf; console = l.console; rest = rest })
          ]
        ])
          ≡ some r
        → IsSound r.console
    go true dev o lt ends f =
        let same : r ≡ failed efault = cc in rw same (with_errno-IsSound efault c s)
    go false none o lt ends f =
        let same : r ≡ failed enosys = cc in rw same (with_errno-IsSound enosys c s)
    go false (some con) none lt ends f = cc
    go false (some con) (some (l, rest)) lt ends f =
        let same : r
            ≡ record { count = l.text_cur; buf = l.buf; console = l.console; rest = rest } =
          cc in
        rw same (read_loop-IsSound td count (lt refl) rounds start s ends)
