-- ===== src/Console/Read.antt =====
-- `tty_read`: the line that it leaves in the buffer.
use klyx.Prelude.{
  ℕ, ◌+◌, ◌-◌, ◌≤◌, ◌<◌, ◌≡◌, ◌≢◌, refl, ◌∙◌, Bool, true, false, List, [], ◌∷◌, Option, none, some,
  update, update_self, update_ne, ltb, leb, ◌==◌, if◌then◌else◌, arith, Bool-cases, inl, inr,
}
use klyx.Prelude.Int.{ℤ, pos, negsuc}
use native.Mathlib.Decide.{ℕ_discrete}
use klyx.Console.State.{Console, Errno, Device, eno, efault, enosys, con, ttys_cap}
use klyx.Console.Input.{con_read}
use klyx.Console.Keyboard.{Scan, int_keyboards}
use klyx.Console.Tty.{
  Line, ReadResult, put_key, read_round, read_loop, tty_read, is_eagain, with_errno,
}

-- A character of a line: no end of line, no backspace, no zero.
abbrev pub IsTyped : ℕ → Type 0
IsTyped ch = (ch ≢ b'\n') × (ch ≢ 0) × (ch ≢ 0x08)

-- A line of `n` characters within `count` bytes, in a buffer that held `old` before.
pub record IsLine (count : ℕ) (old : ℕ → ℕ) (n : ℕ) (buf : ℕ → ℕ) : Type 0 where
  pub fits : n ≤ count
  pub typed : (i : ℕ) → i < n → IsTyped (buf i)
  pub outside : (i : ℕ) → count ≤ i → buf i ≡ old i

module _ (td count : ℕ) (old : ℕ → ℕ) where
  -- A backspace.
  shorter :
      (n : ℕ) (buf : ℕ → ℕ)
      → n ≢ 0
      → IsLine count old n buf
      → IsLine count old (n - 1) (update buf (n - 1) 0)
  shorter n buf ne l = record {
    fits = omega arith;
    typed = λ i lt. rw (update_ne buf (n - 1) 0 i (omega arith)) (l.typed i (omega arith));
    outside = λ i le. update_ne buf (n - 1) 0 i (omega arith) ∙ l.outside i le;
  }

  -- A character at the end.
  longer :
      (n ch : ℕ) (buf : ℕ → ℕ)
      → IsTyped ch
      → n < count
      → IsLine count old n buf
      → IsLine count old (n + 1) (update buf n ch)
  longer n ch buf key room l = record {
    fits = omega arith;
    typed = λ i lt. elim (ℕ_discrete i n) [
      | yes here ↦ rw (here, update_self buf n ch) key
      | no before ↦ rw (update_ne buf n ch i before) (l.typed i (omega arith))
    ];
    outside = λ i le. update_ne buf n ch i (omega arith) ∙ l.outside i le;
  }

  -- What is kept of the locals.
  abbrev Keeps : Line → Type 0
  Keeps l = IsLine count old l.text_cur l.buf

  Keeps-if :
      (b : Bool) (x y : Line)
      → (b ≡ true → Keeps x)
      → (b ≡ false → Keeps y)
      → Keeps (if b then x else y)
  Keeps-if true x y p q = p refl
  Keeps-if false x y p q = q refl

  put_key-Keeps : (ch : ℕ) (l : Line) → Keeps l → Keeps (put_key td count ch l)
  unfolding put_key
  put_key-Keeps ch l k =
      Keeps-if (ch == b'\n') _ _ (λ _. k)
        (λ line.
          Keeps-if (ch == 0) _ _ (λ _. k)
            (λ zero.
              Keeps-if (ch == 0x08) _ _
                (λ _.
                  Keeps-if (l.text_cur == 0) _ _ (λ _. k)
                    (λ some. shorter l.text_cur l.buf (ground arith) k))
                (λ back.
                  Keeps-if (ltb l.text_cur count) _ _
                    (λ room.
                      longer l.text_cur ch l.buf (ground arith, ground arith, ground arith)
                        (ground arith) k)
                    (λ _. k))))

  read_round-Keeps : (l : Line) → Keeps l → Keeps (read_round td count l)
  unfolding read_round
  read_round-Keeps l k = go (con_read (record (l.console) { errno = eno }) td)
    where
      go :
          (r : ℤ × Console)
          → Keeps (
              if is_eagain (r.1).errno then record l { console = r.1 } else elim r.0 [
                | pos ch ↦ put_key td count ch (record l { console = r.1 })
                | negsuc n ↦ record l { console = r.1 }
              ])
      go (pos ch, c) =
          Keeps-if (is_eagain c.errno) _ _ (λ _. k)
            (λ _. put_key-Keeps ch (record l { console = c }) k)
      go (negsuc n, c) = Keeps-if (is_eagain c.errno) _ _ (λ _. k) (λ _. k)

  read_loop-Keeps :
      (rounds : List (List Scan)) (l : Line) {l' : Line} {rest : List (List Scan)}
      → Keeps l
      → read_loop td count rounds l ≡ some (l', rest)
      → Keeps l'
  unfolding read_loop
  read_loop-Keeps [] l k e = cc
  read_loop-Keeps (scans ∷ rounds) l {l'} {rest} k e =
      go (read_round td count (record l { console = int_keyboards scans l.console }))
        (read_round-Keeps (record l { console = int_keyboards scans l.console }) k)
        (λ l1. read_loop-Keeps rounds l1) e
    where
      go :
          (l1 : Line)
          → Keeps l1
          → ((l2 : Line) → Keeps l2 → read_loop td count rounds l2 ≡ some (l', rest) → Keeps l')
          → elim l1.end_of_loop [ true ↦ some (l1, rounds) | false ↦ read_loop td count rounds l1 ]
            ≡ some (l', rest)
          → Keeps l'
      go l1 k1 ih f = elim (Bool-cases l1.end_of_loop) [
        | inl ends ↦
            let last : ◌≡◌ {A = Option (Line × List (List Scan))} (some (l1, rounds))
                (some (l', rest)) =
              rw ends at f in
            let same : l' ≡ l1 = cc in rw same k1
        | inr on ↦ ih l1 k1 (rw on at f)
      ]

-- A tty_read that returns gives the number of characters of a line that fits into the buffer: none
-- of them is an end of line, a backspace or zero, and no byte behind the count of the buffer is
-- written.
pub tty_read-IsLine :
    (c : Console) (td : ℕ) (buf : ℕ → ℕ) (count : ℕ) (rounds : List (List Scan)) {r : ReadResult}
    → tty_read c td buf count rounds ≡ some r
    → IsLine count buf r.count r.buf
unfolding tty_read
tty_read-IsLine c td buf count rounds {r} e =
    go (leb ttys_cap td) ((c.ttys td).read) (read_loop td count rounds start) refl e
  where
    start : Line
    start = record { text_cur = 0; buf = buf; end_of_loop = false; console = c }

    no_line : IsLine count buf 0 buf
    no_line = record {
      fits = omega arith;
      typed = λ i lt. absurd (omega arith);
      outside = λ i le. refl;
    }

    failed : (err : Errno) → ReadResult
    failed err = record { count = 0; buf = buf; console = with_errno err c; rest = rounds }

    go :
        (b : Bool) (dev : Option Device) (o : Option (Line × List (List Scan)))
        → read_loop td count rounds start ≡ o
        → (if b then some (failed efault) else elim dev [
          | none ↦ some (failed enosys)
          | some con ↦ elim o [
            | none ↦ none
            | some (l, rest) ↦
                some (record { count = l.text_cur; buf = l.buf; console = l.console; rest = rest })
          ]
        ])
          ≡ some r
        → IsLine count buf r.count r.buf
    go true dev o ends f = let same : r ≡ failed efault = cc in rw same no_line
    go false none o ends f = let same : r ≡ failed enosys = cc in rw same no_line
    go false (some con) none ends f = cc
    go false (some con) (some (l, rest)) ends f =
        let same : r
            ≡ record { count = l.text_cur; buf = l.buf; console = l.console; rest = rest } =
          cc in
        rw same (read_loop-Keeps td count buf rounds start no_line ends)
