-- ===== src/Console/Ring.antt =====
-- The ring of scan codes of a console as a bounded queue.
use klyx.Prelude.{
  ℕ, suc, ◌+◌, ◌-◌, ◌%◌, ◌<◌, ◌≡◌, ◌≢◌, refl, ap, true, false, List, [], ◌∷◌, ◌++◌, length,
  update_self, update_ne, ◌==◌, if◌then◌else◌, Bool-cases, inl, inr, arith,
}
use klyx.Prelude.Ring.{window, length-window, window-update}
use klyx.Console.State.{Console, InputBuf, eagain, input_buf_cap}
use klyx.Console.Input.{pop_from, pop_scancode, push_to, push_scancode}

pub record IsRing (b : InputBuf) : Type 0 where
  pub fits : b.size < input_buf_cap
  pub read_in : b.read_head < input_buf_cap
  pub write_at : b.write_head ≡ (b.read_head + b.size) % input_buf_cap

-- The scan codes that wait, oldest first.
abbrev pub waiting : InputBuf → List ℕ
waiting b = window input_buf_cap b.scancode b.read_head b.size

-- The ring of the displayed console.
abbrev pub displayed : Console → InputBuf
displayed c = c.input c.current_tty_displ

pub push_to-IsRing :
    (b : InputBuf) (ch : ℕ) → IsRing b → b.size ≢ input_buf_cap - 1 → IsRing (push_to b ch)
unfolding push_to
push_to-IsRing b ch r room = omega arith

push_to-waiting :
    (b : InputBuf) (ch : ℕ)
    → IsRing b
    → b.size ≢ input_buf_cap - 1
    → waiting (push_to b ch) ≡ waiting b ++ (ch ∷ [])
unfolding push_to
push_to-waiting b ch r room =
    let one : b.size + 1 ≡ suc b.size = omega arith in
    rw one (
      window-update input_buf_cap b.scancode ch b.read_head b.size b.write_head r.read_in
        (omega arith) r.write_at)

pub pop_from-IsRing : (b : InputBuf) → IsRing b → b.size ≢ 0 → IsRing (pop_from b).1
unfolding pop_from
pop_from-IsRing b r some = omega arith

pub pop_from-waiting :
    (b : InputBuf) → b.size ≢ 0 → waiting b ≡ (pop_from b).0 ∷ waiting (pop_from b).1
unfolding pop_from
pop_from-waiting b some =
    let one : b.size ≡ suc (b.size - 1) = omega arith in
    ap (window input_buf_cap b.scancode b.read_head) one

-- How a call may leave the consoles: the rings of the others as they were, and its own valid.
pub record Took (c c' : Console) : Type 0 where
  pub valid : IsRing (displayed c')
  pub others : (j : ℕ) → j ≢ c.current_tty_displ → c'.input j ≡ c.input j

-- If the ring of the displayed console is valid, push_scancode puts the key at the end of its
-- queue and returns true, or, if 1023 keys wait, returns false and leaves the queue; the ring
-- stays valid, and those of the other consoles are as they were.
pub push_scancode-waiting :
    (c : Console) (ch : ℕ)
    → IsRing (displayed c)
    → let (ok, c') = push_scancode c ch in
      (ok ≡ (if length (waiting (displayed c)) == input_buf_cap - 1 then false else true))
      × (waiting (displayed c')
          ≡ (if ok then waiting (displayed c) ++ (ch ∷ []) else waiting (displayed c)))
      × Took c c'
unfolding push_scancode
push_scancode-waiting c ch r =
    rw (length-window input_buf_cap b.scancode b.read_head b.size)
      (elim (Bool-cases (b.size == input_buf_cap - 1)) [
        | inl full ↦ rw full (refl, refl, record { valid = r; others = λ j ne. refl })
        | inr room ↦
            let ne : b.size ≢ input_buf_cap - 1 = ground arith in
            rw room (
              refl,
              rw (update_self c.input c.current_tty_displ (push_to b ch))
                  (push_to-waiting b ch r ne),
              record {
                valid =
                    rw (update_self c.input c.current_tty_displ (push_to b ch))
                      (push_to-IsRing b ch r ne);
                others = λ j other. update_ne c.input c.current_tty_displ (push_to b ch) j other;
              },
            )
      ])
  where
    b : InputBuf
    b = displayed c

-- What taking a key does, by the keys that wait.
abbrev pub Popped : List ℕ → Console → ℕ × Console → Type 0
Popped [] c (sc, c') = (sc ≡ 0) × (c' ≡ record c { errno = eagain })
Popped (first ∷ rest) c (sc, c') = (sc ≡ first) × (waiting (displayed c') ≡ rest) × Took c c'

-- If the ring of the displayed console is valid, pop_scancode takes the oldest key from its queue,
-- the ring stays valid and those of the other consoles are as they were; or, if no key waits, it
-- returns 0, sets EAGAIN and changes nothing else.
pub pop_scancode-waiting :
    (c : Console) → IsRing (displayed c) → Popped (waiting (displayed c)) c (pop_scancode c)
unfolding pop_scancode
pop_scancode-waiting c r = elim (Bool-cases (b.size == 0)) [
  | inl empty ↦ let none_left : b.size ≡ 0 = ground arith in rw (empty, none_left) (refl, refl)
  | inr some ↦
      let ne : b.size ≢ 0 = ground arith in
      rw (some, pop_from-waiting b ne)
        (
          refl,
          ap (λ u. waiting u) (update_self c.input c.current_tty_displ (pop_from b).1),
          record {
            valid =
                rw (update_self c.input c.current_tty_displ (pop_from b).1)
                  (pop_from-IsRing b r ne);
            others = λ j other. update_ne c.input c.current_tty_displ (pop_from b).1 j other;
          },
        )
]
  where
    b : InputBuf
    b = displayed c
