-- ===== src/Console/Sound.antt =====
-- The state of the consoles that their operations keep: rings, cursors and the screen.
use klyx.Prelude.{
  ℕ, ◌<◌, ◌≡◌, refl, sym, subst, Bool, true, false, List, [], ◌∷◌, Option, none, some, leb, leb→lt,
  if◌then◌else◌,
}
use native.Mathlib.Decide.{ℕ_discrete}
use klyx.Console.State.{Console, Writer, Errno, eno, enosys, efault, ttys_cap}
use klyx.Console.Ring.{IsRing}
use klyx.Console.Screen.{IsShown, IsOnScreen, Printed, con_putstr-Printed, con_putstr_rev-Printed}
use klyx.Console.Steady.{SameKeys, con_putstr-SameKeys, con_putstr_rev-SameKeys}
use klyx.Console.Tty.{write_by, with_errno, tty_write, con_putchar, echo}

pub record IsSound (c : Console) : Type 0 where
  pub rings : (j : ℕ) → IsRing (c.input j)
  pub cursors : (j : ℕ) → j < ttys_cap → IsOnScreen j c
  pub display : c.current_tty_displ < ttys_cap
  pub shown : IsShown c

-- `errno` does not matter.
pub with_errno-IsSound : (e : Errno) (c : Console) → IsSound c → IsSound (with_errno e c)
with_errno-IsSound e c s = record {
  rings = s.rings;
  cursors = s.cursors;
  display = s.display;
  shown = s.shown;
}

Printed-IsSound :
    (tty : ℕ) {c c' : Console}
    → IsSound c
    → IsOnScreen tty c'
    → Printed tty c c'
    → SameKeys c c'
    → IsSound c'
Printed-IsSound tty s on p keys = record {
  rings = λ j. subst (λ f. IsRing (f j)) (sym keys.input) (s.rings j);
  cursors = λ j lt. elim (ℕ_discrete j tty) [
    | yes same ↦ rw same on
    | no ne ↦ rw (p.cursors j ne) (s.cursors j lt)
  ];
  display = rw keys.display s.display;
  shown = p.shown s.shown;
}

write_by-IsSound :
    (w : Writer) (c : Console) (td : ℕ) (buf : List ℕ)
    → td < ttys_cap
    → IsSound c
    → IsSound (write_by w c td buf).1
unfolding write_by
write_by-IsSound Writer.con_putstr c td buf lt s =
    let (on, p) = con_putstr-Printed c td buf (s.cursors td lt) in
    Printed-IsSound td s on p (con_putstr-SameKeys c td buf)
write_by-IsSound Writer.con_putstr_rev c td buf lt s =
    let (on, p) = con_putstr_rev-Printed c td buf (s.cursors td lt) in
    Printed-IsSound td s on p (con_putstr_rev-SameKeys c td buf)

pub tty_write-IsSound :
    (c : Console) (td : ℕ) (buf : List ℕ) → IsSound c → IsSound (tty_write c td buf).1
unfolding tty_write
tty_write-IsSound c td buf s = go (leb ttys_cap td) (c.ttys td).write (leb→lt ttys_cap td)
  where
    go :
        (b : Bool) (o : Option Writer)
        → (b ≡ false → td < ttys_cap)
        → IsSound
            (if◌then◌else◌ {A = ℕ × Console} b
              (0, with_errno efault c)
              (elim o [
                | none ↦ (0, with_errno enosys c)
                | some w ↦ write_by w (with_errno eno c) td buf
              ])).1
    go true o lt = with_errno-IsSound efault c s
    go false none lt = with_errno-IsSound enosys c s
    go false (some w) lt =
        write_by-IsSound w (with_errno eno c) td buf (lt refl) (with_errno-IsSound eno c s)

pub con_putchar-IsSound : (tty ch : ℕ) (c : Console) → IsSound c → IsSound (con_putchar tty ch c)
unfolding con_putchar
con_putchar-IsSound tty ch c s =
    tty_write-IsSound c (if c.use_current_tty then c.current_tty_displ else tty) (ch ∷ []) s

pub echo-IsSound :
    (td : ℕ) (buf : List ℕ) (c : Console) → td < ttys_cap → IsSound c → IsSound (echo td buf c)
unfolding echo
echo-IsSound td buf c lt s = go ((c.ttys td).write)
  where
    go : (o : Option Writer) → IsSound (elim o [ none ↦ c | some w ↦ (write_by w c td buf).1 ])
    go none = s
    go (some w) = write_by-IsSound w c td buf lt s
