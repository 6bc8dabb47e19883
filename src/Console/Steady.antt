-- ===== src/Console/Steady.antt =====
-- Printing and typing leave the keyboard side of the consoles alone.
use klyx.Prelude.{
  ℕ, ◌≡◌, refl, ◌∙◌, Bool, true, false, List, [], ◌∷◌, Option, none, some, leb, ltb, ◌==◌,
  if◌then◌else◌,
}
use klyx.Console.State.{Console, Writer}
use klyx.Console.Output.{
  put_char, wrap_screen, put_chars, con_putstr, con_putstr_rev, straight, mirrored, is_control,
  cells,
}
use klyx.Console.Tty.{Line, write_by, echo, put_key}

-- A change that leaves the keyboard side alone.
pub record SameKeys (c c' : Console) : Type 0 where
  pub input : c'.input ≡ c.input
  pub display : c'.current_tty_displ ≡ c.current_tty_displ

SameKeys-trans : {a b c : Console} → SameKeys a b → SameKeys b c → SameKeys a c
SameKeys-trans p q = record { input = q.input ∙ p.input; display = q.display ∙ p.display }

unchanged : (c : Console) → SameKeys c c
unchanged c = record { input = refl; display = refl }

SameKeys-if :
    (c : Console) (b : Bool) (x y : Console)
    → SameKeys c x
    → SameKeys c y
    → SameKeys c (if b then x else y)
SameKeys-if c true x y p q = p
SameKeys-if c false x y p q = q

module _ (place : ℕ → ℕ) (tty : ℕ) where
  put_chars-SameKeys : (c : Console) (buf : List ℕ) → SameKeys c (put_chars place tty c buf)
  unfolding put_chars put_char wrap_screen
  put_chars-SameKeys c [] = unchanged c
  put_chars-SameKeys c (ch ∷ buf) =
      let typed = put_char place tty c ch in
      SameKeys-trans
        (SameKeys-if c (is_control ch) _ _ (record { input = refl; display = refl })
          (record { input = refl; display = refl }))
        (SameKeys-trans
          (SameKeys-if typed (leb cells (typed.con_cursors tty)) _ _
            (record { input = refl; display = refl }) (unchanged typed))
          (put_chars-SameKeys (wrap_screen place tty typed) buf))

pub con_putstr-SameKeys : (c : Console) (td : ℕ) (buf : List ℕ) → SameKeys c (con_putstr c td buf).1
unfolding con_putstr
con_putstr-SameKeys c td buf = put_chars-SameKeys straight td c buf

pub con_putstr_rev-SameKeys :
    (c : Console) (td : ℕ) (buf : List ℕ) → SameKeys c (con_putstr_rev c td buf).1
unfolding con_putstr_rev
con_putstr_rev-SameKeys c td buf = put_chars-SameKeys mirrored td c buf

echo-SameKeys : (td : ℕ) (buf : List ℕ) (c : Console) → SameKeys c (echo td buf c)
unfolding echo write_by
echo-SameKeys td buf c = go ((c.ttys td).write)
  where
    go : (o : Option Writer) → SameKeys c (elim o [ none ↦ c | some w ↦ (write_by w c td buf).1 ])
    go none = unchanged c
    go (some Writer.con_putstr) = con_putstr-SameKeys c td buf
    go (some Writer.con_putstr_rev) = con_putstr_rev-SameKeys c td buf

pub put_key-SameKeys :
    (td count ch : ℕ) (l : Line) → SameKeys l.console (put_key td count ch l).console
unfolding put_key
put_key-SameKeys td count ch l = line-if (ch == b'\n') _ _ (echo-SameKeys td (ch ∷ []) l.console) (
    line-if (ch == 0) _ _ (unchanged l.console) (
      line-if (ch == 0x08) _ _
        (line-if (l.text_cur == 0) _ _ (unchanged l.console)
          (echo-SameKeys td (0x08 ∷ b' ' ∷ 0x08 ∷ []) l.console))
        (line-if (ltb l.text_cur count) _ _ (echo-SameKeys td (ch ∷ []) l.console)
          (unchanged l.console))))
  where
    line-if :
        (b : Bool) (x y : Line)
        → SameKeys l.console x.console
        → SameKeys l.console y.console
        → SameKeys l.console (if b then x else y).console
    line-if true x y p q = p
    line-if false x y p q = q
