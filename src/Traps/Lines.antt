-- ===== src/Traps/Lines.antt =====
-- The commands of the debugger console that its lines can reach.
use klyx.Prelude.{ℕ, ◌≡◌, ◌∙◌, refl, false, List, [], ◌∷◌, ◌==◌}
use klyx.Prelude.Int.{is_zero-sub_ℕ}
use klyx.Machine.Memory.{strcmp}
use klyx.Machine.Compare.{memcmp-first}
use klyx.Machine.Regs.{IntRegs}
use klyx.Traps.Debug.{parse_command, apply_command, has_prefix, is_line, argument, literal}

-- A test for a prefix looks at the first character alone.
has_prefix-first :
    (buf : ℕ → ℕ) (lit : List ℕ) (n : ℕ) → has_prefix buf lit n ≡ (buf 0 == literal lit 0)
unfolding has_prefix
has_prefix-first buf lit n = memcmp-first buf 0 (literal lit) 0 n

-- A line that starts with another character is not the word.
is_line-first :
    (buf : ℕ → ℕ) (c : ℕ) (lit : List ℕ)
    → buf 0 ≡ b's'
    → (b's' == c) ≡ false
    → is_line buf (c ∷ lit) ≡ false
unfolding is_line strcmp
is_line-first buf c lit h ne = rw (h, ne) (is_zero-sub_ℕ b's' c ∙ ne)

-- Every line of the debugger that starts with an s sets esi to the number from its seventh
-- character on, whichever register its command names, and changes no other register.
pub parse_command-set :
    (buf : ℕ → ℕ) (regs : IntRegs)
    → buf 0 ≡ b's'
    → apply_command (parse_command buf) regs ≡ record regs { esi = argument buf 6 }
unfolding parse_command apply_command
parse_command-set buf regs h =
    rw
      (
        h,
        is_line-first buf b'h' (b'e' ∷ b'l' ∷ b'p' ∷ []) h refl,
        is_line-first buf b'c' (b'o' ∷ b'n' ∷ b't' ∷ []) h refl,
        is_line-first buf b'r' (b'e' ∷ b'g' ∷ b's' ∷ []) h refl,
        has_prefix-first buf (b'p' ∷ b'e' ∷ b'e' ∷ b'k' ∷ []) 4,
        has_prefix-first buf (b's' ∷ b'e' ∷ b't' ∷ b's' ∷ b'i' ∷ []) 5,
        h,
      )
      refl
