-- ===== src/Console/Scroll.antt =====
-- What the two loops that scroll a screen make of it.
use klyx.Prelude.{
  ℕ, ◌+◌, ◌-◌, ◌≤◌, ◌<◌, ◌≡◌, ◌∙◌, sym, ap, inl, inr, ltb, ltb→lt, ltb→le, if◌then◌else◌,
  Bool-cases, arith,
}
use klyx.Machine.Memory.{memcpy, memset}
use klyx.Machine.Copies.{memset-outside, memset-inside, memcpy-down}
use klyx.Console.Output.{cells, columns, last_row, scroll}

-- A scroll moves every row but the first one up by one and clears the last row: for each of the
-- 2000 cells.
pub scroll-rows :
    (screen : ℕ → ℕ) (i : ℕ)
    → i < cells
    → scroll screen i ≡ (if ltb i last_row then screen (i + columns) else 0)
unfolding scroll
scroll-rows screen i lt = elim (Bool-cases (ltb i last_row)) [
  | inl above ↦
      let row : i < last_row = ltb→lt i last_row above in
      let start : 0 + i ≡ i = omega arith in
      let below : columns + i ≡ i + columns = omega arith in
      rw above (
        memset-outside (memcpy screen 0 columns last_row) last_row 0 columns i (inl row)
        ∙ ap (memcpy screen 0 columns last_row) (sym start)
        ∙ memcpy-down screen 0 columns last_row i (omega arith) row
        ∙ ap screen below)
  | inr last ↦
      let row : last_row ≤ i = ltb→le i last_row last in
      let place : last_row + (i - last_row) ≡ i = omega arith in
      rw last (
        ap (memset (memcpy screen 0 columns last_row) last_row 0 columns) (sym place)
        ∙ memset-inside (memcpy screen 0 columns last_row) last_row 0 columns (i - last_row)
            (omega arith))
]
