-- ===== src/Emulator/Partial.antt =====
-- Registers by name in kernel/i386_emulator.c: what a write leaves, and what a read then gives.
use klyx.Prelude.{ℕ, ◌+◌, ◌*◌, ◌/◌, ◌%◌, ◌^◌, ◌<◌, ◌≡◌, ◌∙◌, ap, ap₂, bit_and, bit_or, arith}
use klyx.Prelude.Bits.{
  bit_and-zero, bit_or-zero, zero-bit_or, bit_and-fields, bit_or-fields, bit_and-mod, bit_or-below,
}
use klyx.Emulator.Reg.{put_low16, put_low8, put_high8, low16, low8, high8}

low16-mod : (x : ℕ) → low16 x ≡ x % 2 ^ 16
unfolding low16
low16-mod x = bit_and-mod 16 x

low8-mod : (x : ℕ) → low8 x ≡ x % 2 ^ 8
unfolding low8
low8-mod x = bit_and-mod 8 x

high8-mod : (x : ℕ) → high8 x ≡ x % 2 ^ 16 / 2 ^ 8
unfolding high8
high8-mod x = ap (λ y. y / 2 ^ 8) (bit_and-mod 16 x)

-- A number by its upper and its lower bits.
parts16 : (x : ℕ) → x ≡ x / 2 ^ 16 * 2 ^ 16 + x % 2 ^ 16
parts16 x = omega arith

parts8 : (x : ℕ) → x ≡ x / 2 ^ 8 * 2 ^ 8 + x % 2 ^ 8
parts8 x = omega arith

-- `x & 0xFFFF0000`, `x & 0xFFFFFF00` and `x & 0x0000FF00`.
upper16 : (x : ℕ) → bit_and x 0xFFFF0000 ≡ x / 2 ^ 16 % 2 ^ 16 * 2 ^ 16
upper16 x =
    ap (λ y. bit_and y 0xFFFF0000) (parts16 x)
    ∙ bit_and-fields 16 (x / 2 ^ 16) (x % 2 ^ 16) 0xFFFF 0 (omega arith) (omega arith)
    ∙ field (bit_and-mod 16 (x / 2 ^ 16)) (bit_and-zero (x % 2 ^ 16))
  where
    field : {a b c : ℕ} → a ≡ c → b ≡ 0 → a * 2 ^ 16 + b ≡ c * 2 ^ 16
    field e z = omega arith

upper8 : (x m : ℕ) → bit_and x (m * 2 ^ 8 + 0) ≡ bit_and (x / 2 ^ 8) m * 2 ^ 8
upper8 x m =
    ap (λ y. bit_and y (m * 2 ^ 8 + 0)) (parts8 x)
    ∙ bit_and-fields 8 (x / 2 ^ 8) (x % 2 ^ 8) m 0 (omega arith) (omega arith)
    ∙ field (bit_and (x / 2 ^ 8) m) (bit_and-zero (x % 2 ^ 8))
  where
    field : (a : ℕ) {b : ℕ} → b ≡ 0 → a * 2 ^ 8 + b ≡ a * 2 ^ 8
    field a z = omega arith

-- A 16-bit write: the upper half of the register stays.
pub put_low16-parts : (old v : ℕ) → put_low16 old v ≡ old / 2 ^ 16 % 2 ^ 16 * 2 ^ 16 + v % 2 ^ 16
unfolding put_low16
put_low16-parts old v =
    let upper = old / 2 ^ 16 % 2 ^ 16 in
    ap₂ bit_or (upper16 old ∙ end_zero (upper * 2 ^ 16))
      (bit_and-mod 16 v ∙ start_zero (v % 2 ^ 16))
    ∙ bit_or-fields 16 upper 0 0 (v % 2 ^ 16) (omega arith) (omega arith)
    ∙ ap₂ (λ x y. x * 2 ^ 16 + y) (bit_or-zero upper) (zero-bit_or (v % 2 ^ 16))
  where
    end_zero : (x : ℕ) → x ≡ x + 0
    end_zero x = omega arith

    start_zero : (x : ℕ) → x ≡ 0 * 2 ^ 16 + x
    start_zero x = omega arith

-- The write of AL: the low byte is 0.
put_low8-parts :
    (old v : ℕ)
    → put_low8 old v
      ≡ bit_or (bit_and (old / 2 ^ 8) 0xFFFFFF) (bit_and (v / 2 ^ 8) 0xFF) * 2 ^ 8 + 0
unfolding put_low8
put_low8-parts old v =
    ap₂ bit_or (upper8 old 0xFFFFFF ∙ end_zero _) (upper8 v 0xFF ∙ end_zero _)
    ∙ bit_or-fields 8 (bit_and (old / 2 ^ 8) 0xFFFFFF) 0 (bit_and (v / 2 ^ 8) 0xFF) 0 (omega arith)
        (omega arith)
  where
    end_zero : (x : ℕ) → x ≡ x + 0
    end_zero x = omega arith

-- The write of AH: the second byte is 0, and the value is mixed into the low byte.
put_high8-parts :
    (old v : ℕ)
    → put_high8 old v ≡ old / 2 ^ 16 % 2 ^ 16 * 2 ^ 16 + bit_or (old % 2 ^ 16 % 2 ^ 8) (v % 2 ^ 8)
unfolding put_high8
put_high8-parts old v =
    let upper = old / 2 ^ 16 % 2 ^ 16 in
    ap₂ bit_or
      (ap (λ y. bit_and y 0xFFFF00FF) (parts16 old)
        ∙ bit_and-fields 16 (old / 2 ^ 16) (old % 2 ^ 16) 0xFFFF 0xFF (omega arith) (omega arith)
        ∙ ap₂ (λ x y. x * 2 ^ 16 + y) (bit_and-mod 16 (old / 2 ^ 16))
            (bit_and-mod 8 (old % 2 ^ 16)))
      (bit_and-mod 8 v ∙ start_zero (v % 2 ^ 8))
    ∙ bit_or-fields 16 upper (old % 2 ^ 16 % 2 ^ 8) 0 (v % 2 ^ 8) (omega arith) (omega arith)
    ∙ ap (λ x. x * 2 ^ 16 + bit_or (old % 2 ^ 16 % 2 ^ 8) (v % 2 ^ 8)) (bit_or-zero upper)
  where
    start_zero : (x : ℕ) → x ≡ 0 * 2 ^ 16 + x
    start_zero x = omega arith

pub low16-put_low16 : (old v : ℕ) → low16 (put_low16 old v) ≡ v % 2 ^ 16
low16-put_low16 old v =
    low16-mod (put_low16 old v)
    ∙ ap (λ x. x % 2 ^ 16) (put_low16-parts old v)
    ∙ lower (old / 2 ^ 16 % 2 ^ 16) (v % 2 ^ 16) (omega arith)
  where
    lower : (x y : ℕ) → y < 2 ^ 16 → (x * 2 ^ 16 + y) % 2 ^ 16 ≡ y
    lower x y lt = omega arith

pub low8-put_low8 : (old v : ℕ) → low8 (put_low8 old v) ≡ 0
low8-put_low8 old v =
    low8-mod (put_low8 old v)
    ∙ ap (λ x. x % 2 ^ 8) (put_low8-parts old v)
    ∙ lower (bit_or (bit_and (old / 2 ^ 8) 0xFFFFFF) (bit_and (v / 2 ^ 8) 0xFF))
  where
    lower : (x : ℕ) → (x * 2 ^ 8 + 0) % 2 ^ 8 ≡ 0
    lower x = omega arith

pub high8-put_high8 : (old v : ℕ) → high8 (put_high8 old v) ≡ 0
high8-put_high8 old v =
    high8-mod (put_high8 old v)
    ∙ ap (λ x. x % 2 ^ 16 / 2 ^ 8) (put_high8-parts old v)
    ∙ lower (old / 2 ^ 16 % 2 ^ 16) (bit_or (old % 2 ^ 16 % 2 ^ 8) (v % 2 ^ 8))
        (bit_or-below 8 (old % 2 ^ 16 % 2 ^ 8) (v % 2 ^ 8) (omega arith) (omega arith))
  where
    lower : (x y : ℕ) → y < 2 ^ 8 → (x * 2 ^ 16 + y) % 2 ^ 16 / 2 ^ 8 ≡ 0
    lower x y lt = omega arith
