-- ===== src/Prelude/Bits.antt =====
-- `&` and `|` of numbers, as arithmetic: fields of bits, and masks.
use Prim.Native.Nat.{bitwise, digits, min, max, bit_and-bitwise, bit_or-bitwise}
use native.Mathlib.Numerals.{unary_clauses}
use native.Mathlib.Nat.{pow-suc, one-le-pow, mod-lt, div-add-mod}
use klyx.Prelude.{
  ℕ, zero, suc, ◌+◌, ◌*◌, ◌/◌, ◌%◌, ◌^◌, ◌≤◌, ◌<◌, ◌≡◌, ◌∙◌, refl, sym, subst, ap, ap₂, bit_and,
  bit_or, arith,
}

double : (a k : ℕ) → a * 2 ^ suc k ≡ 2 * (a * 2 ^ k)
double a k = omega (arith, ap (λ p. a * p) (pow-suc 2 k))

half : (k a r : ℕ) → (a * 2 ^ suc k + r) / 2 ≡ a * 2 ^ k + r / 2
half k a r = omega (arith, double a k)

parity : (k a r : ℕ) → (a * 2 ^ suc k + r) % 2 ≡ r % 2
parity k a r = omega (arith, double a k)

shorter : (k r : ℕ) → r < 2 ^ suc k → r / 2 < 2 ^ k
shorter k r lt = omega (arith, double 1 k)

regroup :
    (k high low digit : ℕ) → (high * 2 ^ k + low) * 2 + digit ≡ high * 2 ^ suc k + (low * 2 + digit)
regroup k high low digit = omega (arith, double high k)

-- An operation on two digits, and the result when the first number has run out.
module _ (z : ℕ → ℕ) (f : ℕ → ℕ → ℕ) where
  digits-count : (n m a b : ℕ) → a ≤ n → a ≤ m → digits z f n a b ≡ digits z f m a b
  digits-count zero zero zero b le le' = refl
  digits-count zero (suc m) zero b le le' = refl
  digits-count (suc n) zero zero b le le' = refl
  digits-count (suc n) (suc m) zero b le le' = refl
  digits-count (suc n) (suc m) (suc a) b le le' =
      ap (λ d. d * 2 + f (suc a % 2) (b % 2))
        (digits-count n m (suc a / 2) (b / 2) (omega arith) (omega arith))
  digits-count zero m (suc a) b le le' = absurd (omega arith)
  digits-count (suc n) zero (suc a) b le le' = absurd (omega arith)

  module _ (rest : (b : ℕ) → z b ≡ z (b / 2) * 2 + f 0 (b % 2)) where
    -- The lowest digit.
    bitwise-lowest :
        (a b : ℕ) → bitwise z f a b ≡ bitwise z f (a / 2) (b / 2) * 2 + f (a % 2) (b % 2)
    bitwise-lowest zero b = rest b
    bitwise-lowest (suc a) b =
        ap (λ d. d * 2 + f (suc a % 2) (b % 2))
          (digits-count a (suc a / 2) (suc a / 2) (b / 2) (omega arith) (omega arith))

    -- The fields of `k` bits at the bottom, and what is above them.
    pub bitwise-fields :
        z 0 ≡ 0
        → (k a1 a0 b1 b0 : ℕ) → a0 < 2 ^ k
        → b0 < 2 ^ k
        → bitwise z f (a1 * 2 ^ k + a0) (b1 * 2 ^ k + b0)
          ≡ bitwise z f a1 b1 * 2 ^ k + bitwise z f a0 b0
    bitwise-fields start zero a1 a0 b1 b0 la lb =
        let a_none : a0 ≡ 0 = omega arith in
        let b_none : b0 ≡ 0 = omega arith in
        ap₂ (bitwise z f) (one_field a1 a0 la) (one_field b1 b0 lb)
        ∙ below (bitwise z f a1 b1) (bitwise z f a0 b0) (ap₂ (bitwise z f) a_none b_none ∙ start)
      where
        one_field : (a r : ℕ) → r < 2 ^ 0 → a * 2 ^ 0 + r ≡ a
        one_field a r lt = omega arith

        below : (x y : ℕ) → y ≡ 0 → x ≡ x * 2 ^ 0 + y
        below x y e = omega arith
    bitwise-fields start (suc k) a1 a0 b1 b0 la lb =
        bitwise-lowest (a1 * 2 ^ suc k + a0) (b1 * 2 ^ suc k + b0)
        ∙ ap₂ (λ x y. x * 2 + y)
            (ap₂ (bitwise z f) (half k a1 a0) (half k b1 b0)
              ∙ bitwise-fields start k a1 (a0 / 2) b1 (b0 / 2) (shorter k a0 la) (shorter k b0 lb))
            (ap₂ f (parity k a1 a0) (parity k b1 b0))
        ∙ regroup k (bitwise z f a1 b1) (bitwise z f (a0 / 2) (b0 / 2)) (f (a0 % 2) (b0 % 2))
        ∙ ap (λ x. bitwise z f a1 b1 * 2 ^ suc k + x) (sym (bitwise-lowest a0 b0))

digits-min : (n a : ℕ) → digits (λ _. 0) min n a 0 ≡ 0
digits-min zero a = refl
digits-min (suc n) zero = refl
digits-min (suc n) (suc a) = doubled _ _ (digits-min n (suc a / 2)) (none_left (suc a % 2))
  where
    none_left : (x : ℕ) → min x 0 ≡ 0
    none_left zero = refl
    none_left (suc x) = simp unary_clauses refl

    doubled : (d x : ℕ) → d ≡ 0 → x ≡ 0 → d * 2 + x ≡ 0
    doubled d x e e' = omega arith

pub bit_and-zero : (a : ℕ) → bit_and a 0 ≡ 0
bit_and-zero a = bit_and-bitwise a 0 ∙ digits-min a a

digits-max : (n a : ℕ) → a ≤ n → digits (λ b. b) max n a 0 ≡ a
digits-max zero zero le = refl
digits-max (suc n) zero le = refl
digits-max (suc n) (suc a) le =
    whole (suc a) _ _ (digits-max n (suc a / 2) (omega arith)) (all_left (suc a % 2))
  where
    all_left : (x : ℕ) → max x 0 ≡ x
    all_left zero = refl
    all_left (suc x) = simp unary_clauses refl

    whole : (n d x : ℕ) → d ≡ n / 2 → x ≡ n % 2 → d * 2 + x ≡ n
    whole n d x e e' = omega arith
digits-max zero (suc a) le = absurd (omega arith)

pub bit_or-zero : (a : ℕ) → bit_or a 0 ≡ a
bit_or-zero a = bit_or-bitwise a 0 ∙ digits-max a a (omega arith)

and_rest : (b : ℕ) → 0 ≡ 0 * 2 + min 0 (b % 2)
and_rest b = simp unary_clauses refl

or_rest : (b : ℕ) → b ≡ b / 2 * 2 + max 0 (b % 2)
or_rest b = simp unary_clauses (halves b)
  where
    halves : (b : ℕ) → b ≡ b / 2 * 2 + b % 2
    halves b = omega arith

-- `&` on fields of `k` bits, and `|`.
pub bit_and-fields :
    (k a1 a0 b1 b0 : ℕ)
    → a0 < 2 ^ k
    → b0 < 2 ^ k
    → bit_and (a1 * 2 ^ k + a0) (b1 * 2 ^ k + b0) ≡ bit_and a1 b1 * 2 ^ k + bit_and a0 b0
bit_and-fields k a1 a0 b1 b0 la lb =
    rw
      (
        bit_and-bitwise (a1 * 2 ^ k + a0) (b1 * 2 ^ k + b0),
        bit_and-bitwise a1 b1,
        bit_and-bitwise a0 b0,
      )
      (bitwise-fields (λ _. 0) min and_rest refl k a1 a0 b1 b0 la lb)

pub bit_or-fields :
    (k a1 a0 b1 b0 : ℕ)
    → a0 < 2 ^ k
    → b0 < 2 ^ k
    → bit_or (a1 * 2 ^ k + a0) (b1 * 2 ^ k + b0) ≡ bit_or a1 b1 * 2 ^ k + bit_or a0 b0
bit_or-fields k a1 a0 b1 b0 la lb =
    rw
      (
        bit_or-bitwise (a1 * 2 ^ k + a0) (b1 * 2 ^ k + b0),
        bit_or-bitwise a1 b1,
        bit_or-bitwise a0 b0,
      )
      (bitwise-fields (λ b. b) max or_rest refl k a1 a0 b1 b0 la lb)

pub zero-bit_or : (b : ℕ) → bit_or 0 b ≡ b
zero-bit_or b = bit_or-bitwise 0 b

-- `k` ones.
abbrev pub ones : ℕ → ℕ
ones zero = 0
ones (suc k) = ones k * 2 + 1

bit_and-lowest : (a b : ℕ) → bit_and a b ≡ bit_and (a / 2) (b / 2) * 2 + min (a % 2) (b % 2)
bit_and-lowest a b =
    rw (bit_and-bitwise a b, bit_and-bitwise (a / 2) (b / 2))
      (bitwise-lowest (λ _. 0) min and_rest a b)

pub bit_and-ones : (k a : ℕ) → a < 2 ^ k → bit_and a (ones k) ≡ a
bit_and-ones zero a lt = bit_and-zero a ∙ none_left a lt
  where
    none_left : (a : ℕ) → a < 2 ^ 0 → 0 ≡ a
    none_left a lt = omega arith
bit_and-ones (suc k) a lt =
    bit_and-lowest a (ones k * 2 + 1)
    ∙ whole (ones_half (ones k)) (ones_digit (ones k)) (bit_and-ones k (a / 2) (shorter k a lt))
  where
    ones_half : (n : ℕ) → (n * 2 + 1) / 2 ≡ n
    ones_half n = omega arith

    ones_digit : (n : ℕ) → (n * 2 + 1) % 2 ≡ 1
    ones_digit n = omega arith

    whole :
        (ones k * 2 + 1) / 2 ≡ ones k
        → (ones k * 2 + 1) % 2 ≡ 1
        → bit_and (a / 2) (ones k) ≡ a / 2
        → bit_and (a / 2) ((ones k * 2 + 1) / 2) * 2 + min (a % 2) ((ones k * 2 + 1) % 2) ≡ a
    whole h d rest = rw (h, d, rest) (omega arith)

split : (k a : ℕ) → a ≡ a / 2 ^ k * 2 ^ k + a % 2 ^ k
split k a = omega (arith, div-add-mod a (2 ^ k))

rest_below : (k a : ℕ) → a % 2 ^ k < 2 ^ k
rest_below k a = mod-lt a (one-le-pow k 2 (omega arith))

ones-below : (k : ℕ) → ones k < 2 ^ k
ones-below zero = omega arith
ones-below (suc k) = omega (arith, ones-below k, pow-suc 2 k)

-- `&` with a mask of the low bits is a remainder.
pub bit_and-mod : (k a : ℕ) → bit_and a (ones k) ≡ a % 2 ^ k
bit_and-mod k a =
    ap₂ bit_and (split k a) (no_field (ones k) (2 ^ k))
    ∙ bit_and-fields k (a / 2 ^ k) (a % 2 ^ k) 0 (ones k) (rest_below k a) (ones-below k)
    ∙ low (bit_and-zero (a / 2 ^ k)) (bit_and-ones k (a % 2 ^ k) (rest_below k a))
  where
    no_field : (x p : ℕ) → x ≡ 0 * p + x
    no_field x p = omega arith

    low : {x y z : ℕ} → x ≡ 0 → y ≡ z → x * 2 ^ k + y ≡ z
    low {x} {y} {z} none same = ap₂ (λ x y. x * 2 ^ k + y) none same ∙ sym (no_field z (2 ^ k))

bit_or-lowest : (a b : ℕ) → bit_or a b ≡ bit_or (a / 2) (b / 2) * 2 + max (a % 2) (b % 2)
bit_or-lowest a b =
    rw (bit_or-bitwise a b, bit_or-bitwise (a / 2) (b / 2))
      (bitwise-lowest (λ b. b) max or_rest a b)

-- `|` of numbers of `k` bits has `k` bits.
pub bit_or-below : (k a b : ℕ) → a < 2 ^ k → b < 2 ^ k → bit_or a b < 2 ^ k
bit_or-below zero a b la lb =
    let a_none : a ≡ 0 = omega arith in
    let b_none : b ≡ 0 = omega arith in rw (a_none, b_none) (omega arith)
bit_or-below (suc k) a b la lb =
    subst (λ x. x < 2 ^ suc k) (sym (bit_or-lowest a b))
      (doubled _ (bit_or-below k (a / 2) (b / 2) (shorter k a la) (shorter k b lb)))
  where
    doubled : (x : ℕ) → x < 2 ^ k → x * 2 + max (a % 2) (b % 2) < 2 ^ suc k
    doubled x lt = omega (arith, pow-suc 2 k)
