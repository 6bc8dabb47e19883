-- ===== src/Programs/Crypt.antt =====
-- `crypt` of kernel/test.c. A string is the list of its bytes before the terminating zero, and `none`
-- is a null pointer; the result is the string that `enc` is written with, at most 8192 bytes.
use klyx.Prelude.{ℕ, ◌-◌, List, [], ◌∷◌, Option, none, some, bit_and, bit_or}

-- `~` on one byte.
abbrev pub inverted : ℕ → ℕ
inverted x = 255 - x

-- `(~(*a|*bi))|(*a&(~*bi))`, as the `char` that it is stored to.
unfoldable pub enc_char : (a bi : ℕ) → ℕ
enc_char a bi = bit_or (inverted (bit_or a bi)) (bit_and a (inverted bi))

-- The loop over `a`, with the rest of the key at `bi`: behind its end it starts again at `b`.
unfoldable pub crypt_loop : (b bi a : List ℕ) → List ℕ
crypt_loop b bi [] = []
crypt_loop b [] (c ∷ a) = []
crypt_loop b (k ∷ []) (c ∷ a) = enc_char c k ∷ crypt_loop b b a
crypt_loop b (k ∷ (l ∷ bi)) (c ∷ a) = enc_char c k ∷ crypt_loop b (l ∷ bi) a

-- A key of one character or none is refused, and so is an empty text.
unfoldable pub crypt : Option (List ℕ) → Option (List ℕ) → Option (List ℕ)
crypt (some (c ∷ a)) (some (k ∷ (l ∷ b))) = some (crypt_loop (k ∷ (l ∷ b)) (k ∷ (l ∷ b)) (c ∷ a))
crypt _ _ = none
