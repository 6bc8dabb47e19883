-- ===== src/Machine/Memory.antt =====
-- include/string.h over byte memory. A pointer is an index, a string that the code only reads is the
-- list of its bytes before the terminating zero.
use klyx.Prelude.{
  ℕ, zero, suc, ◌+◌, ◌*◌, ◌/◌, ◌%◌, ◌^◌, ◌&&◌, not, List, [], ◌∷◌, update, ◌==◌, if◌then◌else◌,
}
use klyx.Prelude.Int.{ℤ, sub_ℕ}

abbrev pub Memory : Type 0
Memory = ℕ → ℕ

-- `for (; n; --n, ++si1, ++si2) *si1 = *si2;`
unfoldable pub memcpy : Memory → ℕ → ℕ → ℕ → Memory
memcpy m s1 s2 zero = m
memcpy m s1 s2 (suc n) = memcpy (update m s1 (m s2)) (s1 + 1) (s2 + 1) n

-- `for (; n; --n, ++si) *si = c;`
unfoldable pub memset : Memory → ℕ → ℕ → ℕ → Memory
memset m s c zero = m
memset m s c (suc n) = memset (update m s c) (s + 1) c n

-- The loop steps `s1` and `s2`, and reads through `si1` and `si2`, which it does not step.
unfoldable pub memcmp : Memory → ℕ → Memory → ℕ → ℕ → ℤ
memcmp m si1 l si2 zero = sub_ℕ (m si1) (l si2)
memcmp m si1 l si2 (suc n) = if m si1 == l si2 then memcmp m si1 l si2 n else sub_ℕ (m si1) (l si2)

-- The bytes before the terminating zero of `s2` go to `s1`, and no zero after them.
unfoldable pub strcpy : Memory → ℕ → List ℕ → Memory
strcpy m s1 [] = m
strcpy m s1 (c ∷ s2) = strcpy (update m s1 c) (s1 + 1) s2

-- `*s1 - *s2` at the first place where the strings differ or the first one ends.
unfoldable pub strcmp : Memory → ℕ → List ℕ → ℤ
strcmp m s1 [] = sub_ℕ (m s1) 0
strcmp m s1 (c ∷ s2) = if not (m s1 == 0) && m s1 == c then strcmp m (s1 + 1) s2 else sub_ℕ (m s1) c

unfoldable pub strlen : List ℕ → ℕ
strlen [] = 0
strlen (c ∷ s) = strlen s + 1

-- A little-endian word at `ptr`.
unfoldable pub store32 : Memory → (ptr value : ℕ) → Memory
store32 m ptr v =
    update
      (update (update (update m ptr (v % 256)) (ptr + 1) (v / 2 ^ 8 % 256)) (ptr + 2)
        (v / 2 ^ 16 % 256))
      (ptr + 3) (v / 2 ^ 24 % 256)

-- `*(size_t *)ptr`.
unfoldable pub load32 : Memory → ℕ → ℕ
load32 m ptr = m ptr + m (ptr + 1) * 2 ^ 8 + m (ptr + 2) * 2 ^ 16 + m (ptr + 3) * 2 ^ 24
