-- ===== src/Machine/Compare.antt =====
-- `memcmp`: what its loop looks at.
use klyx.Prelude.{ℕ, zero, suc, ◌≡◌, ◌∙◌, ◌==◌, Bool-cases, inl, inr}
use klyx.Prelude.Int.{is_zero, is_zero-sub_ℕ}
use klyx.Machine.Memory.{Memory, memcmp}

-- memcmp gives 0 exactly if the first bytes are equal, whatever the length and the bytes behind
-- them.
pub memcmp-first :
    (m : Memory) (s1 : ℕ) (l : Memory) (s2 n : ℕ) → is_zero (memcmp m s1 l s2 n) ≡ (m s1 == l s2)
unfolding memcmp
memcmp-first m s1 l s2 zero = is_zero-sub_ℕ (m s1) (l s2)
memcmp-first m s1 l s2 (suc n) = elim (Bool-cases (m s1 == l s2)) [
  | inl same ↦ rw same (memcmp-first m s1 l s2 n ∙ same)
  | inr other ↦ rw other (is_zero-sub_ℕ (m s1) (l s2) ∙ other)
]
