-- ===== src/Machine/Copies.antt =====
-- `memcpy` and `memset` stay inside their target, and depend on their source alone.
use klyx.Prelude.{
  sym, ℕ, zero, suc, ◌+◌, ◌≤◌, ◌<◌, ◌≡◌, ◌⊎◌, refl, ◌∙◌, update, update_self, update_ne, arith,
}
use native.Mathlib.Decide.{ℕ_discrete}
use klyx.Machine.Memory.{Memory, memcpy, memset}

pub memset-outside : (m : Memory) (s c n i : ℕ) → (i < s) ⊎ (s + n ≤ i) → memset m s c n i ≡ m i
unfolding memset
memset-outside m s c zero i out = refl
memset-outside m s c (suc n) i out =
    memset-outside (update m s c) (s + 1) c n i (ground arith) ∙ update_ne m s c i (ground arith)

pub memcpy-outside :
    (m : Memory) (s1 s2 n i : ℕ) → (i < s1) ⊎ (s1 + n ≤ i) → memcpy m s1 s2 n i ≡ m i
unfolding memcpy
memcpy-outside m s1 s2 zero i out = refl
memcpy-outside m s1 s2 (suc n) i out =
    memcpy-outside (update m s1 (m s2)) (s1 + 1) (s2 + 1) n i (ground arith)
    ∙ update_ne m s1 (m s2) i (ground arith)

-- Two memories that agree below `cap`.
abbrev pub AgreeBelow : ℕ → Memory → Memory → Type 0
AgreeBelow cap m l = (i : ℕ) → i < cap → m i ≡ l i

pub update-AgreeBelow :
    (cap : ℕ) (m l : Memory) (p x y : ℕ)
    → x ≡ y
    → AgreeBelow cap m l
    → AgreeBelow cap (update m p x) (update l p y)
update-AgreeBelow cap m l p x y e a i lt = elim (ℕ_discrete i p) [
  | yes here ↦ rw here (update_self m p x ∙ e ∙ sym (update_self l p y))
  | no other ↦ update_ne m p x i other ∙ a i lt ∙ sym (update_ne l p y i other)
]

pub memcpy-AgreeBelow :
    (cap : ℕ) (m l : Memory) (s1 s2 n : ℕ)
    → s2 + n ≤ cap
    → AgreeBelow cap m l
    → AgreeBelow cap (memcpy m s1 s2 n) (memcpy l s1 s2 n)
unfolding memcpy
memcpy-AgreeBelow cap m l s1 s2 zero fits a = a
memcpy-AgreeBelow cap m l s1 s2 (suc n) fits a =
    memcpy-AgreeBelow cap (update m s1 (m s2)) (update l s1 (l s2)) (s1 + 1) (s2 + 1) n
      (omega arith) (update-AgreeBelow cap m l s1 (m s2) (l s2) (a s2 (omega arith)) a)

pub memset-AgreeBelow :
    (cap : ℕ) (m l : Memory) (s c n : ℕ)
    → AgreeBelow cap m l
    → AgreeBelow cap (memset m s c n) (memset l s c n)
unfolding memset
memset-AgreeBelow cap m l s c zero a = a
memset-AgreeBelow cap m l s c (suc n) a =
    memset-AgreeBelow cap (update m s c) (update l s c) (s + 1) c n
      (update-AgreeBelow cap m l s c c refl a)

-- What a forward copy to a lower address leaves: the source, moved.
pub memcpy-down :
    (m : Memory) (s1 s2 n i : ℕ) → s1 < s2 → i < n → memcpy m s1 s2 n (s1 + i) ≡ m (s2 + i)
unfolding memcpy
memcpy-down m s1 s2 zero i lt small = absurd (omega arith)
memcpy-down m s1 s2 (suc n) zero lt small =
    let here : s1 + 0 ≡ s1 = omega arith in
    let there : s2 + 0 ≡ s2 = omega arith in
    rw (here, there)
      (memcpy-outside (update m s1 (m s2)) (s1 + 1) (s2 + 1) n s1 (ground arith)
        ∙ update_self m s1 (m s2))
memcpy-down m s1 s2 (suc n) (suc i) lt small =
    let here : s1 + suc i ≡ s1 + 1 + i = omega arith in
    let there : s2 + suc i ≡ s2 + 1 + i = omega arith in
    rw (here, there)
      (memcpy-down (update m s1 (m s2)) (s1 + 1) (s2 + 1) n i (omega arith) (omega arith)
        ∙ update_ne m s1 (m s2) (s2 + 1 + i) (omega arith))

pub memset-inside : (m : Memory) (s c n i : ℕ) → i < n → memset m s c n (s + i) ≡ c
unfolding memset
memset-inside m s c zero i small = absurd (omega arith)
memset-inside m s c (suc n) zero small =
    let here : s + 0 ≡ s = omega arith in
    rw here (memset-outside (update m s c) (s + 1) c n s (ground arith) ∙ update_self m s c)
memset-inside m s c (suc n) (suc i) small =
    let here : s + suc i ≡ s + 1 + i = omega arith in
    rw here (memset-inside (update m s c) (s + 1) c n i (omega arith))
