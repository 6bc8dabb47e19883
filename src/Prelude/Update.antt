-- ===== src/Prelude/Update.antt =====
-- C arrays as families over their indices, updated at one index.
use Prim.Native.Nat.{ℕ}
use mathlib.Core.Path.{◌≡◌}
use mathlib.Core.Logic.{◌≢◌}
use native.Mathlib.Decide.{ℕ_discrete}
use klyx.Prelude.Tests.{◌==◌, if◌then◌else◌, ==_refl, ==_ne}

-- `a[i] = v`.
abbrev pub update {ℓ} : {A : Type ℓ} → (ℕ → A) → ℕ → A → ℕ → A
update f i v j = if j == i then v else f j

module _ {ℓ} {A : Type ℓ} where
  pub update_self : (f : ℕ → A) (i : ℕ) (v : A) → update f i v i ≡ v
  update_self f i v = rw (==_refl i)

  pub update_ne : (f : ℕ → A) (i : ℕ) (v : A) (j : ℕ) → j ≢ i → update f i v j ≡ f j
  update_ne f i v j h = rw (==_ne j i h)

  -- What holds of every entry, and of the new one, holds of every entry after the write.
  pub update_all {κ} :
      (P : ℕ → A → Type κ) (f : ℕ → A) (i : ℕ) (v : A)
      → P i v
      → ((j : ℕ) → P j (f j))
      → (j : ℕ) → P j (update f i v j)
  update_all P f i v new old j = elim (ℕ_discrete j i) [
    | yes e ↦ rw (e, update_self f i v) new
    | no ne ↦ rw (update_ne f i v j ne) (old j)
  ]
