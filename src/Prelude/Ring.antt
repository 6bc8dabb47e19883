-- ===== src/Prelude/Ring.antt =====
-- The entries of a ring buffer, oldest first: `n` entries from index `h` on, going round at `cap`.
use Prim.Native.Nat.{ℕ, zero, suc, ◌+◌, ◌-◌, ◌%◌, ◌<◌}
use mathlib.Core.Path.{◌≡◌, refl, ap, ap₂, ◌∙◌}
use mathlib.Core.Logic.{◌≢◌}
use mathlib.Core.List.{List, [], ◌∷◌, ◌++◌}
use native.Mathlib.Omega.{arith}
use native.Mathlib.Nat.{mod-lt, mod-eq_of_lt, mod-eq-sub-mod, mod-add-mod}
use native.Mathlib.Decide.{dec_lt}
use klyx.Prelude.Lists.{length}
use klyx.Prelude.Update.{update, update_self, update_ne}

abbrev pub window : (cap : ℕ) → (ℕ → ℕ) → (h n : ℕ) → List ℕ
window cap f h zero = []
window cap f h (suc n) = f h ∷ window cap f ((h + 1) % cap) n

pub length-window : (cap : ℕ) (f : ℕ → ℕ) (h n : ℕ) → length (window cap f h n) ≡ n
length-window cap f h zero = refl
length-window cap f h (suc n) = ap suc (length-window cap f ((h + 1) % cap) n)

-- A step of the read head leaves the place behind the window where it is.
window-step : (cap h n : ℕ) → ((h + 1) % cap + n) % cap ≡ (h + suc n) % cap
window-step cap h n =
    mod-add-mod (h + 1) cap n ∙ ap (λ v. v % cap) (let e : h + 1 + n ≡ h + suc n = omega arith in e)

-- The place behind a window that is not full is not its first entry.
behind-first : (cap h n : ℕ) → h < cap → suc n < cap → h ≢ (h + suc n) % cap
behind-first cap h n hh hn same = elim (dec_lt (h + suc n) cap) [
  | yes below ↦ absurd (omega (arith, mod-eq_of_lt below))
  | no over ↦
      let wrap : (h + suc n) % cap ≡ (h + suc n - cap) % cap = mod-eq-sub-mod (omega arith) in
      let small : h + suc n - cap < cap = omega arith in
      absurd (omega (arith, wrap, mod-eq_of_lt small))
]

-- A write behind the window makes it longer by that entry.
pub window-update :
    (cap : ℕ) (f : ℕ → ℕ) (x h n i : ℕ)
    → h < cap
    → suc n < cap
    → i ≡ (h + n) % cap
    → window cap (update f i x) h (suc n) ≡ window cap f h n ++ (x ∷ [])
window-update cap f x h zero i hh hn e =
    let here : (h + 0) % cap ≡ h =
      (ap (λ v. v % cap) (let z : h + 0 ≡ h = omega arith in z)) ∙ mod-eq_of_lt hh in
    let same : h ≡ i = omega arith in ap (λ v. v ∷ []) (rw same (update_self f i x))
window-update cap f x h (suc n) i hh hn e =
    ap₂ ◌∷◌
      (update_ne f i x h (λ same. behind-first cap h n hh (omega arith) (omega (arith, same, e))))
      (window-update cap f x ((h + 1) % cap) n i (mod-lt (h + 1) (omega arith)) (omega arith)
        (omega (arith, e, window-step cap h n)))
