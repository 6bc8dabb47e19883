-- ===== src/Programs/Strings.antt =====
-- Strings in memory: `strcpy`, `strcmp` and the string at an address.
use klyx.Prelude.{
  ℕ, zero, suc, ◌+◌, ◌≤◌, ◌<◌, ◌≡◌, ◌↔◌, ◌∙◌, refl, sym, ap, ap₂, true, false, List, [], ◌∷◌,
  length, get_or, update, update_self, update_ne, ◌==◌, ==_ne, ==_iff, Bool-cases, inl, inr, arith,
}
use klyx.Prelude.Int.{is_zero, sub_ℕ}
use native.Mathlib.Decide.{ℕ_discrete}
use klyx.Machine.Memory.{Memory, strcpy, strcmp, strlen}
use klyx.Traps.Debug.{string_at}

-- A string: bytes that are not zero.
abbrev pub NonZero : List ℕ → Type 0
NonZero [] = Unit
NonZero (c ∷ s) = (0 < c) × NonZero s

pub strlen-length : (s : List ℕ) → strlen s ≡ length s
unfolding strlen
strlen-length [] = refl
strlen-length (c ∷ s) = omega (arith, strlen-length s)

pub strcpy-before : (s : List ℕ) (m : Memory) (p i : ℕ) → i < p → strcpy m p s i ≡ m i
unfolding strcpy
strcpy-before [] m p i lt = refl
strcpy-before (c ∷ s) m p i lt =
    strcpy-before s (update m p c) (p + 1) i (omega arith) ∙ update_ne m p c i (λ e. omega arith)

pub strcpy-behind : (s : List ℕ) (m : Memory) (p i : ℕ) → p + length s ≤ i → strcpy m p s i ≡ m i
unfolding strcpy
strcpy-behind [] m p i le = refl
strcpy-behind (c ∷ s) m p i le =
    strcpy-behind s (update m p c) (p + 1) i (omega arith) ∙ update_ne m p c i (λ e. omega arith)

pub strcpy-inside :
    (s : List ℕ) (m : Memory) (p j : ℕ) → j < length s → strcpy m p s (p + j) ≡ get_or s j 0
unfolding strcpy
strcpy-inside [] m p j lt = absurd (omega arith)
strcpy-inside (c ∷ s) m p zero lt =
    let here : p + zero ≡ p = omega arith in
    rw here (strcpy-before s (update m p c) (p + 1) p (omega arith) ∙ update_self m p c)
strcpy-inside (c ∷ s) m p (suc j) lt =
    let next : p + suc j ≡ p + 1 + j = omega arith in
    rw next (strcpy-inside s (update m p c) (p + 1) j (omega arith))

-- A string that stands at `i`, with its zero, is the string at `i`.
pub string_at-here :
    (s : List ℕ) (cap : ℕ) (f : ℕ → ℕ) (i : ℕ)
    → NonZero s
    → ((j : ℕ) → j < length s → f (i + j) ≡ get_or s j 0)
    → f (i + length s) ≡ 0
    → length s < cap
    → string_at cap f i ≡ s
unfolding string_at
string_at-here s zero f i nz h e lt = absurd (omega arith)
string_at-here [] (suc cap) f i nz h e lt =
    let here : i + 0 ≡ i = omega arith in let nul : f i ≡ 0 = ap f (sym here) ∙ e in rw nul refl
string_at-here (c ∷ s) (suc cap) f i nz h e lt =
    let here : i + 0 ≡ i = omega arith in
    let first : f i ≡ c = ap f (sym here) ∙ h 0 (omega arith) in
    let rest =
      string_at-here s cap f (i + 1) nz.1 (λ j l. ap f (shift i j) ∙ h (suc j) (omega arith))
        (ap f (shift i (length s)) ∙ e) (omega arith) in
    rw (first, ==_ne c 0 (λ z. omega (arith, nz.0)), rest) refl
  where
    shift : (i j : ℕ) → i + 1 + j ≡ i + suc j
    shift i j = omega arith

-- A string that is shorter than the limit ends in zero.
pub string_at-end :
    (cap : ℕ) (f : ℕ → ℕ) (i : ℕ)
    → length (string_at cap f i) < cap
    → f (i + length (string_at cap f i)) ≡ 0
unfolding string_at
string_at-end zero f i lt = absurd (omega arith)
string_at-end (suc cap) f i lt = elim (Bool-cases (f i == 0)) [
  | inl nul ↦
      let z : f i ≡ 0 = (==_iff (f i) 0).0 nul in
      let here : i + 0 ≡ i = omega arith in rw nul (ap f here ∙ z)
  | inr more ↦
      let next : i + suc (length (string_at cap f (i + 1)))
          ≡ i + 1 + length (string_at cap f (i + 1)) =
        omega arith in
      rw more (ap f next ∙ string_at-end cap f (i + 1) (below (rw more at lt)))
]
  where
    below :
        suc (length (string_at cap f (i + 1))) < suc cap → length (string_at cap f (i + 1)) < cap
    below h = omega arith

sub_ℕ-zero : (a b : ℕ) → (is_zero (sub_ℕ a b) ≡ true) ↔ (a ≡ b)
sub_ℕ-zero a b = ground arith

head-zero : (c : ℕ) (s : List ℕ) → 0 < c → get_or (c ∷ s) 0 0 ≡ 0 → ⊥
head-zero c s lt e = omega arith

at_start : (f : ℕ → ℕ) (i : ℕ) → f i ≡ f (i + 0)
at_start f i = let here : i ≡ i + 0 = omega arith in ap f here

-- `strcmp` gives 0 exactly on equal strings.
pub strcmp-same :
    (s t : List ℕ) (f : ℕ → ℕ) (i : ℕ)
    → NonZero s
    → NonZero t
    → ((j : ℕ) → j ≤ length s → f (i + j) ≡ get_or s j 0)
    → (is_zero (strcmp f i t) ≡ true) ↔ (s ≡ t)
unfolding strcmp
strcmp-same [] [] f i ns nt h =
    let nul : f i ≡ 0 = at_start f i ∙ h 0 (omega arith) in (λ z. refl, λ e. rw nul refl)
strcmp-same (c ∷ s) [] f i ns nt h =
    let first : f i ≡ c = at_start f i ∙ h 0 (omega arith) in
    (λ z. absurd (head-zero c s ns.0 (sym first ∙ (sub_ℕ-zero (f i) 0).0 z)), λ e. cc)
strcmp-same [] (d ∷ t) f i ns nt h =
    let nul : f i ≡ 0 = at_start f i ∙ h 0 (omega arith) in
    (λ z. absurd (head-zero d t nt.0 (sym ((sub_ℕ-zero 0 d).0 (rw nul at z)))), λ e. cc)
strcmp-same (c ∷ s) (d ∷ t) f i ns nt h =
    let first : f i ≡ c = at_start f i ∙ h 0 (omega arith) in
    let rest =
      strcmp-same s t f (i + 1) ns.1 nt.1 (λ j l. ap f (shift j) ∙ h (suc j) (omega arith)) in
    let alive : (c == 0) ≡ false = ==_ne c 0 (λ z. head-zero c s ns.0 z) in
    elim (ℕ_discrete c d) [
      | yes same ↦
          let test : (c == d) ≡ true = (==_iff c d).1 same in
          rw (first, alive, test) (λ z. ap₂ (λ x xs. x ∷ xs) same (rest.0 z), λ e. rest.1 cc)
      | no other ↦
          let test : (c == d) ≡ false = ==_ne c d other in
          rw (first, alive, test)
            (λ z. absurd (other ((sub_ℕ-zero c d).0 z)), λ e. absurd (other cc))
    ]
  where
    shift : (j : ℕ) → i + 1 + j ≡ i + suc j
    shift j = omega arith

pub string_at-NonZero : (cap : ℕ) (f : ℕ → ℕ) (i : ℕ) → NonZero (string_at cap f i)
unfolding string_at
string_at-NonZero zero f i = tt
string_at-NonZero (suc cap) f i = elim (Bool-cases (f i == 0)) [
  | inl nul ↦ rw nul tt
  | inr more ↦ rw more (positive more, string_at-NonZero cap f (i + 1))
]
  where
    positive : (f i == 0) ≡ false → 0 < f i
    positive h = ground arith
