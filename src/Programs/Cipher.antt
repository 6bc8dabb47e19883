-- ===== src/Programs/Cipher.antt =====
-- `crypt` compared with the inverted key, repeated.
use klyx.Prelude.{
  ℕ, zero, suc, ◌≤◌, ◌<◌, ◌≡◌, ◌∙◌, refl, sym, ap, ap₂, Bool, true, List, [], ◌∷◌, some, map,
  length, take, ◌==◌, ==_iff, all_below, all_below-lt, arith,
}
use klyx.Programs.Crypt.{inverted, enc_char, crypt_loop, crypt}

-- For every two bytes.
abbrev inverts : ℕ → ℕ → Bool
inverts k a = enc_char a k == inverted k

inverts-all : all_below (λ k. all_below (inverts k) 256) 256 ≡ true
unfolding enc_char
inverts-all = refl

pub enc_char-inverted : (a k : ℕ) → a < 256 → k < 256 → enc_char a k ≡ inverted k
enc_char-inverted a k la lk = (==_iff (enc_char a k) (inverted k)).0 (
    all_below-lt (inverts k) 256
      (all_below-lt (λ i. all_below (inverts i) 256) 256 inverts-all k lk) a la)

-- A string: bytes between 0 and `n`.
abbrev pub IsText : ℕ → List ℕ → Type 0
IsText n [] = Unit
IsText n (c ∷ s) = (0 < c) × (c < n) × IsText n s

-- The first `n` characters of the key `b`, repeated, from its rest `bi` on.
abbrev pub repeated : (b bi : List ℕ) → ℕ → List ℕ
repeated b bi zero = []
repeated b [] (suc n) = []
repeated b (k ∷ []) (suc n) = k ∷ repeated b b n
repeated b (k ∷ (l ∷ bi)) (suc n) = k ∷ repeated b (l ∷ bi) n

crypt_loop-repeated :
    (b bi a : List ℕ)
    → IsText 256 b
    → IsText 256 bi
    → IsText 256 a
    → crypt_loop b bi a ≡ map inverted (repeated b bi (length a))
unfolding crypt_loop
crypt_loop-repeated b bi [] hb hi ha = refl
crypt_loop-repeated b [] (c ∷ a) hb hi ha = refl
crypt_loop-repeated b (k ∷ []) (c ∷ a) hb hi ha =
    ap₂ (λ x xs. x ∷ xs) (enc_char-inverted c k ha.1 hi.1) (crypt_loop-repeated b b a hb hb ha.2)
crypt_loop-repeated b (k ∷ (l ∷ bi)) (c ∷ a) hb hi ha =
    ap₂ (λ x xs. x ∷ xs) (enc_char-inverted c k ha.1 hi.1)
      (crypt_loop-repeated b (l ∷ bi) a hb hi.2 ha.2)

repeated-map :
    (f : ℕ → ℕ) (b bi : List ℕ) (n : ℕ) → repeated (map f b) (map f bi) n ≡ map f (repeated b bi n)
repeated-map f b bi zero = refl
repeated-map f b [] (suc n) = refl
repeated-map f b (k ∷ []) (suc n) = ap (λ xs. f k ∷ xs) (repeated-map f b b n)
repeated-map f b (k ∷ (l ∷ bi)) (suc n) = ap (λ xs. f k ∷ xs) (repeated-map f b (l ∷ bi) n)

pub take-repeated :
    (b bi : List ℕ) (n : ℕ) → length bi ≤ n → take (length bi) (repeated b bi n) ≡ bi
take-repeated b [] n le = refl
take-repeated b (k ∷ bi) zero le = absurd (omega arith)
take-repeated b (k ∷ []) (suc n) le = refl
take-repeated b (k ∷ (l ∷ bi)) (suc n) le =
    ap (λ xs. k ∷ xs) (take-repeated b (l ∷ bi) n (omega arith))

take-map : (f : ℕ → ℕ) (n : ℕ) (xs : List ℕ) → take n (map f xs) ≡ map f (take n xs)
take-map f zero xs = refl
take-map f (suc n) [] = refl
take-map f (suc n) (x ∷ xs) = ap (λ ys. f x ∷ ys) (take-map f n xs)

pub repeated-IsText :
    (b bi : List ℕ) (n : ℕ) → IsText 255 b → IsText 255 bi → IsText 255 (repeated b bi n)
repeated-IsText b bi zero hb hi = tt
repeated-IsText b [] (suc n) hb hi = tt
repeated-IsText b (k ∷ []) (suc n) hb hi = (hi.0, hi.1, repeated-IsText b b n hb hb)
repeated-IsText b (k ∷ (l ∷ bi)) (suc n) hb hi = (hi.0, hi.1, repeated-IsText b (l ∷ bi) n hb hi.2)

pub inverted-IsText : (xs : List ℕ) → IsText 255 xs → IsText 255 (map inverted xs)
inverted-IsText [] h = tt
inverted-IsText (x ∷ xs) h = (omega arith, omega arith, inverted-IsText xs h.2)

pub IsText-wider : (xs : List ℕ) → IsText 255 xs → IsText 256 xs
IsText-wider [] h = tt
IsText-wider (x ∷ xs) h = (h.0, omega arith, IsText-wider xs h.2)

inverted-twice : (xs : List ℕ) → IsText 255 xs → map inverted (map inverted xs) ≡ xs
inverted-twice [] h = refl
inverted-twice (x ∷ xs) h = ap₂ (λ y ys. y ∷ ys) (omega arith) (inverted-twice xs h.2)

pub crypt-repeated :
    (a b : List ℕ)
    → IsText 256 a
    → IsText 256 b
    → 0 < length a
    → 1 < length b
    → crypt (some a) (some b) ≡ some (map inverted (repeated b b (length a)))
unfolding crypt
crypt-repeated [] b ha hb la lb = absurd (omega arith)
crypt-repeated (c ∷ a) [] ha hb la lb = absurd (omega arith)
crypt-repeated (c ∷ a) (k ∷ []) ha hb la lb = absurd (omega arith)
crypt-repeated (c ∷ a) (k ∷ (l ∷ b)) ha hb la lb =
    ap (λ s. some s) (crypt_loop-repeated (k ∷ (l ∷ b)) (k ∷ (l ∷ b)) (c ∷ a) hb hb ha)

-- crypt does not depend on its text but on the length of it: two texts of the same length give the
-- same result under every key.
pub crypt-length :
    (a a' b : List ℕ)
    → IsText 256 a
    → IsText 256 a'
    → IsText 256 b
    → length a ≡ length a'
    → crypt (some a) (some b) ≡ crypt (some a') (some b)
unfolding crypt
crypt-length [] [] b ha ha' hb same = refl
crypt-length [] (c ∷ a') b ha ha' hb same = absurd (omega arith)
crypt-length (c ∷ a) [] b ha ha' hb same = absurd (omega arith)
crypt-length (c ∷ a) (c' ∷ a') [] ha ha' hb same = refl
crypt-length (c ∷ a) (c' ∷ a') (k ∷ []) ha ha' hb same = refl
crypt-length (c ∷ a) (c' ∷ a') (k ∷ (l ∷ b)) ha ha' hb same =
    let key = k ∷ (l ∷ b) in
    crypt-repeated (c ∷ a) key ha hb (omega arith) (omega arith)
    ∙ ap (λ n. some (map inverted (repeated key key n))) same
    ∙ sym (crypt-repeated (c' ∷ a') key ha' hb (omega arith) (omega arith))

pub length-map : (f : ℕ → ℕ) (xs : List ℕ) → length (map f xs) ≡ length xs
length-map f [] = refl
length-map f (x ∷ xs) = ap (λ n. suc n) (length-map f xs)

-- Under an inverted key `crypt` gives the key again.
pub crypt-inverted :
    (key text : List ℕ)
    → IsText 255 key
    → IsText 256 text
    → 1 < length key
    → 0 < length text
    → crypt (some text) (some (map inverted key)) ≡ some (repeated key key (length text))
crypt-inverted key text hk ht lk lt =
    crypt-repeated text (map inverted key) ht
      (IsText-wider (map inverted key) (inverted-IsText key hk)) lt
      (omega (arith, length-map inverted key))
    ∙ ap (λ s. some (map inverted s)) (repeated-map inverted key key (length text))
    ∙ ap (λ s. some s)
        (inverted-twice (repeated key key (length text))
          (repeated-IsText key key (length text) hk hk))

pub take-inverted :
    (key : List ℕ) (n : ℕ)
    → length key ≤ n
    → take (length key) (map inverted (repeated key key n)) ≡ map inverted key
take-inverted key n le =
    take-map inverted (length key) (repeated key key n)
    ∙ ap (λ s. map inverted s) (take-repeated key key n le)
