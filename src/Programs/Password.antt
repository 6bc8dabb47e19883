-- ===== src/Programs/Password.antt =====
-- The answer of `enc` of kernel/test.c, for two passwords.
use klyx.Prelude.{
  ℕ, zero, suc, ◌+◌, ◌<◌, ◌≡◌, ◌≢◌, ◌↔◌, ◌∙◌, refl, sym, ap, Bool, true, List, [], ◌∷◌, Option,
  none, some, map, length, get_or, take, update_self, update_ne, arith,
}
use native.Mathlib.Decide.{ℕ_discrete}
use klyx.Machine.Memory.{Memory, strcpy}
use klyx.Traps.Debug.{string_at}
use klyx.Programs.Crypt.{inverted, crypt}
use klyx.Programs.Cipher.{
  IsText, IsText-wider, repeated, repeated-IsText, inverted-IsText, take-repeated, take-inverted,
  length-map, crypt-repeated, crypt-inverted,
}
use klyx.Programs.Strings.{
  NonZero, strlen-length, strcpy-inside, strcpy-behind, string_at-here, string_at-end,
  string_at-NonZero, strcmp-same,
}
use klyx.Programs.Enc.{encp_cap, first_copy, is_same, enc_again, enc}

IsText-NonZero : (n : ℕ) (s : List ℕ) → IsText n s → NonZero s
IsText-NonZero n [] h = tt
IsText-NonZero n (c ∷ s) h = (h.0, IsText-NonZero n s h.2)

get_or-positive : (s : List ℕ) (j : ℕ) → NonZero s → j < length s → 0 < get_or s j 0
get_or-positive [] j h lt = absurd (omega arith)
get_or-positive (c ∷ s) zero h lt = h.0
get_or-positive (c ∷ s) (suc j) h lt = get_or-positive s j h.1 (omega arith)

get_or-take : (s : List ℕ) (n j : ℕ) → j < n → get_or (take n s) j 0 ≡ get_or s j 0
get_or-take s zero j lt = absurd (omega arith)
get_or-take [] (suc n) j lt = refl
get_or-take (c ∷ s) (suc n) zero lt = refl
get_or-take (c ∷ s) (suc n) (suc j) lt = get_or-take s n j (omega arith)

length-repeated :
    (b bi : List ℕ) (n : ℕ) → 0 < length b → 0 < length bi → length (repeated b bi n) ≡ n
length-repeated b bi zero lb li = refl
length-repeated b [] (suc n) lb li = absurd (omega arith)
length-repeated b (k ∷ []) (suc n) lb li = ap (λ x. suc x) (length-repeated b b n lb lb)
length-repeated b (k ∷ (l ∷ bi)) (suc n) lb li =
    ap (λ x. suc x) (length-repeated b (l ∷ bi) n lb (omega arith))

take-all : (s : List ℕ) → take (length s) s ≡ s
take-all [] = refl
take-all (c ∷ s) = ap (λ xs. c ∷ xs) (take-all s)

repeated-once : (key : List ℕ) → 0 < length key → repeated key key (length key) ≡ key
repeated-once key lk =
    sym (take-all (repeated key key (length key)))
    ∙ ap (λ n. take n (repeated key key (length key))) (length-repeated key key (length key) lk lk)
    ∙ take-repeated key key (length key) (omega arith)

copy_at : (s : List ℕ) (m : Memory) (j : ℕ) → j < length s → strcpy m 0 s j ≡ get_or s j 0
copy_at s m j lt =
    let same : j ≡ 0 + j = omega arith in ap (strcpy m 0 s) same ∙ strcpy-inside s m 0 j lt

module _ (saver key again : List ℕ) (hk : IsText 255 key) (ha : IsText 256 again)
    (lk : 1 < length key) (ls : length key < length saver) (la : 0 < length again)
    (l_again : length again < length saver) (cap : length saver < encp_cap) (encp : Memory) where
  -- What `crypt` makes of the text.
  abbrev coded : List ℕ
  coded = map inverted (repeated key key (length saver))

  abbrev first : Memory
  first = first_copy coded key encp

  coded-length : length coded ≡ length saver
  coded-length =
      length-map inverted (repeated key key (length saver))
      ∙ length-repeated key key (length saver) (omega arith) (omega arith)

  first-end : first (length key) ≡ 0
  first-end = rw (strlen-length key) (update_self (strcpy encp 0 coded) (length key) 0)

  first-inside : (j : ℕ) → j ≢ length key → j < length saver → first j ≡ get_or coded j 0
  first-inside j ne lt = rw (strlen-length key) (
      update_ne (strcpy encp 0 coded) (length key) 0 j ne
      ∙ copy_at coded encp j (omega (arith, coded-length)))

  -- The first half leaves the inverted password.
  first-string : string_at encp_cap first 0 ≡ map inverted key
  first-string =
      string_at-here (map inverted key) encp_cap first 0
        (IsText-NonZero 255 (map inverted key) (inverted-IsText key hk))
        (λ j lt.
          let below : j < length key = omega (arith, length-map inverted key) in
          let same : 0 + j ≡ j = omega arith in
          ap first same
          ∙ first-inside j (λ e. omega arith) (omega arith)
          ∙ sym (get_or-take coded (length key) j below)
          ∙ ap (λ s. get_or s j 0) (take-inverted key (length saver) (omega arith)))
        (let same : 0 + length (map inverted key) ≡ length key =
            omega (arith, length-map inverted key) in
          ap first same ∙ first-end)
        (omega (arith, length-map inverted key))

  abbrev second : Memory
  second = strcpy first 0 (repeated key key (length again))

  -- Behind the second copy, the array is as the first half left it.
  second-behind : second (length again) ≡ first (length again)
  second-behind =
      strcpy-behind (repeated key key (length again)) first 0 (length again)
        (omega (arith, length-repeated key key (length again) (omega arith) (omega arith)))

  -- For a second password as long as the first one, the array holds the first one.
  second-string : length again ≡ length key → string_at encp_cap second 0 ≡ key
  second-string same =
      string_at-here key encp_cap second 0 (IsText-NonZero 255 key hk)
        (λ j lt.
          let here : 0 + j ≡ j = omega arith in
          ap second here
          ∙ copy_at (repeated key key (length again)) first j
              (omega (arith, length-repeated key key (length again) (omega arith) (omega arith)))
          ∙ ap (λ s. get_or s j 0) once)
        (let end : 0 + length key ≡ length again = omega arith in
          ap second end ∙ second-behind ∙ ap first same ∙ first-end)
        (omega arith)
    where
      once : repeated key key (length again) ≡ key
      once = ap (repeated key key) same ∙ repeated-once key (omega arith)

  -- A string there that is as long as the second password has the length of the first one.
  second-length : length (string_at encp_cap second 0) ≡ length again → length again ≡ length key
  second-length e = elim (ℕ_discrete (length again) (length key)) [
    | yes same ↦ same
    | no ne ↦
        let last : length again ≡ 0 + length (string_at encp_cap second 0) = omega (arith, e) in
        let nul : first (length again) ≡ 0 =
          sym second-behind ∙ ap second last ∙ string_at-end encp_cap second 0 (omega (arith, e)) in
        let positive : 0 < get_or coded (length again) 0 =
          get_or-positive coded (length again)
            (IsText-NonZero 255 coded (
              inverted-IsText (repeated key key (length saver))
                (repeated-IsText key key (length saver) hk hk)))
            (omega (arith, coded-length)) in
        let value : get_or coded (length again) 0 ≡ 0 =
          sym (first-inside (length again) ne l_again) ∙ nul in
        absurd (omega (arith, positive, value))
  ]

  second-same : (is_same again second ≡ true) ↔ (key ≡ again)
  second-same =
      let (only, back) =
        strcmp-same again (string_at encp_cap second 0) (λ i. get_or again i 0) 0
          (IsText-NonZero 256 again ha) (string_at-NonZero encp_cap second 0)
          (λ j l. let same : 0 + j ≡ j = omega arith in ap (λ i. get_or again i 0) same) in
      (
        λ t. let e = only t in sym (second-string (second-length (ap length (sym e)))) ∙ sym e,
        λ e. back (sym e ∙ sym (second-string (ap length (sym e)))),
      )

-- The second half, for an array that holds the key `k` of the second `crypt`.
enc_again-crypt :
    (again k cr : List ℕ) (encp : Memory)
    → string_at encp_cap encp 0 ≡ k
    → crypt (some again) (some k) ≡ some cr
    → enc_again again encp ≡ some (is_same again (strcpy encp 0 cr))
unfolding enc_again
enc_again-crypt again k cr encp e c =
    ap
      (λ o. elim o as (λ _. Option Bool) [
        | none ↦ none
        | some x ↦ some (is_same again (strcpy encp 0 x))
      ])
      (ap (λ t. crypt (some again) (some t)) e ∙ c)

enc-crypt :
    (saver password again cr : List ℕ) (encp : Memory)
    → crypt (some saver) (some password) ≡ some cr
    → enc saver password again encp ≡ enc_again again (first_copy cr password encp)
unfolding enc
enc-crypt saver password again cr encp c =
    ap
      (λ o. elim o as (λ _. Option Bool) [
        | none ↦ none
        | some x ↦ enc_again again (first_copy x password encp)
      ])
      c

-- The command enc tells whether the two passwords are the same: it says so exactly if they are
-- equal, whatever the array held before, although crypt ignores the characters of its text and
-- strcpy writes no terminating zero. The first password has at least two characters below 255, and
-- both are shorter than the text of pass_saver and not empty.
pub enc-decides :
    (saver password again : List ℕ) (encp : Memory)
    → IsText 256 saver
    → IsText 255 password
    → IsText 256 again
    → 1 < length password
    → 0 < length again
    → length password < length saver
    → length again < length saver
    → length saver < encp_cap
    → (b : Bool) × (enc saver password again encp ≡ some b) × ((b ≡ true) ↔ (password ≡ again))
enc-decides saver password again encp hs hp ha lp la ls l_again cap = (
  is_same again (second saver password again hp ha lp ls la l_again cap encp),
  enc-crypt saver password again (map inverted (repeated password password (length saver))) encp
        (crypt-repeated saver password hs (IsText-wider password hp) (omega arith) lp)
      ∙ enc_again-crypt again (map inverted password) (repeated password password (length again))
          (first saver password again hp ha lp ls la l_again cap encp)
          (first-string saver password again hp ha lp ls la l_again cap encp)
          (crypt-inverted password again hp ha lp la),
  second-same saver password again hp ha lp ls la l_again cap encp,
)
