-- ===== src/Machine/Outcome.antt =====
-- How a handler ends: it returns, or it stops in an endless loop, by `panic` of kernel/main.c or by
-- the `for(;;)` of `x86_error_trap`. What is left to see then is the screen, of type `C`.
use klyx.Prelude.{String, ◌≡◌, refl, subst}

pub data Outcome (C A : Type 0) : Type 0 where
  returned : A → Outcome C A
  panicked : String → C → Outcome C A
  halted : C → Outcome C A

module _ {C : Type 0} where
  infixl 5 ◌>>=◌
  abbrev pub ◌>>=◌ : {A B : Type 0} → Outcome C A → (A → Outcome C B) → Outcome C B
  returned a >>= f = f a
  panicked msg c >>= f = panicked msg c
  halted c >>= f = halted c

  pub >>=-eq-returned :
      {A B : Type 0} (m : Outcome C A) (f : A → Outcome C B) {b : B}
      → (m >>= f) ≡ returned b
      → (a : A) × (m ≡ returned a) × (f a ≡ returned b)
  >>=-eq-returned (returned a) f h = (a, refl, h)
  >>=-eq-returned (panicked msg c) f h = cc
  >>=-eq-returned (halted c) f h = cc

  -- What holds of the value that is returned, if one is.
  abbrev pub After : {A : Type 0} → (A → Type 0) → Outcome C A → Type 0
  After Q (returned a) = Q a
  After Q (panicked msg c) = Unit
  After Q (halted c) = Unit

  pub After->>= :
      {A B : Type 0} (Q : A → Type 0) (R : B → Type 0) (m : Outcome C A) (f : A → Outcome C B)
      → After Q m
      → ((a : A) → Q a → After R (f a))
      → After R (m >>= f)
  After->>= Q R (returned a) f h next = next a h
  After->>= Q R (panicked msg c) f h next = tt
  After->>= Q R (halted c) f h next = tt

  pub >>=-cong :
      {A B : Type 0} (Q : A → Type 0) (m : Outcome C A) (f g : A → Outcome C B)
      → After Q m
      → ((a : A) → Q a → f a ≡ g a)
      → (m >>= f) ≡ (m >>= g)
  >>=-cong Q (returned a) f g h same = same a h
  >>=-cong Q (panicked msg c) f g h same = refl
  >>=-cong Q (halted c) f g h same = refl

  pub After-weaken :
      {A : Type 0} (Q R : A → Type 0) (m : Outcome C A)
      → ((a : A) → Q a → R a)
      → After Q m
      → After R m
  After-weaken Q R (returned a) next h = next a h
  After-weaken Q R (panicked msg c) next h = tt
  After-weaken Q R (halted c) next h = tt

  pub After-returned :
      {A : Type 0} (Q : A → Type 0) (m : Outcome C A) {a : A} → m ≡ returned a → After Q m → Q a
  After-returned Q (returned b) e h = let same : b ≡ _ = cc in subst Q same h
  After-returned Q (panicked msg c) e h = cc
  After-returned Q (halted c) e h = cc
