-- ===== src/Prelude/Outcome.antt =====
-- A C function that returns a `bool` success flag and changes a state through a pointer: it ends
-- well with a value and the new state, or it fails, and then the state has changed too.
use mathlib.Core.Bool.{Bool, true, false}
use mathlib.Core.Path.{◌≡◌, refl, ap}

pub data Outcome (S : Type 0) (A : Type 0) : Type 0 where
  ok : A → S → Outcome S A
  fail : S → Outcome S A

abbrev pub M : Type 0 → Type 0 → Type 0
M S A = S → Outcome S A

abbrev pub pure : {S A : Type 0} → A → M S A
pure a s = ok a s

infixl 5 ◌>>=◌ ◌>>◌
abbrev pub ◌>>=◌ : {S A B : Type 0} → M S A → (A → M S B) → M S B
◌>>=◌ m f s = elim (m s) [ ok a s' ↦ f a s' | fail s' ↦ fail s' ]

abbrev pub ◌>>◌ : {S A B : Type 0} → M S A → M S B → M S B
m >> k = m >>= λ _. k

-- The state that a call leaves behind, whatever it answers.
abbrev pub final : {S A : Type 0} → Outcome S A → S
final (ok a s) = s
final (fail s) = s

-- The flag that the C function returns.
abbrev pub succeeded : {S A : Type 0} → Outcome S A → Bool
succeeded (ok a s) = true
succeeded (fail s) = false

-- A relation between the states before and after that holds of two calls holds of their sequence.
pub final->>= :
    {S A B : Type 0} (R : S → S → Type 0) (m : M S A) (f : A → M S B) (s : S)
    → ((x y z : S) → R x y → R y z → R x z)
    → R s (final (m s))
    → ((a : A) (t : S) → R t (final (f a t)))
    → R s (final ((m >>= f) s))
final->>= R m f s trans first rest = by_cases (m s) first
  where
    by_cases :
        (o : Outcome _ _)
        → R s (final o)
        → R s (final (elim o [ ok a t ↦ f a t | fail t ↦ fail t ]))
    by_cases (ok a t) h = trans _ _ _ h (rest a t)
    by_cases (fail t) h = h

-- Two sequences agree at a state where their first calls agree and the second ones agree behind it.
pub >>=_same :
    {S A B : Type 0} (m : M S A) (f g : A → M S B) (s : S)
    → ((a : A) (t : S) → m s ≡ ok a t → f a t ≡ g a t)
    → (m >>= f) s ≡ (m >>= g) s
>>=_same m f g s h = by_cases (m s) h
  where
    by_cases :
        (o : Outcome _ _)
        → ((a : _) (t : _) → o ≡ ok a t → f a t ≡ g a t)
        → (elim o [ ok a t ↦ f a t | fail t ↦ fail t ])
          ≡ (elim o [ ok a t ↦ g a t | fail t ↦ fail t ])
    by_cases (ok a t) k = k a t refl
    by_cases (fail t) k = refl

-- A sequence whose first call ends well goes on with the second one.
pub >>=_ok :
    {S A B : Type 0} (m : M S A) (f : A → M S B) (s t : S) (a : A)
    → m s ≡ ok a t
    → (m >>= f) s ≡ f a t
>>=_ok {S} {A} {B} m f s t a e =
    ap (λ o. elim o as (λ x. Outcome S B) [ ok a u ↦ f a u | fail u ↦ fail u ]) e
