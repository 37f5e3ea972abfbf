-- ===== src/Base/Effects.antt =====
-- Rust's `Result`, and the effectful code: an action takes the state to a result and a new state.
-- An error ends the rest of a block, as `?` does, and keeps the state that it met.
use mathlib.Core.Path.{◌≡◌, refl}
use mathlib.Core.Logic.{◌⊎◌, inl, inr}

pub data Result {ℓ} (E A : Type ℓ) : Type ℓ where
  ok : A → Result E A
  err : E → Result E A

abbrev pub map_err {ℓ} : {E F A : Type ℓ} → (E → F) → Result E A → Result F A
map_err f (ok a) = ok a
map_err f (err e) = err (f e)

abbrev pub Exec {ℓ} : Type ℓ → Type ℓ → Type ℓ → Type ℓ
Exec S E A = S → Result E A × S

module _ {ℓ} {S E : Type ℓ} where
  abbrev pub pure : {A : Type ℓ} → A → Exec S E A
  pure a s = (ok a, s)

  abbrev pub fail : {A : Type ℓ} → E → Exec S E A
  fail e s = (err e, s)

  -- A result that is already there, as an action.
  abbrev pub lift : {A : Type ℓ} → Result E A → Exec S E A
  lift r s = (r, s)

  abbrev pub bind : {A B : Type ℓ} → Result E A × S → (A → Exec S E B) → Result E B × S
  bind (ok a, s) f = f a s
  bind (err e, s) f = (err e, s)

  infixl 5 ◌>>=◌ ◌>>◌
  abbrev pub ◌>>=◌ : {A B : Type ℓ} → Exec S E A → (A → Exec S E B) → Exec S E B
  ◌>>=◌ m f s = bind (m s) f

  abbrev pub ◌>>◌ : {A B : Type ℓ} → Exec S E A → Exec S E B → Exec S E B
  ◌>>◌ m k s = bind (m s) (λ _. k)

module _ {ℓ} {S E F A : Type ℓ} where
  -- `m.await?` where the error type changes by `From`.
  abbrev pub convert : (E → F) → Exec S E A → Exec S F A
  convert f m s = let (r, s') = m s in (map_err f r, s')

  -- `match m.await { … }`: the result as a value, so that the block goes on.
  abbrev pub attempt : Exec S E A → Exec S F (Result E A)
  attempt m s = let (r, s') = m s in (ok r, s')

-- To split on an answer and keep the equation.
pub Result-cases {ℓ} :
    {E A : Type ℓ} (r : Result E A) → ((a : A) × (r ≡ ok a)) ⊎ ((e : E) × (r ≡ err e))
Result-cases (ok a) = inl (a, refl)
Result-cases (err e) = inr (e, refl)

-- `r.and_then(f)`, and `r?` in a function that only computes.
abbrev pub and_then {ℓ} : {E A B : Type ℓ} → Result E A → (A → Result E B) → Result E B
and_then (ok a) f = f a
and_then (err e) f = err e

-- The action has returned a value, and the value satisfies the predicate.
abbrev pub Returns {ℓ} : {E A : Type ℓ} → (A → Type 0) → Result E A → Type 0
Returns P (ok a) = P a
Returns P (err e) = ⊥

-- A block returns what its rest returns from every value that its first action can return.
pub Returns-bind {ℓ} :
    {S E A B : Type ℓ} (P : A → Type 0) (Q : B → Type 0) (m : Exec S E A) (f : A → Exec S E B)
    (s : S)
    → Returns P (m s).0
    → ((a : A) (t : S) → P a → Returns Q (f a t).0)
    → Returns Q ((m >>= f) s).0
Returns-bind P Q m f s h k = elim (Result-cases (m s).0) [
  | inl (a, e) ↦ rw e (k a (m s).1 (rw e at h))
  | inr (x, e) ↦ absurd (rw e at h)
]

pub Returns-map {ℓ} :
    {E A : Type ℓ} (P Q : A → Type 0) (r : Result E A)
    → ((a : A) → P a → Q a)
    → Returns P r
    → Returns Q r
Returns-map P Q (ok a) f h = f a h
Returns-map P Q (err e) f h = h
