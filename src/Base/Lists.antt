-- ===== src/Base/Lists.antt =====
-- Lists measured by native numbers, and the loops over them that the source uses.
use Prim.Native.String.{String}
use Prim.Native.Nat.{ℕ, suc, ◌+◌, ◌≤◌}
use mathlib.Core.Path.{◌≡◌, sym, ap, subst}
use mathlib.Core.Logic.{◌⊎◌, ◌↔◌, inl, inr}
use mathlib.Core.Bool.{true, Bool, false, ◌||◌}
use mathlib.Core.Option.{Option, none, some}
use mathlib.Core.List.{List, [], ◌∷◌, ◌++◌}
use native.Mathlib.Omega.{arith}
use k8s_object_syncer.Base.Equality.{if◌then◌else◌, Eq, ◌==◌, string_eq}

module _ {ℓ} {A : Type ℓ} where
  abbrev pub length : List A → ℕ
  length [] = 0
  length (x ∷ xs) = suc (length xs)

  -- `iter().any(p)`
  abbrev pub any : (A → Bool) → List A → Bool
  any p [] = false
  any p (x ∷ xs) = p x || any p xs

  -- `iter().find(p)`
  abbrev pub find : (A → Bool) → List A → Option A
  find p [] = none
  find p (x ∷ xs) = if p x then some x else find p xs

  -- `retain(p)`, and `iter().filter(p)`
  abbrev pub retain : (A → Bool) → List A → List A
  retain p [] = []
  retain p (x ∷ xs) = let rest = retain p xs in if p x then x ∷ rest else rest

  -- Every element satisfies the predicate.
  abbrev pub All {κ} : (A → Type κ) → List A → Type κ
  All P [] = Unit
  All P (x ∷ xs) = P x × All P xs

  pub length-append : (xs ys : List A) → length (xs ++ ys) ≡ length xs + length ys
  length-append [] ys = omega arith
  length-append (x ∷ xs) ys = omega (arith, length-append xs ys)

module _ {ℓ} {A : Type ℓ} where
  pub length-retain : (p : A → Bool) (xs : List A) → length (retain p xs) ≤ length xs
  length-retain p [] = omega arith
  length-retain p (x ∷ xs) = ground (arith, length-retain p xs)

  pub All-append {κ} : (P : A → Type κ) (xs ys : List A) → All P xs → All P ys → All P (xs ++ ys)
  All-append P [] ys hx hy = hy
  All-append P (x ∷ xs) ys (h, hx) hy = (h, All-append P xs ys hx hy)

  pub All-map {κ μ} :
      (P : A → Type κ) (Q : A → Type μ) (xs : List A) → ((x : A) → P x → Q x) → All P xs → All Q xs
  All-map P Q [] f h = tt
  All-map P Q (x ∷ xs) f (p, h) = (f x p, All-map P Q xs f h)

module _ {ℓ} {A : Type ℓ} ⦃e : Eq A⦄ where
  -- `contains(x)`
  abbrev pub contains : List A → A → Bool
  contains xs a = any (λ x. x == a) xs

  pub contains-append : (c r : A) (l : List A) → contains (l ++ r ∷ []) c ≡ (contains l c || r == c)
  contains-append c r [] = ground arith
  contains-append c r (x ∷ l) = ground (arith, contains-append c r l)

-- Some element satisfies the predicate.
abbrev pub Any {ℓ} : {A : Type ℓ} → (A → Type 0) → List A → Type 0
Any P [] = ⊥
Any P (x ∷ xs) = P x ⊎ Any P xs

-- The element stands in the list.
abbrev pub In : {A : Type 0} → A → List A → Type 0
In x = Any (λ y. x ≡ y)

pub Any-of_In : {A : Type 0} (Q : A → Type 0) (x : A) (l : List A) → In x l → Q x → Any Q l
Any-of_In Q x [] i q = absurd i
Any-of_In Q x (y ∷ l) (inl e) q = inl (subst Q e q)
Any-of_In Q x (y ∷ l) (inr i) q = inr (Any-of_In Q x l i q)

pub Any-map {ℓ} :
    {A : Type ℓ} (P Q : A → Type 0) (l : List A) → ((x : A) → P x → Q x) → Any P l → Any Q l
Any-map P Q [] f h = h
Any-map P Q (x ∷ l) f (inl p) = inl (f x p)
Any-map P Q (x ∷ l) f (inr h) = inr (Any-map P Q l f h)

abbrev pub is_empty {ℓ} : {A : Type ℓ} → List A → Bool
is_empty [] = true
is_empty (x ∷ l) = false

pub In-retain :
    {A : Type 0} (p : A → Bool) (x : A) (l : List A) → In x (retain p l) ↔ (In x l × (p x ≡ true))
In-retain p x [] = ground arith
In-retain p x (y ∷ l) =
    let same : x ≡ y → p x ≡ p y = λ e. ap p e in ground (arith, same, In-retain p x l)

pub All-In : {A : Type 0} (P : A → Type 0) (x : A) (l : List A) → In x l → All P l → P x
All-In P x [] i all = absurd i
All-In P x (y ∷ l) (inl e) (h, all) = subst P (sym e) h
All-In P x (y ∷ l) (inr i) (h, all) = All-In P x l i all

pub contains_iff : (x : String) (l : List String) → (contains l x ≡ true) ↔ In x l
contains_iff x [] = ground arith
contains_iff x (y ∷ l) = ground (arith, contains_iff x l)
