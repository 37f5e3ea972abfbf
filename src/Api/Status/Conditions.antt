-- ===== src/Api/Status/Conditions.antt =====
-- What an update of the conditions keeps (rustrial-k8s-object-syncer-apis/src/lib.rs).
use k8s_object_syncer.Base.{
  String, string_eq, option_eq, nat_eq, ◌==◌, ◌≡◌, refl, ◌≢◌, Option, none, some, List, [], ◌∷◌,
  ◌++◌, find, retain, arith, if◌then◌else◌, not, Option-cases, inl, inr,
}
use k8s_object_syncer.Api.Types.{Condition}
use k8s_object_syncer.Api.Status.{put_condition, differs}

abbrev pub of_type : String → List Condition → Option Condition
of_type t = find (λ v. v.type_ == t)

-- The two say the same; the time of the transition is left out.
pub record SameReport (a b : Condition) : Type 0 where
  pub status : a.status ≡ b.status
  pub reason : a.reason ≡ b.reason
  pub message : a.message ≡ b.message
  pub observed_generation : a.observed_generation ≡ b.observed_generation
  pub type_ : a.type_ ≡ b.type_

-- No two conditions of the list have one type.
abbrev pub UniqueTypes : List Condition → Type 0
UniqueTypes [] = Unit
UniqueTypes (c ∷ l) = (of_type c.type_ l ≡ none) × UniqueTypes l

of_type-retain :
    (t : String) (l : List Condition) (j : String)
    → of_type j (retain (λ v. not (v.type_ == t)) l) ≡ (if j == t then none else of_type j l)
of_type-retain t [] j = ground arith
of_type-retain t (c ∷ l) j = ground (arith, of_type-retain t l j)

of_type-append :
    (j : String) (l : List Condition) (c : Condition)
    → of_type j (l ++ c ∷ [])
      ≡ elim (of_type j l) [ some v ↦ some v | none ↦ if c.type_ == j then some c else none ]
of_type-append j [] c = refl
of_type-append j (v ∷ l) c = ground (arith, of_type-append j l c)

-- A condition of another type is found as before.
of_type-put_condition_ne :
    (c : Condition) (l : List Condition) (j : String)
    → j ≢ c.type_
    → of_type j (put_condition c l) ≡ of_type j l
unfolding put_condition
of_type-put_condition_ne c l j h = ground (
  arith,
  of_type-retain c.type_ l j,
  of_type-append j (retain (λ v. not (v.type_ == c.type_)) l) c,
  of_type-append j l c,
)

type-of_type :
    (t : String) (l : List Condition) (v : Condition) → of_type t l ≡ some v → v.type_ ≡ t
type-of_type t [] v h = cc
type-of_type t (c ∷ l) v h = ground (arith, type-of_type t l v)

-- The condition that the list holds after the update: the old one, unless something changed.
abbrev pub reported : Condition → List Condition → Condition
reported c l = elim (of_type c.type_ l) [
  | some existing ↦ if differs existing c then c else existing
  | none ↦ c
]

of_type-put_condition_self :
    (c : Condition) (l : List Condition) → of_type c.type_ (put_condition c l) ≡ some (reported c l)
unfolding put_condition
of_type-put_condition_self c l = ground (
  arith,
  of_type-append c.type_ l c,
  of_type-append c.type_ (retain (λ v. not (v.type_ == c.type_)) l) c,
  of_type-retain c.type_ l c.type_,
)

reported-SameReport : (c : Condition) (l : List Condition) → SameReport (reported c l) c
reported-SameReport c l = elim (Option-cases (of_type c.type_ l)) [
  | inl absent ↦ ground arith
  | inr (v, found) ↦ ground (arith, type-of_type c.type_ l v)
]

-- After the update the condition of that type says what was reported; it is the old one with its
-- time if nothing changed. Conditions of other types are found as before.
pub put_condition-reported :
    (c : Condition) (l : List Condition) (j : String)
    → (of_type j (put_condition c l) ≡ (if j == c.type_ then some (reported c l) else of_type j l))
      × SameReport (reported c l) c
put_condition-reported c l j =
    let self = of_type-put_condition_self c l in
    let others = of_type-put_condition_ne c l j in
    (ground (arith, self, others), reported-SameReport c l)

UniqueTypes-retain :
    (t : String) (l : List Condition)
    → UniqueTypes l
    → UniqueTypes (retain (λ v. not (v.type_ == t)) l)
UniqueTypes-retain t [] u = tt
UniqueTypes-retain t (c ∷ l) (h, u) =
    ground (arith, of_type-retain t l c.type_, UniqueTypes-retain t l u)

UniqueTypes-append :
    (l : List Condition) (c : Condition)
    → UniqueTypes l
    → of_type c.type_ l ≡ none
    → UniqueTypes (l ++ c ∷ [])
UniqueTypes-append [] c u h = (refl, tt)
UniqueTypes-append (v ∷ l) c (n, u) h =
    ground (arith, of_type-append v.type_ l c, UniqueTypes-append l c u)

-- With each type once in the list before the update, each type is in it once afterwards.
pub put_condition-UniqueTypes :
    (c : Condition) (l : List Condition) → UniqueTypes l → UniqueTypes (put_condition c l)
unfolding put_condition
put_condition-UniqueTypes c l u = ground (
  arith,
  UniqueTypes-retain c.type_ l u,
  of_type-retain c.type_ l c.type_,
  UniqueTypes-append l c u,
  UniqueTypes-append (retain (λ v. not (v.type_ == c.type_)) l) c,
)

-- What already stands in the list is left alone.
put_condition_known :
    (d v : Condition) (l : List Condition)
    → of_type d.type_ l ≡ some v
    → SameReport v d
    → put_condition d l ≡ l
unfolding put_condition
put_condition_known d v l found same = ground arith

-- Reporting the same once more leaves the list as it is, whatever the time of the report.
put_condition-again :
    (c d : Condition) (l : List Condition)
    → SameReport c d
    → put_condition d (put_condition c l) ≡ put_condition c l
put_condition-again c d l same =
    put_condition_known d (reported c l) (put_condition c l)
      (rw (← same.type_) (of_type-put_condition_self c l)) (ground (arith, reported-SameReport c l))
