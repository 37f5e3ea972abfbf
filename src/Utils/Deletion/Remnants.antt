-- ===== src/Utils/Deletion/Remnants.antt =====
-- What `delete_destinations` says of the copies that it was given (utils.rs).
use k8s_object_syncer.Base.{
  ◌≡◌, refl, sym, ◌⊎◌, string_eq, All, All-In, Result, inl, inr, true, Option, none, some, List, [],
  ◌∷◌, ◌++◌, length, ◌≤◌, ◌+◌, Any, In, ok, arith, Bool-cases, Result-cases, length-append,
}
use mathlib.Core.Path.{subst}
use k8s_object_syncer.Kube.Meta.{KubeError}
use k8s_object_syncer.Kube.Server.{Kube}
use k8s_object_syncer.Kube.Client.{Env, Call, delete_object}
use k8s_object_syncer.Api.Types.{DestinationStatus}
use k8s_object_syncer.Errors.{ControllerError, is_not_found}
use k8s_object_syncer.Utils.Deletion.{
  destination_api, release_destination, delete_destination, delete_loop, delete_destinations,
}
use k8s_object_syncer.Utils.Deletion.Released.{
  SeesTo, release_destination-SeesTo, Any-release_destination, Any-delete_destination,
  Any-delete_loop,
}

-- A deletion that succeeded, or that the server answered by "not found".
abbrev pub Gone : Option KubeError → Type 0
Gone none = Unit
Gone (some e) = is_not_found e ≡ true

module _ (K : Kube) where
  -- The server has accepted the deletion of the copy, which is over only when the copy has no
  -- finalizers left, or has answered that there is no such object.
  abbrev pub AcceptsDeletion : DestinationStatus → Call K → Type 0
  AcceptsDeletion d c = (c.request ≡ delete_object (destination_api K d) d.name) × Gone c.failure

  abbrev pub RefusesDeletion : DestinationStatus → Call K → Type 0
  RefusesDeletion d c = (c.request ≡ delete_object (destination_api K d) d.name) × ¬ Gone c.failure

In-append_left : {A : Type 0} (x : A) (l r : List A) → In x l → In x (l ++ r)
In-append_left x (y ∷ l) r h = ground (arith, In-append_left x l r)
In-append_left x [] r h = absurd h

In-append_last : {A : Type 0} (x : A) (l : List A) → In x (l ++ x ∷ [])
In-append_last x [] = inl refl
In-append_last x (y ∷ l) = inr (In-append_last x l)

module _ (K : Kube) where
  -- What one round does to the remnants, and the answer that it goes by.
  abbrev Settles :
      DestinationStatus → List DestinationStatus → List DestinationStatus → Env K → Type 0
  Settles d errors errors' t =
      (errors' ≡ errors) × Any (AcceptsDeletion K d) t.calls
      ⊎ (errors' ≡ errors ++ d ∷ []) × Any (RefusesDeletion K d) t.calls

  delete_destination-Settles :
      (d : DestinationStatus) (errors : List DestinationStatus) (s : Env K)
      → (errors' : List DestinationStatus) × ((delete_destination K d errors s).0 ≡ ok errors')
        × Settles d errors errors' (delete_destination K d errors s).1
  unfolding delete_destination
  delete_destination-Settles d errors s =
      elim (Result-cases (K.delete (destination_api K d) d.name s.world).0) [
        | inl (_, e) ↦ (errors, ground arith, ground arith)
        | inr (e, refused) ↦ elim (Bool-cases (is_not_found e)) [
          | inl gone ↦ (errors, ground arith, ground arith)
          | inr there ↦ (errors ++ d ∷ [], ground arith, ground arith)
        ]
      ]

  delete_loop-accounts :
      (ds errors rem : List DestinationStatus) (s : Env K) (d : DestinationStatus)
      → (delete_loop K ds errors s).0 ≡ ok rem
      → In d ds ⊎ In d errors ⊎ Any (AcceptsDeletion K d) s.calls
      → In d rem ⊎ Any (AcceptsDeletion K d) (delete_loop K ds errors s).1.calls
  unfolding delete_loop
  delete_loop-accounts [] errors rem s d e h = ground arith
  delete_loop-accounts (x ∷ ds) errors rem s d e h =
      elim (Result-cases (release_destination K x s).0) [
        | inr (e', failed) ↦ ground arith
        | inl (_, released) ↦
            let (errors', kept, settled) =
              delete_destination-Settles x errors (release_destination K x s).1 in
            let s' = (release_destination K x s).1 in
            elim settled [
              | inl (same, gone) ↦ ground (
                arith,
                Any-release_destination K (AcceptsDeletion K d) x s,
                Any-delete_destination K (AcceptsDeletion K d) x errors s',
                delete_loop-accounts ds errors' rem (delete_destination K x errors s').1 d,
              )
              | inr (added, there) ↦ ground (
                arith,
                Any-release_destination K (AcceptsDeletion K d) x s,
                Any-delete_destination K (AcceptsDeletion K d) x errors s',
                In-append_left d errors (x ∷ []),
                In-append_last d errors,
                delete_loop-accounts ds errors' rem (delete_destination K x errors s').1 d,
              )
            ]
      ]

In-append_inv : {A : Type 0} (x y : A) (l : List A) → In x (l ++ y ∷ []) → In x l ⊎ (y ≡ x)
In-append_inv x y [] h = ground arith
In-append_inv x y (z ∷ l) h = ground (arith, In-append_inv x y l)

module _ (K : Kube) where
  refused_of_eq :
      (x d : DestinationStatus) (calls : List (Call K))
      → x ≡ d
      → Any (RefusesDeletion K x) calls
      → Any (RefusesDeletion K d) calls
  refused_of_eq x d calls e = subst (λ y. Any (RefusesDeletion K y) calls) e

  delete_loop-refused :
      (ds errors rem : List DestinationStatus) (s : Env K) (d : DestinationStatus)
      → (In d errors → Any (RefusesDeletion K d) s.calls)
      → (delete_loop K ds errors s).0 ≡ ok rem
      → In d rem
      → Any (RefusesDeletion K d) (delete_loop K ds errors s).1.calls × (In d ds ⊎ In d errors)
  unfolding delete_loop
  delete_loop-refused [] errors rem s d h e i = ground arith
  delete_loop-refused (x ∷ ds) errors rem s d h e i =
      elim (Result-cases (release_destination K x s).0) [
        | inr (e', failed) ↦ ground arith
        | inl (_, released) ↦
            let (errors', kept, settled) =
              delete_destination-Settles K x errors (release_destination K x s).1 in
            let s' = (release_destination K x s).1 in
            let t = (delete_destination K x errors s').1 in
            ground (
              arith,
              Any-release_destination K (RefusesDeletion K d) x s,
              Any-delete_destination K (RefusesDeletion K d) x errors s',
              In-append_inv d x errors,
              refused_of_eq x d t.calls,
              delete_loop-refused ds errors' rem t d,
            )
      ]

  delete_loop-SeesTo :
      (ds errors rem : List DestinationStatus) (s : Env K)
      → (delete_loop K ds errors s).0 ≡ ok rem
      → All (λ d. Any (SeesTo K d) (delete_loop K ds errors s).1.calls) ds
  unfolding delete_loop
  delete_loop-SeesTo [] errors rem s e = tt
  delete_loop-SeesTo (x ∷ ds) errors rem s e = elim (Result-cases (release_destination K x s).0) [
    | inr (e', failed) ↦ ground arith
    | inl (_, released) ↦
        let s' = (release_destination K x s).1 in
        let (errors', kept, settled) = delete_destination-Settles K x errors s' in
        let t = (delete_destination K x errors s').1 in
        let same : delete_loop K (x ∷ ds) errors s ≡ delete_loop K ds errors' t = ground arith in
        let done : (delete_loop K ds errors' t).0 ≡ ok rem = ground arith in
        let seen = Any-delete_loop K (SeesTo K x) ds errors' t (
          Any-delete_destination K (SeesTo K x) x errors s'
            (release_destination-SeesTo K x s released)) in
        subst
          (λ (r : Result ControllerError (List DestinationStatus) × Env K).
            All (λ d. Any (SeesTo K d) r.1.calls) (x ∷ ds))
          (sym same) (seen, delete_loop-SeesTo ds errors' rem t done)
  ]

  -- The server has accepted the deletion of the copy or has no such object, and the finalizer has
  -- been seen to.
  abbrev pub Handles : List (Call K) → DestinationStatus → Type 0
  Handles calls d = Any (AcceptsDeletion K d) calls × Any (SeesTo K d) calls

  -- On success every copy is either a remnant, or its deletion was accepted or answered by "not
  -- found"; and for each of them the patch was sent that takes the finalizer off, unless the copy
  -- was read and was not there, had no such finalizer or could not be serialised.
  pub delete_destinations-accounts :
      (ds rem : List DestinationStatus) (s : Env K) (d : DestinationStatus)
      → (delete_destinations K ds s).0 ≡ ok rem
      → In d ds
      → (In d rem ⊎ Any (AcceptsDeletion K d) (delete_destinations K ds s).1.calls)
        × Any (SeesTo K d) (delete_destinations K ds s).1.calls
  unfolding delete_destinations
  delete_destinations-accounts ds rem s d e h = (
    delete_loop-accounts K ds [] rem s d e (inl h),
    All-In (λ x. Any (SeesTo K x) (delete_loop K ds [] s).1.calls) d ds h
        (delete_loop-SeesTo ds [] rem s e),
  )

  -- On success every remnant is one of the given copies, and its deletion was refused.
  pub delete_destinations-refused :
      (ds rem : List DestinationStatus) (s : Env K) (d : DestinationStatus)
      → (delete_destinations K ds s).0 ≡ ok rem
      → In d rem
      → In d ds × Any (RefusesDeletion K d) (delete_destinations K ds s).1.calls
  unfolding delete_destinations
  delete_destinations-refused ds rem s d e h =
      ground (arith, delete_loop-refused ds [] rem s d (λ (i : In d []). absurd i) e h)

  length-delete_loop :
      (ds errors rem : List DestinationStatus) (s : Env K)
      → (delete_loop K ds errors s).0 ≡ ok rem
      → length rem ≤ length ds + length errors
  unfolding delete_loop
  length-delete_loop [] errors rem s e = ground arith
  length-delete_loop (x ∷ ds) errors rem s e = elim (Result-cases (release_destination K x s).0) [
    | inr (e', failed) ↦ ground arith
    | inl (_, released) ↦
        let (errors', kept, settled) =
          delete_destination-Settles K x errors (release_destination K x s).1 in
        let s' = (release_destination K x s).1 in
        let t = (delete_destination K x errors s').1 in
        ground (arith, length-append errors (x ∷ []), length-delete_loop ds errors' rem t)
  ]

  -- There are no more remnants than copies, so the count of removed copies does not wrap.
  length-delete_destinations :
      (ds rem : List DestinationStatus) (s : Env K)
      → (delete_destinations K ds s).0 ≡ ok rem
      → length rem ≤ length ds
  unfolding delete_destinations
  length-delete_destinations ds rem s e = omega (arith, length-delete_loop ds [] rem s e)

  pub Any-delete_destinations :
      (P : Call K → Type 0) (ds : List DestinationStatus) (s : Env K)
      → Any P s.calls
      → Any P (delete_destinations K ds s).1.calls
  unfolding delete_destinations
  Any-delete_destinations P ds s h = Any-delete_loop K P ds [] s h
