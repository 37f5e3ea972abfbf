-- ===== src/Api/Destination/Unique.antt =====
-- The set of destinations of a specification (rustrial-k8s-object-syncer-apis/src/lib.rs).
use k8s_object_syncer.Base.{
  ◌≡◌, ◌||◌, ◌==◌, false, List, [], ◌∷◌, ◌++◌, contains, contains-append, inl, inr, arith,
  Bool-cases,
}
use k8s_object_syncer.Api.Types.{Destination, ObjectSyncSpec, destination_eq}
use k8s_object_syncer.Api.Destination.{destination_set, extend}

-- No destination stands in the list twice.
abbrev pub IsUnique : List Destination → Type 0
IsUnique [] = Unit
IsUnique (d ∷ ds) = (contains ds d ≡ false) × IsUnique ds

append-IsUnique :
    (l : List Destination) (d : Destination)
    → contains l d ≡ false
    → IsUnique l
    → IsUnique (l ++ d ∷ [])
append-IsUnique [] d h unique = ground arith
append-IsUnique (x ∷ l) d h unique = ground (arith, contains-append x d l, append-IsUnique l d)

extend_lem :
    (tmp ds : List Destination)
    → IsUnique tmp
    → IsUnique (extend tmp ds)
      × ((c : Destination) → contains (extend tmp ds) c ≡ (contains tmp c || contains ds c))
unfolding extend
extend_lem tmp [] unique = (unique, λ c. ground arith)
extend_lem tmp (d ∷ ds) unique = elim (Bool-cases (contains tmp d)) [
  | inl there ↦
      let (u, same) = extend_lem tmp ds unique in
      rw there (
        u,
        λ c. elim (Bool-cases (d == c)) [
          | inl same_one ↦ ground (arith, same c)
          | inr other ↦ ground (arith, same c)
        ],
      )
  | inr new ↦
      let (u, same) = extend_lem (tmp ++ d ∷ []) ds (append-IsUnique tmp d new unique) in
      rw new (u, λ c. ground (arith, same c, contains-append c d tmp))
]

-- The set holds each destination of the specification once, and no other.
destination_set_lem :
    (spec : ObjectSyncSpec)
    → IsUnique (destination_set spec)
      × ((c : Destination) → contains (destination_set spec) c ≡ contains spec.destinations c)
unfolding destination_set
destination_set_lem spec = extend_lem [] spec.destinations tt
