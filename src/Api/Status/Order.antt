-- ===== src/Api/Status/Order.antt =====
-- `Ord` of `DestinationStatus`, and the stable `sort` by it.
pub mod Sorted
use Prim.Native.Nat.{Ordering}
use Prim.Native.String.{compare}
use k8s_object_syncer.Base.{List, [], ◌∷◌}
use k8s_object_syncer.Api.Types.{DestinationStatus}

-- By namespace, then by name.
unfoldable pub cmp : DestinationStatus → DestinationStatus → Ordering
cmp a b = elim (compare a.namespace b.namespace) [
  | Ordering.eq ↦ compare a.name b.name
  | Ordering.lt ↦ Ordering.lt
  | Ordering.gt ↦ Ordering.gt
]

-- An element goes in front of the first one that is not smaller.
unfoldable pub insert_sorted : DestinationStatus → List DestinationStatus → List DestinationStatus
insert_sorted d [] = d ∷ []
insert_sorted d (x ∷ l) =
    let rest = insert_sorted d l in elim (cmp d x) [ Ordering.gt ↦ x ∷ rest | _ ↦ d ∷ x ∷ l ]

unfoldable pub sort : List DestinationStatus → List DestinationStatus
unfolding insert_sorted cmp
sort [] = []
sort (d ∷ l) = insert_sorted d (sort l)
