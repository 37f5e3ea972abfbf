-- ===== src/ResourceController/Registry/Membership.antt =====
-- Which `ObjectSync` objects a source has after `register` and after a handle is dropped.
use k8s_object_syncer.Base.{
  Bool, false, ◌≡◌, refl, inl, inr, Option-cases, not, ◌&&◌, ◌||◌, none, some, List, [], ◌∷◌, ◌==◌,
  contains, contains-append, retain, arith,
}
use k8s_object_syncer.Base.Dict
use k8s_object_syncer.Base.Dict.{lookup-insert, lookup-remove}
use k8s_object_syncer.Utils.Names.{SourceRef, ObjectSyncRef, name_eq}
use k8s_object_syncer.ResourceController.Registry.{
  Sources, ObjectSyncHandle, register_source, drop_handle, set_insert,
}

-- The `ObjectSync` is registered for the source.
pub is_registered : SourceRef → ObjectSyncRef → Sources → Bool
is_registered src crd sources = elim (Dict.lookup src sources) [
  | some crds ↦ contains crds crd
  | none ↦ false
]

pub is_registered_nothing :
    (src : SourceRef) (crd : ObjectSyncRef) → is_registered src crd [] ≡ false
unfolding is_registered Dict.lookup
is_registered_nothing src crd = refl

contains-set_insert :
    (c r : ObjectSyncRef) (l : List ObjectSyncRef)
    → contains (set_insert r l) c ≡ (contains l c || r == c)
contains-set_insert c r l = ground (arith, contains-append c r l)

contains-retain :
    (c r : ObjectSyncRef) (l : List ObjectSyncRef)
    → contains (retain (λ x. not (x == r)) l) c ≡ (contains l c && not (r == c))
contains-retain c r [] = refl
contains-retain c r (x ∷ l) = ground (arith, contains-retain c r l)

-- `register` adds the one pair and leaves the others as they were.
pub is_registered-register_source :
    (src j : SourceRef) (crd c : ObjectSyncRef) (sources : Sources)
    → is_registered j c (register_source src crd sources)
      ≡ (is_registered j c sources || (src == j && crd == c))
unfolding is_registered register_source
is_registered-register_source src j crd c sources = elim (Option-cases (Dict.lookup src sources)) [
  | inl fresh ↦ ground (arith, lookup-insert j src (crd ∷ []) sources)
  | inr (crds, known) ↦
      ground
        (arith, lookup-insert j src (set_insert crd crds) sources, contains-set_insert c crd crds)
]

-- Dropping a handle takes its pair away and leaves the others as they were.
pub is_registered-drop_handle :
    (h : ObjectSyncHandle) (j : SourceRef) (c : ObjectSyncRef) (sources : Sources)
    → is_registered j c (drop_handle h sources)
      ≡ (is_registered j c sources && not (h.src == j && h.crd == c))
unfolding is_registered drop_handle
is_registered-drop_handle h j c sources = elim (Option-cases (Dict.lookup h.src sources)) [
  | inl fresh ↦ ground arith
  | inr (crds, known) ↦ ground (
    arith,
    lookup-insert j h.src (retain (λ x. not (x == h.crd)) crds) sources,
    lookup-remove j h.src sources,
    contains-retain c h.crd crds,
  )
]
