-- ===== src/ResourceController/Registry.antt =====
-- The sources that a resource controller tracks: for each source object the `ObjectSync` objects
-- that refer to it. `register` adds an entry, and dropping an `ObjectSyncHandle` takes it away.
pub mod Membership
use k8s_object_syncer.Base.{
  Bool, true, false, not, none, some, List, [], ◌∷◌, ◌++◌, ◌==◌, contains, is_empty, retain,
  if◌then◌else◌,
}
use k8s_object_syncer.Base.Dict
use k8s_object_syncer.Base.Dict.{Dict}
use k8s_object_syncer.Utils.Names.{SourceRef, ObjectSyncRef, name_eq}

-- `HashMap<SourceRef, HashSet<ObjectSyncRef>>`
abbrev pub Sources : Type 0
Sources = Dict SourceRef (List ObjectSyncRef)

pub record ObjectSyncHandle : Type 0 where
  pub src : SourceRef
  pub crd : ObjectSyncRef

-- `HashSet::insert`
abbrev pub set_insert : ObjectSyncRef → List ObjectSyncRef → List ObjectSyncRef
set_insert r l = if contains l r then l else l ++ r ∷ []

-- The map after `register`.
unfoldable pub register_source : SourceRef → ObjectSyncRef → Sources → Sources
register_source src crd sources = elim (Dict.lookup src sources) [
  | some s ↦ Dict.insert src (set_insert crd s) sources
  | none ↦ Dict.insert src (crd ∷ []) sources
]

-- The map after the handle has been dropped.
unfoldable pub drop_handle : ObjectSyncHandle → Sources → Sources
drop_handle h sources = elim (Dict.lookup h.src sources) [
  | none ↦ sources
  | some crds ↦
      let rest = retain (λ c. not (c == h.crd)) crds in
      if is_empty rest then Dict.remove h.src sources else Dict.insert h.src rest sources
]
