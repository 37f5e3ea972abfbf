-- ===== src/ResourceController/Lookup.antt =====
-- `lookup_object_syncs_for_source`: the `ObjectSync` objects that govern a source object.
pub mod Matching
use k8s_object_syncer.Base.{
  String, string_eq, Bool, true, ◌||◌, Option, none, some, List, [], ◌∷◌, ◌==◌, contains, ok, err,
  if◌then◌else◌, pure, attempt, ◌>>=◌,
}
use k8s_object_syncer.Base.Dict
use k8s_object_syncer.Kube.Server.{Kube}
use k8s_object_syncer.Kube.Client.{Io, get_sync}
use k8s_object_syncer.Errors.{ControllerError}
use k8s_object_syncer.Utils.Names.{SourceRef, ObjectSyncRef, name_eq, source_ref_of_sync}
use k8s_object_syncer.Modifications.{ObjectSyncModifications, new}
use k8s_object_syncer.ResourceController.Registry.{Sources}

-- `namespaces.as_ref().map_or(true, |v| v.is_empty() || v.contains(ns) || v.contains("*"))`
unfoldable pub in_namespaces : Option (List String) → String → Bool
in_namespaces none ns = true
in_namespaces (some []) ns = true
in_namespaces (some (x ∷ v)) ns = contains (x ∷ v) ns || contains (x ∷ v) "*"

-- The tracked references of a source, if it lies in a source namespace and has any.
unfoldable pub tracked_refs :
    Option (List String) → Sources → SourceRef → Option (List ObjectSyncRef)
unfolding in_namespaces
tracked_refs source_namespaces sources source_ref =
    elim (if in_namespaces source_namespaces source_ref.namespace
      then Dict.lookup source_ref sources
      else none) [ none ↦ none | some [] ↦ none | some (r ∷ refs) ↦ some (r ∷ refs) ]

module _ (K : Kube) where
  -- `get_object_sync`: an object that cannot be read is passed over.
  unfoldable pub get_object_sync :
      ObjectSyncRef → Io K ControllerError (Option ObjectSyncModifications)
  unfolding new
  get_object_sync r = do
    answer ← attempt (get_sync K (some r.namespace) r.name)
    pure (elim answer [ ok rs ↦ some (new rs) | err e ↦ none ])

  -- It is used only if its source still matches.
  abbrev keep_matching :
      SourceRef
      → Option ObjectSyncModifications
      → List ObjectSyncModifications
      → List ObjectSyncModifications
  keep_matching source_ref none rest = rest
  keep_matching source_ref (some rs) rest =
      if source_ref_of_sync rs.modified == source_ref then rs ∷ rest else rest

  load_object_syncs :
      SourceRef → List ObjectSyncRef → Io K ControllerError (List ObjectSyncModifications)
  load_object_syncs source_ref [] = pure []
  load_object_syncs source_ref (r ∷ refs) = do
    found ← get_object_sync r
    rest ← load_object_syncs source_ref refs
    pure (keep_matching source_ref found rest)

  unfoldable pub lookup_object_syncs_for_source :
      Option (List String)
      → Sources
      → SourceRef
      → Io K ControllerError (Option (List ObjectSyncModifications))
  unfolding load_object_syncs tracked_refs
  lookup_object_syncs_for_source source_namespaces sources source_ref =
      elim (tracked_refs source_namespaces sources source_ref) [
        | none ↦ pure none
        | some refs ↦ do objs ← load_object_syncs source_ref refs; pure (some objs)
      ]
