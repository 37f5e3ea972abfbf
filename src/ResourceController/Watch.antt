-- ===== src/ResourceController/Watch.antt =====
-- The mappers of `start`: which objects are reconciled when a namespace, an `ObjectSync` or a copy
-- has changed.
pub mod Mapped
use mathlib.Core.Option.{get_or}
use Prim.Native.Char.{Char, code}
use k8s_object_syncer.Base.Dict
use k8s_object_syncer.Kube.Client.{Object}
use k8s_object_syncer.Base.{
  ℕ, ◌+◌, ◌*◌, ltb, String, string_eq, ◌==◌, Bool, true, false, ◌||◌, ◌&&◌, nat_eq, not, Option,
  none, some, List, [], ◌∷◌, ◌++◌, contains, retain, if◌then◌else◌,
}
use k8s_object_syncer.Kube.Meta.{ObjectMeta, Namespace}
use k8s_object_syncer.Kube.Server.{Kube}
use k8s_object_syncer.Api.Types.{ObjectSync}
use k8s_object_syncer.Utils.Names.{
  NamespacedName, ObjectSyncRef, name_eq, object_sync_ref, source_object_annotation,
}
use k8s_object_syncer.ResourceController.Registry.{Sources}
use k8s_object_syncer.ResourceController.Reconcile.{full_reconcile_interval_secs}

-- `guard.values().flatten()`
unfoldable pub registered_refs : Sources → List ObjectSyncRef
registered_refs [] = []
registered_refs ((_, refs) ∷ sources) = refs ++ registered_refs sources

-- `map_or(true, |v| v.contains(ns))`
unfoldable pub is_target_namespace : Option (List String) → String → Bool
is_target_namespace none ns = true
is_target_namespace (some v) ns = contains v ns

-- Younger than three intervals, or being deleted. The seconds are compared as
-- `now - created < 3 * interval` over the integers.
unfoldable pub should_reconcile : ℕ → ObjectMeta → Bool
should_reconcile now m =
    (elim m.deletion_timestamp [ some _ ↦ true | none ↦ false ]) || (elim m.creation_timestamp [
      | none ↦ false
      | some created ↦ ltb now (created + 3 * full_reconcile_interval_secs)
    ])

-- `annotation.splitn(2, "/")` where it gives two parts: the text before the first slash and the
-- rest.
abbrev prepend : Char → Option (String × String) → Option (String × String)
prepend c none = none
prepend c (some (ns, name)) = some (String.◌∷◌ c ns, name)

unfoldable pub split_slash : String → Option (String × String)
split_slash String.[] = none
split_slash (String.◌∷◌ c s) =
    let rest = prepend c (split_slash s) in if code c == b'/' then some ("", s) else rest

abbrev named_source : Bool → Option (String × String) → Option NamespacedName
named_source is_target none = none
named_source is_target (some (ns, name)) =
    if is_target && not (name == "") then some (record { name = name; namespace = ns }) else none

module _ (K : Kube) where
  -- A namespace has changed. The result names the objects to be reconciled; each stands for the
  -- object of the controller's resource with that namespace and name.
  unfoldable pub namespace_mapper :
      Option (List String) → Sources → ℕ → Namespace → List NamespacedName
  unfolding registered_refs is_target_namespace should_reconcile
  namespace_mapper target_namespaces sources now ns =
      if not (is_target_namespace target_namespaces (K.name_any ns.metadata))
      then []
      else if should_reconcile now ns.metadata
      then registered_refs sources
      else []

  -- An `ObjectSync` has changed.
  unfoldable pub object_sync_mapper : Sources → ObjectSync → List NamespacedName
  unfolding registered_refs
  object_sync_mapper sources rs = retain (λ v. v == object_sync_ref K rs) (registered_refs sources)

  -- A copy has changed.
  unfoldable pub copy_mapper : Option (List String) → Object K → Option NamespacedName
  unfolding is_target_namespace
  copy_mapper target_namespaces rs =
      let is_target = is_target_namespace target_namespaces (get_or rs.metadata.namespace "") in
      elim (Dict.lookup source_object_annotation (get_or rs.metadata.annotations [])) [
        | none ↦ none
        | some annotation ↦ named_source is_target (split_slash annotation)
      ]
