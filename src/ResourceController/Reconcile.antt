-- ===== src/ResourceController/Reconcile.antt =====
-- `reconcile` and `error_policy` of the resource controller.
pub mod Gate
pub mod Releases
use k8s_object_syncer.Base.{
  ℕ, String, string_eq, Bool, true, false, ◌&&◌, ◌||◌, not, Option, none, some, List, [], ◌∷◌,
  Result, ok, err, if◌then◌else◌, pure, attempt, ◌>>=◌, ◌>>◌,
}
use k8s_object_syncer.Base.Dict
use k8s_object_syncer.Kube.Meta.{ObjectMeta, GroupVersionKind}
use k8s_object_syncer.Kube.Server.{Kube}
use k8s_object_syncer.Kube.Client.{Object, Io}
use k8s_object_syncer.Kube.Runtime.{Action, requeue, await_change}
use k8s_object_syncer.Errors.{ControllerError, is_temporary}
use k8s_object_syncer.Utils.Names.{
  finalizer_name, source_object_annotation, ensure_gvk, source_ref_of_object, SourceRef,
}
use k8s_object_syncer.Utils.Finalizers.{add_finalizer_if_missing, remove_finalizer}
use k8s_object_syncer.Modifications.{ObjectSyncModifications, Act}
use k8s_object_syncer.ObjectSyncController.Cleanup.{delete_all_destinations}
use k8s_object_syncer.ResourceController.Registry.{Sources}
use k8s_object_syncer.ResourceController.Lookup.{lookup_object_syncs_for_source}
use k8s_object_syncer.ResourceController.Upsert.{namespaced_api}
use k8s_object_syncer.ResourceController.Source.{reconcile_source}
use mathlib.Core.Option.{get_or}

abbrev pub full_reconcile_interval_secs : ℕ
full_reconcile_interval_secs = 300

unfoldable pub error_policy : ControllerError → Action
error_policy e = if is_temporary e then requeue 30 else requeue full_reconcile_interval_secs

abbrev is_deleting : ObjectMeta → Bool
is_deleting m = elim m.deletion_timestamp [ some _ ↦ true | none ↦ false ]

abbrev is_annotated : ObjectMeta → Bool
is_annotated m = elim (Dict.lookup source_object_annotation (get_or m.annotations [])) [
  | some _ ↦ true
  | none ↦ false
]

module _ (K : Kube) where
  -- An action on one `ObjectSync`, whose modifications end with it.
  abbrev pub with_event :
      {A : Type 0}
      → ObjectSyncModifications
      → Act K ControllerError A
      → Io K ControllerError (Result ControllerError A)
  with_event event m s = let (r, s') = m (record { env = s; event = event }) in (ok r, s'.env)

  abbrev is_ok : {A : Type 0} → Result ControllerError A → Bool
  is_ok (ok a) = true
  is_ok (err e) = false

  -- `source_deleted` for each `ObjectSync`; whether all of them succeeded.
  unfoldable pub delete_for_all : List ObjectSyncModifications → Io K ControllerError Bool
  delete_for_all [] = pure true
  delete_for_all (m ∷ ms) = do
    r ← with_event m (delete_all_destinations K)
    rest ← delete_for_all ms
    pure (is_ok r && rest)

  module _ (gvk : GroupVersionKind) where
    unfoldable pub reconcile_all :
        Object K → List ObjectSyncModifications → Io K ControllerError (Unit {0})
    reconcile_all source [] = pure tt
    reconcile_all source (m ∷ ms) = do
      _ ← with_event m (reconcile_source K gvk source)
      reconcile_all source ms

    -- The source is being deleted: its finalizer goes only after all copies have gone.
    unfoldable pub source_deleted :
        SourceRef → Object K → List ObjectSyncModifications → Io K ControllerError (Unit {0})
    source_deleted source_ref source ms = do
      all_succeeded ← delete_for_all ms
      if all_succeeded
          then (do
            _ ← remove_finalizer K (namespaced_api K gvk source_ref.namespace) source finalizer_name
            pure tt)
          else pure tt

    -- The source is there: it gets the finalizer, and each `ObjectSync` is brought into line with
    -- it. A failed finalizer is only logged.
    unfoldable pub source_present :
        SourceRef → Object K → List ObjectSyncModifications → Io K ControllerError (Unit {0})
    source_present source_ref source ms = do
      added ← attempt (
          add_finalizer_if_missing K (namespaced_api K gvk source_ref.namespace) source
            finalizer_name)
      reconcile_all (elim added [ ok (_, source') ↦ source' | err e ↦ source ]) ms

    -- Nothing refers to the object: it loses the finalizer, unless it is a live copy.
    unfoldable pub release_unreferenced : SourceRef → Object K → Io K ControllerError Action
    release_unreferenced source_ref source =
        if not (is_annotated source.metadata) || is_deleting source.metadata
        then (do
          (r, _) ←
              remove_finalizer K (namespaced_api K gvk source_ref.namespace) source finalizer_name
          pure (elim r [ ok _ ↦ await_change | err e ↦ requeue 5 ]))
        else pure await_change

    unfoldable pub reconcile :
        Option (List String) → Sources → Object K → Io K ControllerError Action
    reconcile source_namespaces sources object = do
      let source_ref = source_ref_of_object K object
      found ← lookup_object_syncs_for_source K source_namespaces sources source_ref
      let source = ensure_gvk K object gvk
      elim found [
        | none ↦ release_unreferenced source_ref source
        | some ms ↦ do
          if is_deleting source.metadata
              then source_deleted source_ref source ms
              else source_present source_ref source ms
          pure (requeue full_reconcile_interval_secs)
      ]
