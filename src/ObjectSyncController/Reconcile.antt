-- ===== src/ObjectSyncController/Reconcile.antt =====
-- `check`, `delete` and `reconcile` of the `ObjectSync` controller.
pub mod Gate
pub mod Instances
pub mod Identity
pub mod Reached
use mathlib.Core.Option.{get_or}
use k8s_object_syncer.Base.{
  String, string_eq, nat_eq, ◌==◌, ◌<>◌, true, false, not, Option, none, some, List, [], ◌∷◌, ◌++◌,
  find, retain, length, if◌then◌else◌, Result, ok, err, Exec, pure, fail, lift, convert, attempt,
  ◌>>=◌, ◌>>◌,
}
use k8s_object_syncer.Base.Dict
use k8s_object_syncer.Kube.Meta.{GroupVersionKind}
use k8s_object_syncer.Kube.Server.{Kube, Api}
use k8s_object_syncer.Kube.Client.{Io, get, now}
use k8s_object_syncer.Api.Types.{Condition, ObjectSync}
use k8s_object_syncer.Api.Destination.{source_namespace, source_name}
use k8s_object_syncer.Api.Status.{new_condition, update_condition}
use k8s_object_syncer.Errors.{
  ControllerError, api_discovery_error, kube_api, any_error, display, is_not_found, is_temporary,
}
use k8s_object_syncer.Utils.Names.{
  finalizer_name, display_name, name_eq, ensure_gvk, source_ref_of_sync, SourceRef,
}
use k8s_object_syncer.Utils.Finalizers.{finalizers, remove_finalizer}
use k8s_object_syncer.Modifications.{
  Session, Act, on_env, the_event, modify, id, is_deleted, replace_status, patch_spec,
}
use k8s_object_syncer.ObjectSyncController.Cleanup.{
  ready, success, failure, delete_all_destinations,
}
use k8s_object_syncer.ObjectSyncController.Discovery.{get_gvk}
use k8s_object_syncer.ObjectSyncController.Registry.{
  Registry, ObjectSyncInstance, source_changed, remove, add, drop_instance, drop_optional,
}
use k8s_object_syncer.ResourceController.Lookup.{in_namespaces}
use k8s_object_syncer.Kube.Runtime.{Action, requeue}

-- `error_policy`
unfoldable pub error_policy : ControllerError → Action
error_policy e = if is_temporary e then requeue 30 else requeue 300

abbrev set_sync_finalizers : List String → ObjectSync → ObjectSync
set_sync_finalizers fs o = record o { metadata = record o.metadata { finalizers = some fs } }

-- An error that has passed through `anyhow` displays as before.
abbrev any_of : ControllerError → ControllerError
any_of e = any_error (display e)

abbrev shown : GroupVersionKind → String
shown g = g.group <> "/" <> g.version <> "/" <> g.kind

unfoldable pub registered_condition : GroupVersionKind → SourceRef → Condition
unfolding new_condition
registered_condition gvk src = new_condition ready (some true) success (
    "Successfully registered with ResourceController "
    <> shown gvk
    <> " and source "
    <> display_name src)

unfoldable pub moved_condition : ObjectSyncInstance → GroupVersionKind → SourceRef → Condition
unfolding new_condition
moved_condition active gvk src = new_condition ready (some true) success (
    "Successfully moved from ResourceController "
    <> shown active.gvk
    <> " to "
    <> shown gvk
    <> " and updated source from "
    <> display_name active.resource_controller_handle.src
    <> " to "
    <> display_name src)

module _ (K : Kube) where
  -- `remove_finalizer` of the controller.
  unfoldable pub remove_sync_finalizer : Act K ControllerError (Unit {0})
  remove_sync_finalizer = do
    m ← the_event K
    let fs = finalizers m.modified.metadata
    let kept = retain (λ f. not (f == finalizer_name)) fs
    modify K (set_sync_finalizers kept)
    if length kept == length fs then pure tt else convert any_of (patch_spec K)

  -- `add_finalizer_if_missing` of the controller.
  unfoldable pub add_sync_finalizer_if_missing : Act K ControllerError (Unit {0})
  add_sync_finalizer_if_missing = do
    m ← the_event K
    let fs = finalizers m.modified.metadata
    elim (find (λ f. f == finalizer_name) fs) [
      | some f ↦ modify K (set_sync_finalizers fs)
      | none ↦ do
        modify K (set_sync_finalizers (fs ++ finalizer_name ∷ []))
        convert any_of (patch_spec K)
    ]

  -- The namespaced API of the source's kind.
  abbrev source_api : GroupVersionKind → ObjectSync → Api
  source_api gvk o = record {
    resource = K.from_gvk gvk.group gvk.version gvk.kind;
    namespace = some (get_or (source_namespace o) "");
  }

  -- The finalizer of the source goes, if the source is there.
  unfoldable pub release_source_object :
      GroupVersionKind → ObjectSync → Io K ControllerError (Unit {0})
  release_source_object gvk o = do
    found ← attempt (get K (source_api gvk o) (source_name o))
    elim found [
      | ok v ↦ do
        (r, _) ← remove_finalizer K (source_api gvk o) (ensure_gvk K v gvk) finalizer_name
        _ ← lift r
        pure tt
      | err e ↦ if is_not_found e then pure tt else fail (kube_api e)
    ]

  -- Where the kind of the source no longer exists there is nothing to release.
  unfoldable pub after_discovery :
      ObjectSync → Result ControllerError GroupVersionKind → Io K ControllerError (Unit {0})
  after_discovery o (ok gvk) = release_source_object gvk o
  after_discovery o (err (api_discovery_error text)) = pure tt
  after_discovery o (err e) = fail e

  unfoldable pub release_source : Act K ControllerError (Unit {0})
  release_source = do
    m ← the_event K
    found ← on_env K (attempt (get_gvk K m.modified.spec.source))
    on_env K (after_discovery m.modified found)

  -- `delete` after the `ObjectSync` has been taken from its resource controller.
  unfoldable pub delete_copies : Act K ControllerError (Unit {0})
  delete_copies = do delete_all_destinations K; release_source; remove_sync_finalizer

  -- The session of one reconciliation, beside the maps of the controller.
  pub record Controller : Type 0 where
    pub session : Session K
    pub registry : Registry

  abbrev Run : Type 0 → Type 0
  Run = Exec Controller ControllerError

  abbrev on_session : {A : Type 0} → Act K ControllerError A → Run A
  on_session m c = let (r, s) = m c.session in (r, record c { session = s })

  abbrev on_registry : {A : Type 0} → (Registry → A × Registry) → Run A
  on_registry f c = let (a, r) = f c.registry in (ok a, record c { registry = r })

  abbrev change : (Registry → Registry) → Run (Unit {0})
  change f c = (ok tt, record c { registry = f c.registry })

  -- `delete`
  unfoldable pub delete : Run (Unit {0})
  delete = do
    m ← on_session (the_event K)
    removed ← on_registry (remove (id K m))
    change (drop_optional removed)
    on_session delete_copies

  -- The source has changed: `active` is the clone that `check` holds meanwhile.
  unfoldable pub move_instance : ObjectSyncInstance → GroupVersionKind → Run Condition
  move_instance active gvk = do
    m ← on_session (the_event K)
    _ ← on_registry (remove (id K m))
    cleaned ← attempt (on_session (delete_all_destinations K))
    elim cleaned [
      | err e ↦ do change (drop_instance active); fail e
      | ok _ ↦ do
        m' ← on_session (the_event K)
        let src = source_ref_of_sync m'.modified
        change (add (some active) src (id K m') gvk)
        change (drop_instance active)
        pure (moved_condition active gvk src)
    ]

  -- The part of `check` between the discovery and the report.
  unfoldable pub check_instance : GroupVersionKind → Run (Option Condition)
  check_instance gvk = do
    m ← on_session (the_event K)
    active ← on_registry (λ r. (Dict.lookup (id K m) r.instances, r))
    elim active [
      | some i ↦
          if source_changed i m.modified gvk
          then (do c ← move_instance i gvk; pure (some c))
          else pure none
      | none ↦ do
        let src = source_ref_of_sync m.modified
        change (add none src (id K m) gvk)
        pure (some (registered_condition gvk src))
    ]

  unfoldable pub report_condition : Condition → Act K ControllerError (Unit {0})
  report_condition c = do
    time ← on_env K (now K)
    modify K (update_condition time c)
    replace_status K

  unfoldable pub check : Run (Unit {0})
  check = do
    on_session add_sync_finalizer_if_missing
    m ← on_session (the_event K)
    gvk ← on_session (on_env K (get_gvk K m.modified.spec.source))
    condition ← check_instance gvk
    elim condition [ none ↦ pure tt | some c ↦ on_session (report_condition c) ]

  -- `check` with the report of its error.
  unfoldable pub checked : Run (Unit {0})
  checked = do
    r ← attempt check
    elim r [
      | ok _ ↦ pure tt
      | err e ↦ do
        on_session (report_condition (new_condition ready (some false) failure (display e)))
        fail e
    ]

  -- `reconcile`, begun with the modifications of the object that has changed.
  unfoldable pub reconcile : Option (List String) → Run Action
  reconcile watch_namespaces = do
    m ← on_session (the_event K)
    if in_namespaces watch_namespaces (get_or m.modified.metadata.namespace "")
        then (do if is_deleted m then delete else checked; pure (requeue 3600))
        else pure (requeue 3600)
