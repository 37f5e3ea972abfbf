-- ===== src/ObjectSyncController/Reconcile/Identity.antt =====
-- What the status endpoint keeps of an `ObjectSync`, and that the deletion of its copies keeps it.
use k8s_object_syncer.Base.{
  ◌≡◌, length, refl, String, Option, List, ok, arith, inl, inr, Result-cases, Option-cases,
}
use k8s_object_syncer.Kube.Meta.{ObjectMeta, GroupVersionKind}
use k8s_object_syncer.Kube.Server.{Kube, PostParams}
use k8s_object_syncer.Api.Types.{Condition, ObjectSync, DestinationStatus}
use k8s_object_syncer.Api.Status.{status_destinations, update_condition, update_destinations}
use k8s_object_syncer.Api.Destination.{source_namespace}
use k8s_object_syncer.Utils.Names.{object_sync_ref, source_ref_of_sync, name_of}
use k8s_object_syncer.Utils.Deletion.{delete_destinations}
use k8s_object_syncer.Modifications.{
  Session, id, api_scope, post_params, latest, send_status, replace_status,
}
use k8s_object_syncer.ObjectSyncController.Cleanup.{
  removal_condition, report_removal, delete_all_destinations,
}
use k8s_object_syncer.ObjectSyncController.Reconcile.Instances.{Steady}

module _ (K : Kube) where
  -- The two are the same object with the same specification.
  pub record SameObject (a b : ObjectSync) : Type 0 where
    pub name : K.name_any a.metadata ≡ K.name_any b.metadata
    pub namespace : a.metadata.namespace ≡ b.metadata.namespace
    pub spec : a.spec ≡ b.spec

  -- `name_any` does not read the resource version, and the answer to a replaced status is the object
  -- that was sent, with its specification: no other party edits it meanwhile.
  pub record KeepsObject : Type 0 where
    pub name_any_stable :
        (m : ObjectMeta) (v : Option String)
        → K.name_any (record m { resource_version = v }) ≡ K.name_any m
    pub same_answer :
        (ns : Option String) (name : String) (pp : PostParams) (o o' : ObjectSync) (w : K.World)
        → (K.replace_sync_status ns name pp o w).0 ≡ ok o'
        → SameObject o' o

  latest_event : (s : Session K) → (latest K s).1.event ≡ s.event
  unfolding latest
  latest_event s = ground arith

  SameObject-trans : (a b c : ObjectSync) → SameObject a b → SameObject b c → SameObject a c
  SameObject-trans a b c p q = ground arith

  update_condition-SameObject :
      (time : String) (c : Condition) (o : ObjectSync) → SameObject (update_condition time c o) o
  unfolding update_condition
  update_condition-SameObject time c o = record { name = refl; namespace = refl; spec = refl }

  update_destinations-SameObject :
      (ds : List DestinationStatus) (o : ObjectSync) → SameObject (update_destinations ds o) o
  unfolding update_destinations
  update_destinations-SameObject ds o = record { name = refl; namespace = refl; spec = refl }

  module _ (keeps : KeepsObject) where
    send_status-SameObject :
        (newest : ObjectSync) (s : Session K)
        → SameObject (send_status K newest s).1.event.modified s.event.modified
    unfolding send_status api_scope
    send_status-SameObject newest s =
        let m = s.event.modified in
        let v = newest.metadata.resource_version in
        let sent = record m { metadata = record m.metadata { resource_version = v } } in
        let ns = api_scope s.event in
        let name = K.name_any sent.metadata in
        let answer = K.replace_sync_status ns name post_params sent s.env.world in
        let stable = keeps.name_any_stable m.metadata v in
        elim (Result-cases answer.0) [
          | inl (o, done) ↦
              let same = keeps.same_answer ns name post_params sent o s.env.world done in
              ground arith
          | inr (e, failed) ↦ ground arith
        ]

    replace_status-SameObject :
        (s : Session K) → SameObject (replace_status K s).1.event.modified s.event.modified
    unfolding replace_status
    replace_status-SameObject s = elim (Result-cases (latest K s).0) [
      | inl (newest, found) ↦
          ground (arith, latest_event s, send_status-SameObject newest (latest K s).1)
      | inr (e, failed) ↦ ground (arith, latest_event s)
    ]

    report_removal-SameObject :
        (ds remaining : List DestinationStatus) (s : Session K)
        → SameObject (report_removal K ds remaining s).1.event.modified s.event.modified
    unfolding report_removal
    report_removal-SameObject ds remaining s =
        let time = K.now s.env.world in
        let c = removal_condition (length remaining) (length ds) in
        let told = update_condition time c s.event.modified in
        let left = update_destinations remaining told in
        let s' = record s { event = record s.event { modified = left } } in
        ground (
          arith,
          update_condition-SameObject time c s.event.modified,
          update_destinations-SameObject remaining told,
          replace_status-SameObject s',
        )

    delete_all_destinations-SameObject :
        (s : Session K) → SameObject (delete_all_destinations K s).1.event.modified s.event.modified
    unfolding delete_all_destinations
    delete_all_destinations-SameObject s =
        elim (Option-cases (status_destinations s.event.modified)) [
          | inl untracked ↦ ground arith
          | inr (ds, tracked) ↦
              let r = delete_destinations K ds s.env in
              elim (Result-cases r.0) [
                | inr (e, failed) ↦ ground arith
                | inl (remaining, done) ↦
                    ground (arith, report_removal-SameObject ds remaining (record s { env = r.1 }))
              ]
        ]

    -- The deletion of copies leaves the identity and the source of the `ObjectSync` as they are.
    pub KeepsObject-Steady : (gvk : GroupVersionKind) (s : Session K) → Steady K gvk s
    unfolding object_sync_ref name_of source_ref_of_sync source_namespace id
    KeepsObject-Steady gvk s = ground (arith, delete_all_destinations-SameObject s)
