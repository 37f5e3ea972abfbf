-- ===== src/ResourceController/Source/Settled.antt =====
-- A run of `reconcile_source` when all is in sync at a server on which no other party acts.
use k8s_object_syncer.Base.{◌≡◌, none, some, List, [], ◌∷◌, All, Option, inr, ok, arith}
use k8s_object_syncer.Kube.Meta.{GroupVersionKind}
use k8s_object_syncer.Kube.Server.{Kube}
use k8s_object_syncer.Kube.Client.{Object}
use k8s_object_syncer.Kube.Storing.{Reads}
use k8s_object_syncer.Api.Types.{DestinationStatus, ObjectRevision}
use k8s_object_syncer.Api.Destination.{revision_of}
use k8s_object_syncer.Api.Status.{status_destinations}
use k8s_object_syncer.Api.Status.Order.{sort}
use k8s_object_syncer.Api.Status.Order.Sorted.{All-sort}
use k8s_object_syncer.Utils.Names.{NamespacedName}
use k8s_object_syncer.Modifications.{Session}
use k8s_object_syncer.ResourceController.Upsert.Idle.{IsRead}
use k8s_object_syncer.ResourceController.Upsert.Brought.{Synced}
use k8s_object_syncer.ResourceController.Upsert.Settles.{Settled}
use k8s_object_syncer.ResourceController.Upsert.Converges.{upsert_destinations-Settled}
use k8s_object_syncer.ResourceController.Source.{
  sync_condition, report, upsert_tracked, reconcile_source,
}
use k8s_object_syncer.ResourceController.Source.Steady.{
  TracksTargets, track_destinations_steady, update_destinations_tracked,
}

module _ (K : Kube) (gvk : GroupVersionKind)
    (view : K.World → NamespacedName → Option (Object K)) where
  All-Settled :
      (src : ObjectRevision) (w : K.World) (ds : List DestinationStatus)
      → All (Synced K gvk view src w) ds
      → All (Settled K gvk view src [] w) ds
  All-Settled src w [] all = tt
  All-Settled src w (d ∷ ds) (h, all) = (inr h, All-Settled src w ds all)

  upsert_tracked_settled :
      (source : Object K) (ds : List DestinationStatus) (s : Session K)
      → Reads K (K.from_gvk gvk.group gvk.version gvk.kind) view
      → status_destinations s.event.modified ≡ some ds
      → All (Synced K gvk view (revision_of source.metadata) s.env.world) ds
      → All (IsRead K) s.env.calls
      → ((upsert_tracked K gvk source [] 0 s).0 ≡ ok none)
        × ((upsert_tracked K gvk source [] 0 s).1.event ≡ s.event)
        × All (IsRead K) (upsert_tracked K gvk source [] 0 s).1.env.calls
  unfolding upsert_tracked sync_condition
  upsert_tracked_settled source ds s server tracked synced reads =
      let settled = All-Settled (revision_of source.metadata) s.env.world ds synced in
      ground (
        arith,
        upsert_destinations-Settled K gvk view source ds [] s.env server settled reads,
        update_destinations_tracked ds s.event.modified tracked,
      )

  -- At a server that answers what it stores while no other party acts: if the stored status tracks
  -- what the targets ask for now, no two of them with one namespace and name, and each copy is
  -- stored as it was last written, from the present revision of the source, and not being deleted,
  -- then a run succeeds, leaves the `ObjectSync` as it is, and only reads.
  pub reconcile_source_settled :
      (source : Object K) (l : List DestinationStatus) (s : Session K)
      → Reads K (K.from_gvk gvk.group gvk.version gvk.kind) view
      → TracksTargets K gvk l s
      → All (Synced K gvk view (revision_of source.metadata) s.env.world) l
      → All (IsRead K) s.env.calls
      → ((reconcile_source K gvk source s).0 ≡ ok tt)
        × ((reconcile_source K gvk source s).1.event ≡ s.event)
        × All (IsRead K) (reconcile_source K gvk source s).1.env.calls
  unfolding reconcile_source report
  reconcile_source_settled source l s server h synced reads =
      let src = revision_of source.metadata in
      let all = All-sort (Synced K gvk view src s.env.world) l synced in
      ground (
        arith,
        track_destinations_steady K gvk l s h,
        upsert_tracked_settled source (sort l) s server h.tracked all reads,
      )
