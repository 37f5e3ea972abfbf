-- ===== src/ResourceController/Source/Steady.antt =====
-- A run of `reconcile_source` when all is in sync.
use mathlib.Core.List.{append-nil}
use k8s_object_syncer.Base.{◌≡◌, refl, false, none, some, List, [], All, ok, arith}
use k8s_object_syncer.Kube.Meta.{GroupVersionKind}
use k8s_object_syncer.Kube.Server.{Kube}
use k8s_object_syncer.Kube.Client.{Object}
use k8s_object_syncer.Api.Types.{DestinationStatus, ObjectSync}
use k8s_object_syncer.Api.Destination.{revision_of}
use k8s_object_syncer.Api.Status.{update_destinations, status_destinations}
use k8s_object_syncer.Api.Status.Order.{sort}
use k8s_object_syncer.Api.Status.Order.Sorted.{All-sort}
use k8s_object_syncer.Utils.Deletion.{delete_destinations}
use k8s_object_syncer.Modifications.{Session, status_has_changed, replace_status}
use k8s_object_syncer.ResourceController.Expected.{expected_destinations}
use k8s_object_syncer.ResourceController.Upsert.Idle.{InSync, IsRead, upsert_destinations_steady}
use k8s_object_syncer.ResourceController.Source.{
  sync_condition, report, track_destinations, upsert_tracked, reconcile_source,
}
use k8s_object_syncer.ResourceController.Source.Plan.Again.{
  AllApart, AllFit, plan_destinations-again,
}

pub update_destinations_tracked :
    (ds : List DestinationStatus) (obj : ObjectSync)
    → status_destinations obj ≡ some ds
    → update_destinations ds obj ≡ obj
unfolding update_destinations status_destinations
update_destinations_tracked ds obj h = ground arith

module _ (K : Kube) (gvk : GroupVersionKind) where
  replace_status_unchanged :
      (s : Session K) → status_has_changed K s.event ≡ ok false → replace_status K s ≡ (ok tt, s)
  unfolding replace_status
  replace_status_unchanged s h = ground arith

  delete_nothing : (s : Session K) → delete_destinations K [] s.env ≡ (ok [], s.env)
  unfolding delete_destinations
  delete_nothing s = refl

  -- What the `ObjectSync` in memory tracks is what its targets ask for now, in sorted order, and
  -- its status has no change that is yet to be stored.
  pub record TracksTargets (l : List DestinationStatus) (s : Session K) : Type 0 where
    pub apart : AllApart (expected_destinations K s.event.modified (K.namespaces s.env.world))
    pub fits : AllFit gvk (expected_destinations K s.event.modified (K.namespaces s.env.world)) l
    pub tracked : status_destinations s.event.modified ≡ some (sort l)
    pub stored : status_has_changed K s.event ≡ ok false

  pub track_destinations_steady :
      (l : List DestinationStatus) (s : Session K)
      → TracksTargets l s
      → track_destinations K gvk s ≡ (ok ([], 0), s)
  unfolding track_destinations
  track_destinations_steady l s h =
      let m = s.event.modified in
      let targets = expected_destinations K m (K.namespaces s.env.world) in
      ground (
        arith,
        plan_destinations-again gvk K m targets l h.apart h.fits h.tracked,
        delete_nothing s,
        h.tracked,
        append-nil l,
        update_destinations_tracked (sort l) m h.tracked,
        replace_status_unchanged s h.stored,
      )

  upsert_tracked_steady :
      (source : Object K) (ds : List DestinationStatus) (s : Session K)
      → status_destinations s.event.modified ≡ some ds
      → All (InSync K gvk (revision_of source.metadata)) ds
      → All (IsRead K) s.env.calls
      → ((upsert_tracked K gvk source [] 0 s).0 ≡ ok none)
        × ((upsert_tracked K gvk source [] 0 s).1.event ≡ s.event)
        × All (IsRead K) (upsert_tracked K gvk source [] 0 s).1.env.calls
  unfolding upsert_tracked sync_condition
  upsert_tracked_steady source ds s tracked synced reads = ground (
    arith,
    upsert_destinations_steady K gvk source ds [] s.env synced reads,
    update_destinations_tracked ds s.event.modified tracked,
  )

  -- If the stored status tracks what the targets ask for now, no two of them with one namespace and
  -- name, and each copy is there as it was last written and from the present revision of the
  -- source, then a run succeeds, leaves the `ObjectSync` as it is, and only reads: nothing is
  -- written, deleted or reported.
  pub reconcile_source_steady :
      (source : Object K) (l : List DestinationStatus) (s : Session K)
      → TracksTargets l s
      → All (InSync K gvk (revision_of source.metadata)) l
      → All (IsRead K) s.env.calls
      → ((reconcile_source K gvk source s).0 ≡ ok tt)
        × ((reconcile_source K gvk source s).1.event ≡ s.event)
        × All (IsRead K) (reconcile_source K gvk source s).1.env.calls
  unfolding reconcile_source report
  reconcile_source_steady source l s h synced reads =
      let in_sync = All-sort (InSync K gvk (revision_of source.metadata)) l synced in
      ground (
        arith,
        track_destinations_steady l s h,
        upsert_tracked_steady source (sort l) s h.tracked in_sync reads,
      )
