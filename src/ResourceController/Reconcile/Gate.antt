-- ===== src/ResourceController/Reconcile/Gate.antt =====
-- When the resource controller lets go of a source that is being deleted.
use mathlib.Core.Path.{subst}
use k8s_object_syncer.Base.{◌≡◌, sym, ◌⊎◌, true, some, List, [], ◌∷◌, Any, All, In, ok, arith}
use k8s_object_syncer.Kube.Meta.{GroupVersionKind}
use k8s_object_syncer.Kube.Server.{Kube}
use k8s_object_syncer.Kube.Client.{Object, Env, Call}
use k8s_object_syncer.Api.Types.{DestinationStatus}
use k8s_object_syncer.Api.Status.{status_destinations}
use k8s_object_syncer.Utils.Names.{SourceRef}
use k8s_object_syncer.Utils.Deletion.Remnants.{AcceptsDeletion, Handles}
use k8s_object_syncer.Utils.Deletion.Released.{SeesTo}
use k8s_object_syncer.Modifications.{Session, ObjectSyncModifications}
use k8s_object_syncer.ObjectSyncController.Cleanup.{delete_all_destinations}
use k8s_object_syncer.ObjectSyncController.Cleanup.Accepted.{
  Any-delete_all_destinations, delete_all_destinations-accepted,
}
use k8s_object_syncer.ResourceController.Reconcile.{delete_for_all, source_deleted}

module _ (K : Kube) where
  Any-delete_for_all :
      (P : Call K → Type 0) (ms : List ObjectSyncModifications) (s : Env K)
      → Any P s.calls
      → Any P (delete_for_all K ms s).1.calls
  unfolding delete_for_all
  Any-delete_for_all P [] s h = h
  Any-delete_for_all P (m ∷ ms) s h =
      let s' : Session K = record { env = s; event = m } in
      ground (
        arith,
        Any-delete_all_destinations K P s' h,
        Any-delete_for_all P ms (delete_all_destinations K s').1.env,
      )

  -- For every copy that the `ObjectSync` tracks the server has accepted the deletion or has no such
  -- object, and the finalizer has been seen to.
  abbrev pub AllHandled : List (Call K) → ObjectSyncModifications → Type 0
  AllHandled calls m =
      (ds : List DestinationStatus) (d : DestinationStatus)
      → status_destinations m.modified ≡ some ds
      → In d ds
      → Handles K calls d

  abbrev session : ObjectSyncModifications → Env K → Session K
  session m s = record { env = s; event = m }

  delete_for_all_env :
      (m : ObjectSyncModifications) (ms : List ObjectSyncModifications) (s : Env K)
      → (delete_for_all K (m ∷ ms) s).1
        ≡ (delete_for_all K ms (delete_all_destinations K (session m s)).1.env).1
  unfolding delete_for_all
  delete_for_all_env m ms s = ground arith

  delete_for_all-true :
      (m : ObjectSyncModifications) (ms : List ObjectSyncModifications) (s : Env K)
      → (delete_for_all K (m ∷ ms) s).0 ≡ ok true
      → ((delete_all_destinations K (session m s)).0 ≡ ok tt)
        × ((delete_for_all K ms (delete_all_destinations K (session m s)).1.env).0 ≡ ok true)
  unfolding delete_for_all
  delete_for_all-true m ms s h = ground arith

  delete_for_all-accepted :
      (ms : List ObjectSyncModifications) (s : Env K)
      → (delete_for_all K ms s).0 ≡ ok true
      → All (AllHandled (delete_for_all K ms s).1.calls) ms
  delete_for_all-accepted [] s h = tt
  delete_for_all-accepted (m ∷ ms) s h =
      let (now, later) = delete_for_all-true m ms s h in
      let t = (delete_all_destinations K (session m s)).1.env in
      subst (λ (e : Env K). All (AllHandled e.calls) (m ∷ ms)) (sym (delete_for_all_env m ms s))
        (
          λ ds d tracked i.
              let (accepted, seen) =
                delete_all_destinations-accepted K (session m s) ds d now tracked i in
              (
                Any-delete_for_all (AcceptsDeletion K d) ms t accepted,
                Any-delete_for_all (SeesTo K d) ms t seen,
              ),
          delete_for_all-accepted ms t later,
        )

  -- A source that is being deleted keeps its finalizer until every copy that some `ObjectSync`
  -- tracks has been handled, or the controller stops after the attempts to delete them and asks
  -- nothing more.
  pub source_deleted-gated :
      (gvk : GroupVersionKind) (source_ref : SourceRef) (source : Object K)
      (ms : List ObjectSyncModifications) (s : Env K)
      → All (AllHandled (delete_for_all K ms s).1.calls) ms
        ⊎ ((source_deleted K gvk source_ref source ms s).1 ≡ (delete_for_all K ms s).1)
  unfolding source_deleted
  source_deleted-gated gvk source_ref source ms s = ground (arith, delete_for_all-accepted ms s)
