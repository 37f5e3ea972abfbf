-- ===== src/ObjectSyncController/Reconcile/Gate.antt =====
-- When the `ObjectSync` controller lets go of an `ObjectSync` that is being deleted.
use k8s_object_syncer.Base.{◌≡◌, ◌⊎◌, inl, inr, err, arith, Result-cases}
use k8s_object_syncer.Kube.Server.{Kube}
use k8s_object_syncer.Errors.{ControllerError}
use k8s_object_syncer.Modifications.{Session}
use k8s_object_syncer.ObjectSyncController.Cleanup.{delete_all_destinations}
use k8s_object_syncer.ObjectSyncController.Cleanup.Accepted.{delete_all_destinations-accepted}
use k8s_object_syncer.ObjectSyncController.Reconcile.{delete_copies}
use k8s_object_syncer.ResourceController.Reconcile.Gate.{AllHandled}

module _ (K : Kube) where
  -- A deleted `ObjectSync` and its source keep their finalizers until all its copies have been
  -- handled. Either for every copy that its status tracks the server has accepted the deletion or
  -- has answered that there is no such object, and the patch was sent that takes the finalizer off
  -- the copy (unless the copy was read and was not there, had no such finalizer or could not be
  -- serialised); or the run ends with the error of that deletion and does nothing more.
  pub delete_copies-gated :
      (s : Session K)
      → AllHandled K (delete_all_destinations K s).1.env.calls s.event
        ⊎ ((e : ControllerError) × (delete_all_destinations K s).0 ≡ err e
            × (delete_copies K s ≡ (err e, (delete_all_destinations K s).1)))
  unfolding delete_copies
  delete_copies-gated s = elim (Result-cases (delete_all_destinations K s).0) [
    | inl (_, done) ↦
        inl (λ ds d tracked i. delete_all_destinations-accepted K s ds d done tracked i)
    | inr (e, failed) ↦ inr (e, failed, ground arith)
  ]
