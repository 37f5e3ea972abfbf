-- ===== src/ObjectSyncController/Cleanup/Accepted.antt =====
-- What the server was asked, and answered, when `ObjectSyncController::delete_destinations` succeeds.
use k8s_object_syncer.Base.{
  ◌≡◌, refl, inl, inr, some, List, [], ◌∷◌, Any, In, ok, arith, Result-cases, Option-cases,
}
use k8s_object_syncer.Kube.Server.{Kube}
use k8s_object_syncer.Kube.Client.{Call}
use k8s_object_syncer.Api.Types.{DestinationStatus}
use k8s_object_syncer.Api.Status.{status_destinations}
use k8s_object_syncer.Utils.Deletion.{delete_destinations}
use k8s_object_syncer.Utils.Deletion.Remnants.{
  AcceptsDeletion, Handles, delete_destinations-accounts, Any-delete_destinations,
}
use k8s_object_syncer.Utils.Deletion.Released.{SeesTo}
use k8s_object_syncer.Modifications.{Session, replace_status}
use k8s_object_syncer.ObjectSyncController.Cleanup.{report_removal, delete_all_destinations}

module _ (K : Kube) (P : Call K → Type 0) where
  pub Any-replace_status :
      (s : Session K) → Any P s.env.calls → Any P (replace_status K s).1.env.calls
  unfolding replace_status
  Any-replace_status s h = ground arith

  Any-report_removal :
      (ds remaining : List DestinationStatus) (s : Session K)
      → Any P s.env.calls
      → Any P (report_removal K ds remaining s).1.env.calls
  unfolding report_removal
  Any-report_removal ds remaining s h = grind (arith, Any-replace_status)

  pub Any-delete_all_destinations :
      (s : Session K) → Any P s.env.calls → Any P (delete_all_destinations K s).1.env.calls
  unfolding delete_all_destinations
  Any-delete_all_destinations s h = elim (Option-cases (status_destinations s.event.modified)) [
    | inl untracked ↦ ground arith
    | inr (ds, tracked) ↦
        let r = delete_destinations K ds s.env in
        let deleted = Any-delete_destinations K P ds s.env h in
        elim (Result-cases r.0) [
          | inr (e, failed) ↦ ground arith
          | inl (remaining, done) ↦
              ground (arith, Any-report_removal ds remaining (record s { env = r.1 }) deleted)
        ]
  ]

module _ (K : Kube) where
  report_removal_ok :
      (ds remaining : List DestinationStatus) (s : Session K)
      → (report_removal K ds remaining s).0 ≡ ok tt
      → remaining ≡ []
  unfolding report_removal
  report_removal_ok ds [] s h = refl
  report_removal_ok ds (d ∷ remaining) s h = ground arith

  -- Once the removal is reported as a success, for every copy that the status tracked the server has
  -- accepted the deletion or has answered that there is no such object; and the patch was sent that
  -- takes the finalizer off, unless the copy was read and was not there, had no such finalizer or
  -- could not be serialised.
  pub delete_all_destinations-accepted :
      (s : Session K) (ds : List DestinationStatus) (d : DestinationStatus)
      → (delete_all_destinations K s).0 ≡ ok tt
      → status_destinations s.event.modified ≡ some ds
      → In d ds
      → Handles K (delete_all_destinations K s).1.env.calls d
  unfolding delete_all_destinations
  delete_all_destinations-accepted s ds d h tracked i =
      elim (Result-cases (delete_destinations K ds s.env).0) [
        | inr (e, failed) ↦ ground arith
        | inl (remaining, done) ↦
            let t = record s { env = (delete_destinations K ds s.env).1 } in
            ground (
              arith,
              report_removal_ok ds remaining t,
              delete_destinations-accounts K ds remaining s.env d done i,
              Any-report_removal K (AcceptsDeletion K d) ds remaining t,
              Any-report_removal K (SeesTo K d) ds remaining t,
            )
      ]
