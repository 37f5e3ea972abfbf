-- ===== src/ObjectSyncController/Cleanup.antt =====
-- `ObjectSyncController::delete_destinations`: all tracked copies of an `ObjectSync` go, and its
-- status says which of them are left.
pub mod Accepted
use k8s_object_syncer.Base.{
  ℕ, ltb, String, ◌<>◌, true, false, none, some, List, length, if◌then◌else◌, pure, fail, ◌>>=◌,
  ◌>>◌,
}
use k8s_object_syncer.Base.Decimal.{decimal}
use k8s_object_syncer.Kube.Server.{Kube}
use k8s_object_syncer.Kube.Client.{now}
use k8s_object_syncer.Api.Types.{Condition, DestinationStatus}
use k8s_object_syncer.Api.Status.{
  new_condition, update_condition, update_destinations, status_destinations,
}
use k8s_object_syncer.Errors.{ControllerError, destination_removal_error}
use k8s_object_syncer.Utils.Names.{display_name}
use k8s_object_syncer.Utils.Deletion.{delete_destinations}
use k8s_object_syncer.Modifications.{Act, on_env, the_event, modify, id, replace_status}

abbrev pub ready : String
ready = "Ready"

abbrev pub in_sync : String
in_sync = "InSync"

abbrev pub success : String
success = "Success"

abbrev pub failure : String
failure = "Failure"

-- The condition that reports on a removal of `total` copies with `remaining` left.
unfoldable pub removal_condition : ℕ → ℕ → Condition
unfolding decimal new_condition
removal_condition remaining total =
    if ltb 0 remaining
    then new_condition in_sync (some false) failure (
        "failed to remove "
        <> decimal remaining
        <> " out of "
        <> decimal total
        <> " destination objects")
    else new_condition in_sync (some true) success
        ("successfully removed all " <> decimal total <> " destination objects")

module _ (K : Kube) where
  -- What follows once the copies have been deleted as far as possible.
  unfoldable pub report_removal :
      List DestinationStatus → List DestinationStatus → Act K ControllerError (Unit {0})
  report_removal destinations remaining = do
    time ← on_env K (now K)
    modify K (update_condition time (removal_condition (length remaining) (length destinations)))
    modify K (update_destinations remaining)
    replace_status K
    m ← the_event K
    if ltb 0 (length remaining)
        then fail (
            destination_removal_error (
              "failed to deleted "
              <> decimal (length remaining)
              <> " out of "
              <> decimal (length destinations)
              <> " destinations of "
              <> display_name (id K m)))
        else pure tt

  unfoldable pub delete_all_destinations : Act K ControllerError (Unit {0})
  delete_all_destinations = do
    m ← the_event K
    elim (status_destinations m.modified) [
      | none ↦ pure tt
      | some destinations ↦ do
        remaining ← on_env K (delete_destinations K destinations)
        report_removal destinations remaining
    ]
