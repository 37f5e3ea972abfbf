-- ===== src/Utils/Deletion.antt =====
-- `delete_destinations`: the tracked copies are deleted one by one.
pub mod Released
pub mod Remnants
pub mod Quiet
pub mod Round
pub mod Clears
use k8s_object_syncer.Base.{
  some, List, [], ◌∷◌, ◌++◌, if◌then◌else◌, ok, err, pure, fail, attempt, ◌>>=◌, ◌>>◌,
}
use k8s_object_syncer.Kube.Meta.{GroupVersionKind}
use k8s_object_syncer.Kube.Server.{Kube, Api}
use k8s_object_syncer.Kube.Client.{Io, get, delete}
use k8s_object_syncer.Api.Types.{DestinationStatus}
use k8s_object_syncer.Errors.{ControllerError, kube_api, is_not_found}
use k8s_object_syncer.Utils.Names.{finalizer_name, ensure_gvk}
use k8s_object_syncer.Utils.Finalizers.{remove_finalizer}

abbrev pub gvk_of : DestinationStatus → GroupVersionKind
gvk_of d = record { group = d.group; version = d.version; kind = d.kind }

module _ (K : Kube) where
  -- `Api::namespaced_with(client, namespace, &ApiResource::from_gvk(&gvk))`
  abbrev pub destination_api : DestinationStatus → Api
  destination_api d = record {
    resource = K.from_gvk d.group d.version d.kind;
    namespace = some d.namespace;
  }

  -- The first half of the loop's body: a failure to remove the finalizer is only logged.
  unfoldable pub release_destination : DestinationStatus → Io K ControllerError (Unit {0})
  release_destination d = do
    found ← attempt (get K (destination_api d) d.name)
    elim found [
      | ok v ↦ do
        _ ← remove_finalizer K (destination_api d) (ensure_gvk K v (gvk_of d)) finalizer_name
        pure tt
      | err e ↦ if is_not_found e then pure tt else fail (kube_api e)
    ]

  -- The second half: the remnants so far, with the destination if it could not be deleted.
  unfoldable pub delete_destination :
      DestinationStatus → List DestinationStatus → Io K ControllerError (List DestinationStatus)
  delete_destination d errors = do
    deleted ← attempt (delete K (destination_api d) d.name)
    elim deleted [
      | ok _ ↦ pure errors
      | err e ↦ if is_not_found e then pure errors else pure (errors ++ d ∷ [])
    ]

  -- The loop over the destinations, with the remnants collected so far.
  pub delete_loop :
      List DestinationStatus
      → List DestinationStatus
      → Io K ControllerError (List DestinationStatus)
  delete_loop [] errors = pure errors
  delete_loop (d ∷ destinations) errors = do
    release_destination d
    errors' ← delete_destination d errors
    delete_loop destinations errors'

  -- The destinations that could not be deleted; any other error ends the loop.
  unfoldable pub delete_destinations :
      List DestinationStatus → Io K ControllerError (List DestinationStatus)
  unfolding delete_loop
  delete_destinations destinations = delete_loop destinations []
