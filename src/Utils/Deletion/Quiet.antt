-- ===== src/Utils/Deletion/Quiet.antt =====
-- Deleting the tracked copies writes no object.
use k8s_object_syncer.Base.{String, List, [], ◌∷◌, All, arith}
use k8s_object_syncer.Kube.Server.{Kube, Api}
use k8s_object_syncer.Kube.Client.{Object, Env, Call}
use k8s_object_syncer.Kube.Writes.{QuietOr}
use k8s_object_syncer.Api.Types.{DestinationStatus}
use k8s_object_syncer.Utils.Finalizers.{remove_finalizer}
use k8s_object_syncer.Utils.Deletion.{
  release_destination, delete_destination, delete_loop, delete_destinations,
}

module _ (K : Kube) (R : Call K → Type 0) where
  remove_finalizer-Quiet :
      (api : Api) (o : Object K) (f : String) (s : Env K)
      → All (QuietOr K R) s.calls
      → All (QuietOr K R) (remove_finalizer K api o f s).1.calls
  unfolding remove_finalizer
  remove_finalizer-Quiet api o f s all = ground arith

  release_destination-Quiet :
      (d : DestinationStatus) (s : Env K)
      → All (QuietOr K R) s.calls
      → All (QuietOr K R) (release_destination K d s).1.calls
  unfolding release_destination
  release_destination-Quiet d s all = grind (arith, remove_finalizer-Quiet)

  delete_destination-Quiet :
      (d : DestinationStatus) (errors : List DestinationStatus) (s : Env K)
      → All (QuietOr K R) s.calls
      → All (QuietOr K R) (delete_destination K d errors s).1.calls
  unfolding delete_destination
  delete_destination-Quiet d errors s all = ground arith

  delete_loop-Quiet :
      (ds errors : List DestinationStatus) (s : Env K)
      → All (QuietOr K R) s.calls
      → All (QuietOr K R) (delete_loop K ds errors s).1.calls
  unfolding delete_loop
  delete_loop-Quiet [] errors s all = all
  delete_loop-Quiet (d ∷ ds) errors s all =
      grind (arith, release_destination-Quiet, delete_destination-Quiet, delete_loop-Quiet ds)

  pub delete_destinations-Quiet :
      (ds : List DestinationStatus) (s : Env K)
      → All (QuietOr K R) s.calls
      → All (QuietOr K R) (delete_destinations K ds s).1.calls
  unfolding delete_destinations
  delete_destinations-Quiet ds s all = delete_loop-Quiet ds [] s all
