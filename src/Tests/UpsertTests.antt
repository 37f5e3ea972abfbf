-- ===== src/Tests/UpsertTests.antt =====
-- The theorems about `upsert_destinations` at a concrete cluster.
use k8s_object_syncer.Base.{
  ◌≡◌, ◌≤◌, ◌+◌, ◌*◌, length, false, List, [], ◌∷◌, All, Returns, ok, err, arith,
}
use k8s_object_syncer.Kube.Meta.{api}
use k8s_object_syncer.Kube.Server.{Kube}
use k8s_object_syncer.Kube.Client.{Env}
use k8s_object_syncer.Errors.{is_not_found}
use k8s_object_syncer.Api.Types.{DestinationStatus}
use k8s_object_syncer.Api.Destination.{revision_of}
use k8s_object_syncer.ResourceController.Upsert.{upsert_destinations, expected_success}
use k8s_object_syncer.ResourceController.Upsert.Outcome.{
  Current, Treated, Pointwise, upsert_destinations-bound, upsert_destinations_complete,
  upsert_destinations-Treated,
}
use k8s_object_syncer.ResourceController.Upsert.Writes.{
  WritesWanted, upsert_destinations-WritesWanted,
}
use k8s_object_syncer.ResourceController.Upsert.Calls.{upsert_destinations-calls}
use k8s_object_syncer.ResourceController.Upsert.Progresses.{Accepts, upsert_destinations_succeeds}
use k8s_object_syncer.Tests.Cluster.{cluster}
use k8s_object_syncer.Tests.Samples.{config_map, source, copy_in, env, world}

abbrev copies : List DestinationStatus
copies = copy_in "a" ∷ copy_in "b" ∷ []

abbrev remnants : List DestinationStatus
remnants = copy_in "b" ∷ []

upsert_destinations-bound_example :
    Returns
      (λ u. (u.observed ≤ u.expected) × (u.expected ≡ expected_success remnants copies))
      (upsert_destinations cluster config_map source copies remnants env).0
upsert_destinations-bound_example =
    upsert_destinations-bound cluster config_map source copies remnants env

upsert_destinations_complete_example :
    Returns
      (λ u.
        u.observed ≡ u.expected
        → All (Current (revision_of source.metadata) remnants) u.destinations)
      (upsert_destinations cluster config_map source copies remnants env).0
upsert_destinations_complete_example =
    upsert_destinations_complete cluster config_map source copies remnants env

upsert_destinations-Treated_example :
    Returns
      (λ u.
        Pointwise (Treated (revision_of source.metadata) remnants) copies u.destinations
        × (u.changed ≡ false → u.destinations ≡ copies))
      (upsert_destinations cluster config_map source copies remnants env).0
upsert_destinations-Treated_example =
    upsert_destinations-Treated cluster config_map source copies remnants env

upsert_destinations-WritesWanted_example :
    All
      (WritesWanted cluster config_map remnants copies)
      (upsert_destinations cluster config_map source copies remnants env).1.calls
upsert_destinations-WritesWanted_example =
    upsert_destinations-WritesWanted cluster config_map source copies remnants env tt

upsert_destinations-calls_example :
    length (upsert_destinations cluster config_map source copies remnants env).1.calls
    ≤ length env.calls + 9 * expected_success remnants copies
upsert_destinations-calls_example =
    upsert_destinations-calls cluster config_map source copies remnants env

-- A cluster where nothing is yet, and that takes all that is written.
abbrev open_cluster : Kube
open_cluster = record cluster {
  get = λ a name w. (err (api 404 "not found"), w);
  create = λ a pp o w. (ok o, w);
  replace = λ a name pp o w. (ok o, w);
  patch = λ a name pp p w. (ok source, w);
}

open_cluster-Accepts : Accepts open_cluster
unfolding is_not_found
open_cluster-Accepts = record {
  stays = λ a name w o h. ground arith;
  missing = λ a name w e h. ground arith;
  creates = λ a pp o w. tt;
  replaces = λ a name pp o w. tt;
  patches = λ a name pp p w. tt;
}

abbrev open_env : Env open_cluster
open_env = record { world = world; calls = [] }

upsert_destinations_succeeds_example :
    Returns
      (λ u.
        (u.observed ≡ u.expected)
        × All (Current (revision_of source.metadata) remnants) u.destinations)
      (upsert_destinations open_cluster config_map source copies remnants open_env).0
upsert_destinations_succeeds_example =
    upsert_destinations_succeeds open_cluster open_cluster-Accepts config_map source copies remnants
      open_env
