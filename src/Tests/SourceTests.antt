-- ===== src/Tests/SourceTests.antt =====
-- The theorems about `reconcile_source`, `replace_status` and `reconcile` at a concrete
-- cluster.
use k8s_object_syncer.Base.{
  ℕ, List, some, none, Returns, ◌≡◌, [], ◌∷◌, All, ok, err, refl, string_eq,
}
use k8s_object_syncer.Errors.{ControllerError}
use k8s_object_syncer.Modifications.{Session, status_has_changed, replace_status}
use k8s_object_syncer.ResourceController.Source.{track_destinations, reconcile_source}
use k8s_object_syncer.ResourceController.Source.Tracking.{
  WritesTracked, tracked, planned, reconcile_source-WritesTracked,
}
use k8s_object_syncer.Modifications.Replace.{IsStored}
use k8s_object_syncer.Api.Types.{DestinationStatus}
use k8s_object_syncer.Kube.Server.{Kube}
use k8s_object_syncer.ResourceController.Lookup.Matching.{Finds}
use k8s_object_syncer.ResourceController.Reconcile.{reconcile}
use k8s_object_syncer.ResourceController.Reconcile.Releases.{Careful, reconcile-Careful}
use k8s_object_syncer.ResourceController.Lookup.{lookup_object_syncs_for_source}
use k8s_object_syncer.ResourceController.Registry.{Sources}
use k8s_object_syncer.Utils.Names.{source_ref_of_object}
use k8s_object_syncer.Kube.Client.{Env}
use k8s_object_syncer.Tests.Cluster.{Obj, cluster, json_eq}
use k8s_object_syncer.Tests.Samples.{
  config_map, source, copy_in, everywhere, tracking, session, modifications, world,
}

reconcile_source-WritesTracked_example :
    All
      (WritesTracked cluster config_map
        (tracked {K = cluster} (track_destinations cluster config_map (session everywhere)).1))
      (reconcile_source cluster config_map source (session everywhere)).1.env.calls
    × ((e : ControllerError)
        → (track_destinations cluster config_map (session everywhere)).0 ≡ err e
        → All
            (WritesTracked cluster config_map [])
            (reconcile_source cluster config_map source (session everywhere)).1.env.calls)
    × ((remnants : List DestinationStatus) (n : ℕ)
        → (track_destinations cluster config_map (session everywhere)).0 ≡ ok (remnants, n)
        → IsStored cluster
            (planned cluster config_map (session everywhere) remnants)
            (track_destinations cluster config_map (session everywhere)).1.event)
reconcile_source-WritesTracked_example =
    reconcile_source-WritesTracked cluster config_map source (session everywhere) tt

-- With a new destination in the status.
abbrev grown : Session cluster
grown = record (session everywhere) {
  event = record (modifications everywhere) { modified = tracking (copy_in "a" ∷ []) };
}

stored : (replace_status cluster grown).0 ≡ ok tt
unfolding status_has_changed replace_status string_eq json_eq
stored = refl

-- The source is being deleted while its copy in another namespace is tracked.
abbrev going : Obj
going = record source { metadata = record source.metadata { deletion_timestamp = some 5 } }

abbrev sources : Sources
sources =
    (
      record { name = "me"; namespace = "default" },
      record { name = "distributor"; namespace = "default" } ∷ [],
    )
    ∷ []

-- Every read of an `ObjectSync` finds the same one.
abbrev constant : Kube
constant = record cluster { get_sync = λ ns name w. (ok (tracking (copy_in "a" ∷ [])), w) }

abbrev tracking_env : Env constant
tracking_env = record { world = world; calls = [] }

reconcile-Careful_example :
    Returns
      (λ found.
        Finds
          (λ ns name. ok (tracking (copy_in "a" ∷ [])))
          none
          sources
          (source_ref_of_object constant going)
          found
        × Careful constant going
            (lookup_object_syncs_for_source constant none sources
              (source_ref_of_object constant going)
              tracking_env).1
            (reconcile constant config_map none sources going tracking_env).1
            found)
      (lookup_object_syncs_for_source constant none sources
        (source_ref_of_object constant going)
        tracking_env).0
reconcile-Careful_example =
    reconcile-Careful constant going (λ ns name. ok (tracking (copy_in "a" ∷ []))) config_map none
      sources tracking_env (λ ns name w. refl)
