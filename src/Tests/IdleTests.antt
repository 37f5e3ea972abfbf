-- ===== src/Tests/IdleTests.antt =====
-- Runs of `upsert_destinations` that write nothing, at concrete clusters.
use native.Mathlib.Decide.{ℕ_discrete}
use k8s_object_syncer.Base.{
  String, String-discrete, string_eq, ◌≡◌, refl, none, some, List, [], ◌∷◌, All, ok, err,
}
use k8s_object_syncer.Kube.Meta.{api}
use k8s_object_syncer.Kube.Server.{Kube}
use k8s_object_syncer.Api.Types.{DestinationStatus}
use k8s_object_syncer.Api.Destination.{revision_of}
use k8s_object_syncer.Api.Status.{status_destinations}
use k8s_object_syncer.Errors.{is_not_found, is_conflict}
use k8s_object_syncer.Modifications.{Session, status_has_changed}
use k8s_object_syncer.ResourceController.Upsert.{upsert_destinations}
use k8s_object_syncer.ResourceController.Upsert.Idle.{
  IsRead, Refuses, untouched, upsert_tracked_refused,
}
use k8s_object_syncer.ResourceController.Source.{upsert_tracked, fresh_status, reconcile_source}
use k8s_object_syncer.ResourceController.Source.Steady.{TracksTargets}
use k8s_object_syncer.ResourceController.Expected.{expected_destinations}
use k8s_object_syncer.Api.Destination.{applies_to}
use k8s_object_syncer.Api.Status.Order.{sort}
use k8s_object_syncer.Base.Dict
use k8s_object_syncer.Utils.Names.{key_of, name_eq}
use k8s_object_syncer.ResourceController.Source.Settled.{reconcile_source_settled}
use k8s_object_syncer.Tests.ConvergesTests.{objects_of, reads}
use k8s_object_syncer.Tests.Cluster.{Obj, json_eq, cluster}
use k8s_object_syncer.Tests.Samples.{config_map, source, copy_in, world, tracking, modifications}

abbrev stored : Obj
stored = record source {
  metadata = record source.metadata { uid = some "c"; resource_version = some "3" };
}

abbrev synced_in : String → DestinationStatus
synced_in namespace = record (copy_in namespace) {
  synced_version = some (revision_of stored.metadata);
  source_version = some (revision_of source.metadata);
}

-- The copy in the one namespace that is neither the source's own nor about to go.
abbrev settled_session : Session cluster
settled_session = record {
  env = record {
    world = record world { objects = (key_of (copy_in "a"), stored) ∷ world.objects };
    calls = [];
  };
  event = modifications (tracking (synced_in "a" ∷ []));
}

tracks_settled : TracksTargets cluster config_map (synced_in "a" ∷ []) settled_session
unfolding expected_destinations applies_to string_eq sort status_destinations status_has_changed
    fresh_status json_eq
tracks_settled = record { apart = (tt, tt); fits = (refl, tt); tracked = refl; stored = refl }

reconcile_source_settled_example :
    ((reconcile_source cluster config_map source settled_session).0 ≡ ok tt)
    × ((reconcile_source cluster config_map source settled_session).1.event ≡ settled_session.event)
    × All (IsRead cluster) (reconcile_source cluster config_map source settled_session).1.env.calls
unfolding Dict.lookup name_eq String-discrete string_eq
reconcile_source_settled_example =
    reconcile_source_settled cluster config_map objects_of source (synced_in "a" ∷ [])
      settled_session reads tracks_settled (((refl, refl), refl), tt) tt

-- A cluster where nothing is, and nothing may be created.
abbrev closed : Kube
closed = record cluster {
  get = λ a name w. (err (api 404 "not found"), w);
  create = λ a pp o w. (err (api 403 "forbidden"), w);
}

closed-Refuses : Refuses closed
unfolding is_not_found is_conflict ℕ_discrete
closed-Refuses = record {
  missing = λ a name w. (api 404 "not found", refl, refl);
  refused = λ a pp o w. (api 403 "forbidden", refl, refl);
}

abbrev wanted : List DestinationStatus
wanted = copy_in "a" ∷ []

abbrev closed_session : Session closed
closed_session = record {
  env = record { world = world; calls = [] };
  event = modifications (tracking wanted);
}

tracks_wanted : status_destinations closed_session.event.modified ≡ some wanted
unfolding status_destinations
tracks_wanted = refl

upsert_tracked_refused_example :
    ((upsert_destinations closed config_map source wanted [] closed_session.env).0
      ≡ ok (untouched [] wanted 0))
    × ((upsert_tracked closed config_map source [] 0 closed_session).0 ≡ ok none)
upsert_tracked_refused_example =
    upsert_tracked_refused closed config_map source wanted [] closed_session closed-Refuses
      tracks_wanted
