-- ===== src/Tests/ControllerTests.antt =====
-- The theorems about the `ObjectSync` controller at a concrete registry and cluster.
use text.Mathlib.TextEquality.{eq_iff}
use k8s_object_syncer.Base.{
  String-discrete, string_eq, ◌≡◌, ◌≢◌, ◌⊎◌, refl, false, some, none, [], ◌∷◌, In, ok, err, arith,
}
use k8s_object_syncer.Base.Dict
use k8s_object_syncer.Kube.Meta.{GroupVersionKind, gvk_eq}
use k8s_object_syncer.Kube.Server.{Kube, namespaced}
use k8s_object_syncer.Kube.Client.{Env}
use k8s_object_syncer.Api.Types.{SourceObject}
use k8s_object_syncer.Api.Status.{status_destinations}
use k8s_object_syncer.Errors.{ControllerError}
use k8s_object_syncer.Utils.Names.{source_ref_of_sync, SourceRef, ObjectSyncRef, name_eq}
use k8s_object_syncer.Modifications.{id}
use k8s_object_syncer.ObjectSyncController.Cleanup.{delete_all_destinations}
use k8s_object_syncer.ObjectSyncController.Discovery.{
  get_gvk, get_api_resource, pick_resource, namespaced_only,
}
use k8s_object_syncer.ObjectSyncController.Discovery.Versions.{get_gvk-Scope}
use k8s_object_syncer.ObjectSyncController.Registry.{
  Registry, empty, ObjectSyncInstance, instance_of, upgrade, add,
}
use k8s_object_syncer.ObjectSyncController.Registry.Coherence.{holds, Coherent, add-Coherent}
use k8s_object_syncer.ObjectSyncController.Registry.Moves.{moved, move_unchanged}
use k8s_object_syncer.ObjectSyncController.Reconcile.{Controller, check_instance, delete_copies}
use k8s_object_syncer.ObjectSyncController.Reconcile.Gate.{delete_copies-gated}
use k8s_object_syncer.ObjectSyncController.Reconcile.Instances.{
  Steady, UpToDate, check_instance-Coherent,
}
use k8s_object_syncer.ObjectSyncController.Reconcile.Instances.Reloads.{
  Told, Settles, check_instance-Told,
}
use k8s_object_syncer.ObjectSyncController.Reconcile.Reached.{empty-Coherent}
use k8s_object_syncer.ResourceController.Reconcile.Gate.{AllHandled}
use k8s_object_syncer.Tests.Cluster.{cluster}
use k8s_object_syncer.Tests.Samples.{config_map, everywhere, session, world, tracking, copy_in}

abbrev secret : GroupVersionKind
secret = record { group = ""; version = "v1"; kind = "Secret" }

abbrev pub me : SourceRef
me = record { name = "me"; namespace = "default" }

abbrev pub distributor : ObjectSyncRef
distributor = record { name = "distributor"; namespace = "default" }

abbrev registry : Registry
registry = add none me distributor config_map empty

abbrev instance_1 : ObjectSyncInstance
instance_1 = instance_of 0 me distributor config_map

nothing_there : Dict.lookup distributor empty.instances ≡ none
unfolding empty Dict.lookup
nothing_there = refl

registry-Coherent : Coherent registry
registry-Coherent = add-Coherent none me distributor config_map empty empty-Coherent nothing_there

here : Dict.lookup distributor registry.instances ≡ some instance_1
unfolding add upgrade Dict.lookup Dict.insert name_eq gvk_eq String-discrete empty
here = refl

known : Dict.lookup config_map registry.resource_controllers ≡ some 0
unfolding add upgrade Dict.lookup Dict.insert name_eq gvk_eq String-discrete empty
known = refl

config_map_is_no_secret : config_map ≢ secret
config_map_is_no_secret = ground (arith, eq_iff "ConfigMap" "Secret")

move_unchanged_example :
    (Dict.lookup distributor (moved instance_1 me distributor config_map registry).instances
      ≡ some instance_1)
    × (holds (moved instance_1 me distributor config_map registry) 0 me distributor ≡ false)
move_unchanged_example = move_unchanged instance_1 distributor registry registry-Coherent here known

abbrev controller : Controller cluster
controller = record { session = session everywhere; registry = registry }

steady : Steady cluster secret (session everywhere)
unfolding delete_all_destinations status_destinations
steady = record { same_id = refl; same_source = refl }

check_instance-Coherent_example :
    Coherent (check_instance cluster secret controller).1.registry
    × (((e : ControllerError) × ((check_instance cluster secret controller).0 ≡ err e))
        ⊎ UpToDate cluster secret
            (check_instance cluster secret controller).1.registry
            (id cluster (session everywhere).event)
            everywhere)
check_instance-Coherent_example =
    check_instance-Coherent cluster secret controller registry-Coherent steady

check_instance-Told_example :
    Told
      (id cluster (session everywhere).event)
      registry
      (check_instance cluster secret controller).1.registry
      (check_instance cluster secret controller).0
    × Settles secret
        (source_ref_of_sync everywhere)
        (Dict.lookup (id cluster (session everywhere).event) registry.instances)
        registry
        (check_instance cluster secret controller).1.registry
        (check_instance cluster secret controller).0
check_instance-Told_example = check_instance-Told cluster secret controller registry-Coherent steady

delete_copies-gated_example :
    AllHandled cluster
      (delete_all_destinations cluster (session (tracking (copy_in "a" ∷ [])))).1.env.calls
      (session (tracking (copy_in "a" ∷ []))).event
    ⊎ ((e : ControllerError) × (delete_all_destinations cluster
            (session (tracking (copy_in "a" ∷ [])))).0
          ≡ err e
        × (delete_copies cluster (session (tracking (copy_in "a" ∷ [])))
            ≡ (err e, (delete_all_destinations cluster (session (tracking (copy_in "a" ∷ [])))).1)))
delete_copies-gated_example = delete_copies-gated cluster (session (tracking (copy_in "a" ∷ [])))

-- A cluster whose discovery knows config maps.
abbrev pub discovering : Kube
discovering = record cluster {
  recommended_resources =
      λ g. (record { group = ""; version = "v1"; kind = "ConfigMap" }, namespaced) ∷ [];
}

abbrev wanted : SourceObject
wanted = record {
  group = "";
  version = some "v1";
  kind = "ConfigMap";
  name = "me";
  namespace = none;
}

abbrev discovering_env : Env discovering
discovering_env = record { world = world; calls = [] }

resolved : (get_gvk discovering wanted discovering_env).0 ≡ ok config_map
unfolding get_gvk get_api_resource pick_resource namespaced_only string_eq
resolved = refl

get_gvk-Scope_example :
    (config_map.kind ≡ wanted.kind)
    × (config_map.version ≡ "v1")
    × (g : discovering.ApiGroup) × ((discovering.group wanted.group discovering_env.world).0 ≡ ok g)
    × In
        (
          record { group = config_map.group; version = config_map.version; kind = config_map.kind },
          namespaced,
        )
        (discovering.recommended_resources g)
get_gvk-Scope_example =
    get_gvk-Scope discovering wanted "v1" discovering_env config_map refl resolved
