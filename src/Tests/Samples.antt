-- ===== src/Tests/Samples.antt =====
-- Concrete objects for the tests.
use k8s_object_syncer.Base.{String, Option, none, some, List, [], ◌∷◌}
use k8s_object_syncer.Kube.Meta.{Namespace, GroupVersionKind}
use k8s_object_syncer.Kube.Client.{Env}
use k8s_object_syncer.Api.Types.{ObjectSync, Destination, DestinationStatus, Condition}
use k8s_object_syncer.Utils.Finalizers.{default_meta}
use k8s_object_syncer.Modifications.{ObjectSyncModifications, Session}
use k8s_object_syncer.Tests.Cluster.{Obj, World, cluster}

abbrev pub config_map : GroupVersionKind
config_map = record { group = ""; version = "v1"; kind = "ConfigMap" }

abbrev pub destination : Option String → String → Destination
destination name namespace = record { name = name; namespace = namespace; strategy = none }

-- The object of the tests in lib.rs, with one destination for all namespaces.
abbrev pub sync_of : List Destination → ObjectSync
sync_of ds = record {
  metadata = record default_meta { name = some "distributor"; namespace = some "default" };
  spec = record {
    source = record {
      group = "";
      version = none;
      kind = "ConfigMap";
      name = "me";
      namespace = none;
    };
    destinations = ds;
  };
  status = none;
}

abbrev pub everywhere : ObjectSync
everywhere = sync_of (destination none "*" ∷ [])

abbrev pub space : String → Namespace
space name = record { metadata = record default_meta { name = some name } }

abbrev pub ending : String → Namespace
ending name = record {
  metadata = record default_meta { name = some name; deletion_timestamp = some 1 };
}

abbrev pub spaces : List Namespace
spaces = space "default" ∷ space "a" ∷ ending "b" ∷ []

abbrev pub source : Obj
source = record {
  types = none;
  metadata = record default_meta {
    name = some "me";
    namespace = some "default";
    uid = some "s";
    resource_version = some "7";
  };
  data_value = [];
}

abbrev pub world : World
world = record {
  objects = (record { name = "me"; namespace = "default" }, source) ∷ [];
  sync = none;
  clock = 1;
  spaces = spaces;
}

abbrev pub env : Env cluster
env = record { world = world; calls = [] }

abbrev pub copy_in : String → DestinationStatus
copy_in namespace = record {
  name = "me";
  namespace = namespace;
  group = "";
  version = "v1";
  kind = "ConfigMap";
  source_version = none;
  synced_version = none;
  strategy = none;
}

abbrev pub tracking : List DestinationStatus → ObjectSync
tracking ds = record everywhere {
  status = some (record { conditions = none; destinations = some ds });
}

abbrev pub modifications : ObjectSync → ObjectSyncModifications
modifications o = record { original = o; modified = o }

-- The session in which the cluster holds the `ObjectSync`.
abbrev pub session : ObjectSync → Session cluster
session o = record {
  env = record env { world = record world { sync = some o } };
  event = modifications o;
}

abbrev pub condition : String → String → Condition
condition type_ message = record {
  last_transition_time = none;
  message = message;
  observed_generation = none;
  reason = "Success";
  status = "True";
  type_ = type_;
}
