-- ===== src/Api/Destination.antt =====
-- Which objects a destination stands for: `Destination` and the parts of `ObjectSync` that it reads.
pub mod Targets
pub mod Unique
use k8s_object_syncer.Base.{
  String, string_eq, ◌==◌, ◌<>◌, Bool, ◌&&◌, ◌||◌, not, Option, none, some, List, [], ◌∷◌, ◌++◌,
  contains, if◌then◌else◌,
}
use k8s_object_syncer.Kube.Meta.{ObjectMeta}
use k8s_object_syncer.Api.Types.{
  SyncStrategy, ObjectSyncSpec, Destination, destination_eq, DestinationStatus, ObjectSync,
  ObjectRevision,
}
use mathlib.Core.Option.{get_or, or_else}

unfoldable pub default_strategy : SyncStrategy
default_strategy = SyncStrategy.apply

-- `Destination::strategy`
unfoldable pub strategy : Destination → SyncStrategy
unfolding default_strategy
strategy d = get_or d.strategy default_strategy

-- `DestinationStatus::strategy`
unfoldable pub status_strategy : DestinationStatus → SyncStrategy
unfolding default_strategy
status_strategy d = get_or d.strategy default_strategy

-- `tmp.extend(…)`: each destination is put into the set that there is.
extend : List Destination → List Destination → List Destination
extend tmp [] = tmp
extend tmp (d ∷ ds) = extend (if contains tmp d then tmp else tmp ++ d ∷ []) ds

-- `ObjectSyncSpec::destinations`
unfoldable pub destination_set : ObjectSyncSpec → List Destination
unfolding extend
destination_set spec = extend [] spec.destinations

unfoldable pub applies_to_all_namespaces : Destination → Bool
applies_to_all_namespaces d = d.namespace == "" || d.namespace == "*"

unfoldable pub applies_to_namespace : Destination → String → Bool
unfolding applies_to_all_namespaces
applies_to_namespace d namespace = d.namespace == namespace || applies_to_all_namespaces d

-- `ObjectSync::source_namespace`
unfoldable pub source_namespace : ObjectSync → Option String
unfolding or_else
source_namespace obj = or_else obj.spec.source.namespace obj.metadata.namespace

-- `ObjectSync::source_name`
unfoldable pub source_name : ObjectSync → String
source_name obj = obj.spec.source.name

-- The destination object's namespace and name in a namespace, if there is one.
unfoldable pub applies_to : Destination → ObjectSync → String → Option (String × String)
unfolding applies_to_namespace or_else
applies_to d obj dst_namespace =
    let src_name = obj.spec.source.name in
    let src_namespace = get_or (or_else obj.spec.source.namespace obj.metadata.namespace) "" in
    let dst_name = get_or d.name obj.spec.source.name in
    if applies_to_namespace d dst_namespace
      && (not (src_name == dst_name) || not (src_namespace == dst_namespace))
    then some (dst_namespace, dst_name)
    else none

-- `ObjectRevision::from(&ObjectMeta)`
unfoldable pub revision_of : ObjectMeta → ObjectRevision
revision_of m = record { uid = m.uid; resource_version = m.resource_version }

-- `ObjectSync::id`
unfoldable pub id : ObjectSync → String
id obj = get_or obj.metadata.namespace "" <> "/" <> get_or obj.metadata.name ""

-- `ObjectSync::versioned_id`
unfoldable pub versioned_id : ObjectSync → String
unfolding id
versioned_id obj = id obj <> "@" <> get_or obj.metadata.resource_version ""
