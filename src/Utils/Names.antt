-- ===== src/Utils/Names.antt =====
-- References to objects by namespace and name, and the constants of main.rs.
use mathlib.Core.Option.{get_or, or_else}
use k8s_object_syncer.Base.{String, ◌<>◌, String-discrete, Eq, some}
use k8s_object_syncer.Kube.Meta.{ObjectMeta, GroupVersionKind}
use k8s_object_syncer.Kube.Server.{Kube}
use k8s_object_syncer.Kube.Client.{Object}
use k8s_object_syncer.Api.Types.{ObjectSync, DestinationStatus}
use k8s_object_syncer.Api.Destination.{source_namespace}

-- main.rs
abbrev pub manager : String
manager = "rustrial-object-syncer"

abbrev pub finalizer_name : String
finalizer_name = "sync.rustrial.org/rustrial-object-syncer"

-- rustrial-k8s-object-syncer-apis/src/lib.rs
abbrev pub source_object_annotation : String
source_object_annotation = "sync.rustrial.org/source-object"

pub record NamespacedName : Type 0 where
  pub name : String
  pub namespace : String

pub NamespacedName-discrete : Discrete NamespacedName
NamespacedName-discrete = hlevel String-discrete

instance unfoldable pub name_eq : Eq NamespacedName
unfolding NamespacedName-discrete
name_eq = record { dec = NamespacedName-discrete }

-- The object of a destination.
abbrev pub key_of : DestinationStatus → NamespacedName
key_of d = record { name = d.name; namespace = d.namespace }

-- The two newtypes of utils.rs, which dereference to the name that they hold.
abbrev pub SourceRef : Type 0
SourceRef = NamespacedName

abbrev pub ObjectSyncRef : Type 0
ObjectSyncRef = NamespacedName

-- `Display` of `NamespacedName`
unfoldable pub display_name : NamespacedName → String
display_name n = n.namespace <> "/" <> n.name

module _ (K : Kube) where
  -- `From<&DynamicObject>` and `From<&ObjectSync>` of `NamespacedName`, by their metadata.
  unfoldable pub name_of : ObjectMeta → NamespacedName
  name_of m = record { name = K.name_any m; namespace = get_or m.namespace "" }

  -- `SourceRef::from(&DynamicObject)`
  unfoldable pub source_ref_of_object : Object K → SourceRef
  unfolding name_of
  source_ref_of_object o = name_of o.metadata

  -- `ObjectSyncRef::from(&ObjectSync)`
  unfoldable pub object_sync_ref : ObjectSync → ObjectSyncRef
  unfolding name_of
  object_sync_ref o = name_of o.metadata

  -- `ensure_gvk`
  unfoldable pub ensure_gvk : Object K → GroupVersionKind → Object K
  unfolding or_else
  ensure_gvk source gvk = record source {
    types =
        or_else source.types
          (some (record { kind = gvk.kind; api_version = K.api_version gvk.group gvk.version }));
  }

-- `SourceRef::from(&ObjectSyncModifications)`, which reads the modified `ObjectSync`.
unfoldable pub source_ref_of_sync : ObjectSync → SourceRef
unfolding source_namespace
source_ref_of_sync o = record {
  name = o.spec.source.name;
  namespace = get_or (source_namespace o) "";
}
