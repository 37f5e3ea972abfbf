-- ===== src/Kube/Meta.antt =====
-- The types of `kube` and `k8s_openapi` that the program reads and writes, as far as it uses them,
-- and the errors of the client as far as the program tells them apart.
use k8s_object_syncer.Base.{ℕ, String, List, Option, Eq, String-discrete}
use k8s_object_syncer.Base.Dict.{Dict}

-- `ObjectMeta`. A timestamp counts seconds. The entries of `managed_fields` and of
-- `owner_references` are never looked into and stand as texts.
pub record ObjectMeta : Type 0 where
  pub name : Option String
  pub namespace : Option String
  pub generate_name : Option String
  pub uid : Option String
  pub resource_version : Option String
  pub generation : Option ℕ
  pub labels : Option (Dict String String)
  pub annotations : Option (Dict String String)
  pub finalizers : Option (List String)
  pub managed_fields : Option (List String)
  pub owner_references : Option (List String)
  pub self_link : Option String
  pub creation_timestamp : Option ℕ
  pub deletion_timestamp : Option ℕ

pub record TypeMeta : Type 0 where
  pub kind : String
  pub api_version : String

-- `DynamicObject`, over the type of `serde_json::Value`.
pub record DynamicObject (V : Type 0) : Type 0 where
  pub types : Option TypeMeta
  pub metadata : ObjectMeta
  pub data_value : V

pub record Namespace : Type 0 where
  pub metadata : ObjectMeta

pub record GroupVersionKind : Type 0 where
  pub group : String
  pub version : String
  pub kind : String

-- `ApiResource`, the fields that the program reads.
pub record ApiResource : Type 0 where
  pub group : String
  pub version : String
  pub kind : String

pub GroupVersionKind-discrete : Discrete GroupVersionKind
GroupVersionKind-discrete = hlevel String-discrete

instance unfoldable pub gvk_eq : Eq GroupVersionKind
unfolding GroupVersionKind-discrete
gvk_eq = record { dec = GroupVersionKind-discrete }

-- `kube::Error`: an answer of the API server with its status code, a failed discovery, and the
-- others, each with the text that it displays.
pub data KubeError : Type 0 where
  api : ℕ → String → KubeError
  discovery : String → KubeError
  other : String → KubeError
