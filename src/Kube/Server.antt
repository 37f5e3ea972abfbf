-- ===== src/Kube/Server.antt =====
-- The API server, `serde_json` and `json_patch` as parameters: nothing is assumed of them here.
-- A call takes the world, in which other parties act too, to its answer and the next world.
use k8s_object_syncer.Base.{String, Bool, Option, List, Result}
use k8s_object_syncer.Kube.Meta.{ObjectMeta, DynamicObject, Namespace, ApiResource, KubeError}
use k8s_object_syncer.Api.Types.{ObjectSync, ObjectSyncStatus}

-- `Api<DynamicObject>`: a kind of resource, within one namespace or in all.
pub record Api : Type 0 where
  pub resource : ApiResource
  pub namespace : Option String

pub data ValidationDirective : Type 0 where
  ignore warn strict : ValidationDirective

pub record PatchParams : Type 0 where
  pub dry_run : Bool
  pub force : Bool
  pub field_manager : Option String
  pub field_validation : Option ValidationDirective

pub record PostParams : Type 0 where
  pub dry_run : Bool
  pub field_manager : Option String

-- `kube::api::Patch`, the two forms that the program sends.
pub data Patch (V Op : Type 0) : Type 0 where
  apply : DynamicObject V → Patch V Op
  json : List Op → Patch V Op

-- The answer to `Api::delete`: the object, if its deletion has only begun because finalizers keep
-- it, or the report that it is gone.
pub data Deletion (V : Type 0) : Type 0 where
  begun : DynamicObject V → Deletion V
  finished : Deletion V

pub data Scope : Type 0 where
  cluster namespaced : Scope

pub record Kube : Type 1 where
  -- `serde_json::Value`, `json_patch::PatchOperation`, and the world outside of the program.
  pub Value : Type 0
  pub Operation : Type 0
  pub World : Type 0
  pub ApiGroup : Type 0
  pub null : Value
  pub diff : Value → Value → List Operation
  -- `serde_json::to_value`; an error stands as the text that it displays.
  pub object_to_value : DynamicObject Value → Result String Value
  pub sync_to_value : ObjectSync → Result String Value
  pub status_to_value : Option ObjectSyncStatus → Result String Value
  -- `ResourceExt::name_any`, `ApiResource::from_gvk`, `GroupVersionKind::api_version`
  pub name_any : ObjectMeta → String
  pub from_gvk : String → String → String → ApiResource
  pub api_version : String → String → String
  -- The calls on dynamic objects.
  pub get : Api → String → World → Result KubeError (DynamicObject Value) × World
  pub patch :
      Api
      → String
      → PatchParams
      → Patch Value Operation
      → World
      → Result KubeError (DynamicObject Value) × World
  pub delete : Api → String → World → Result KubeError (Deletion Value) × World
  pub create :
      Api
      → PostParams
      → DynamicObject Value
      → World
      → Result KubeError (DynamicObject Value) × World
  pub replace :
      Api
      → String
      → PostParams
      → DynamicObject Value
      → World
      → Result KubeError (DynamicObject Value) × World
  -- The calls on `ObjectSync` objects, within one namespace or in all.
  pub get_sync : Option String → String → World → Result KubeError ObjectSync × World
  pub get_sync_status : Option String → String → World → Result KubeError ObjectSync × World
  pub replace_sync :
      Option String → String → PostParams → ObjectSync → World → Result KubeError ObjectSync × World
  pub replace_sync_status :
      Option String → String → PostParams → ObjectSync → World → Result KubeError ObjectSync × World
  pub patch_sync :
      Option String
      → String
      → PatchParams
      → List Operation
      → World
      → Result KubeError ObjectSync × World
  -- Discovery.
  pub group : String → World → Result KubeError ApiGroup × World
  pub recommended_resources : ApiGroup → List (ApiResource × Scope)
  pub recommended_kind : ApiGroup → String → Option (ApiResource × Scope)
  -- The namespace cache, and the current time in RFC 3339 with seconds.
  pub namespaces : World → List Namespace
  pub now : World → String
