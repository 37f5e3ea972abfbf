-- ===== src/Kube/Client.antt =====
-- The program's calls as actions. Each one is noted with how it was answered, the latest first, so
-- that theorems can speak of what the program asked of the server and in which order.
use k8s_object_syncer.Base.{
  String, Bool, true, false, Option, none, some, List, ◌∷◌, Result, ok, err, Exec,
}
use k8s_object_syncer.Kube.Meta.{DynamicObject, Namespace, KubeError}
use k8s_object_syncer.Kube.Server.{
  Kube, Deletion, begun, finished, Api, Patch, PatchParams, PostParams,
}
use k8s_object_syncer.Api.Types.{ObjectSync}

pub data Request (V Op : Type 0) : Type 0 where
  get_object : Api → String → Request V Op
  patch_object : Api → String → PatchParams → Patch V Op → Request V Op
  delete_object : Api → String → Request V Op
  create_object : Api → PostParams → DynamicObject V → Request V Op
  replace_object : Api → String → PostParams → DynamicObject V → Request V Op
  get_object_sync : Option String → String → Request V Op
  get_object_sync_status : Option String → String → Request V Op
  replace_object_sync : Option String → String → PostParams → ObjectSync → Request V Op
  replace_object_sync_status : Option String → String → PostParams → ObjectSync → Request V Op
  patch_object_sync : Option String → String → PatchParams → List Op → Request V Op
  discover_group : String → Request V Op

abbrev pub is_get : {V Op : Type 0} → Request V Op → Bool
is_get (get_object a name) = true
is_get _ = false

-- A call and, if it failed, the error, or else the object of the answer, if it has one.
pub record Exchange (V Op : Type 0) : Type 0 where
  pub request : Request V Op
  pub failure : Option KubeError
  pub shown : Option (DynamicObject V)

abbrev failure_of : {A : Type 0} → Result KubeError A → Option KubeError
failure_of (ok a) = none
failure_of (err e) = some e

abbrev shown_of :
    {A V : Type 0} → (A → Option (DynamicObject V)) → Result KubeError A → Option (DynamicObject V)
shown_of f (ok a) = f a
shown_of f (err e) = none

-- The object whose deletion has only begun.
abbrev remaining : {V : Type 0} → Deletion V → Option (DynamicObject V)
remaining (begun o) = some o
remaining finished = none

module _ (K : Kube) where
  abbrev pub Object : Type 0
  Object = DynamicObject K.Value

  abbrev pub Call : Type 0
  Call = Exchange K.Value K.Operation

  pub record Env : Type 0 where
    pub world : K.World
    pub calls : List Call

  abbrev pub Io : Type 0 → Type 0 → Type 0
  Io = Exec Env

  abbrev note :
      {A : Type 0}
      → Request K.Value K.Operation
      → (A → Option Object)
      → Result KubeError A × K.World
      → List Call
      → Result KubeError A × Env
  note r shows (a, w) calls = (
    a,
    record {
      world = w;
      calls = record { request = r; failure = failure_of a; shown = shown_of shows a } ∷ calls;
    },
  )

  abbrev pub call :
      {A : Type 0}
      → Request K.Value K.Operation
      → (A → Option Object)
      → (K.World → Result KubeError A × K.World)
      → Io KubeError A
  call r shows f s = note r shows (f s.world) s.calls

  abbrev pub get : Api → String → Io KubeError Object
  get api name = call (get_object api name) some (K.get api name)

  abbrev pub patch : Api → String → PatchParams → Patch K.Value K.Operation → Io KubeError Object
  patch api name pp p = call (patch_object api name pp p) some (K.patch api name pp p)

  abbrev pub delete : Api → String → Io KubeError (Deletion K.Value)
  delete api name = call (delete_object api name) remaining (K.delete api name)

  abbrev pub create : Api → PostParams → Object → Io KubeError Object
  create api pp o = call (create_object api pp o) some (K.create api pp o)

  abbrev pub replace : Api → String → PostParams → Object → Io KubeError Object
  replace api name pp o = call (replace_object api name pp o) some (K.replace api name pp o)

  abbrev pub get_sync : Option String → String → Io KubeError ObjectSync
  get_sync ns name = call (get_object_sync ns name) (λ _. none) (K.get_sync ns name)

  abbrev pub get_sync_status : Option String → String → Io KubeError ObjectSync
  get_sync_status ns name =
      call (get_object_sync_status ns name) (λ _. none) (K.get_sync_status ns name)

  abbrev pub replace_sync :
      Option String → String → PostParams → ObjectSync → Io KubeError ObjectSync
  replace_sync ns name pp o =
      call (replace_object_sync ns name pp o) (λ _. none) (K.replace_sync ns name pp o)

  abbrev pub replace_sync_status :
      Option String → String → PostParams → ObjectSync → Io KubeError ObjectSync
  replace_sync_status ns name pp o =
      call (replace_object_sync_status ns name pp o) (λ _. none)
        (K.replace_sync_status ns name pp o)

  abbrev pub patch_sync :
      Option String → String → PatchParams → List K.Operation → Io KubeError ObjectSync
  patch_sync ns name pp p =
      call (patch_object_sync ns name pp p) (λ _. none) (K.patch_sync ns name pp p)

  abbrev pub discover : String → Io KubeError K.ApiGroup
  discover name = call (discover_group name) (λ _. none) (K.group name)

  -- Reading the namespace cache and the clock asks nothing of the server.
  abbrev pub namespaces : {E : Type 0} → Io E (List Namespace)
  namespaces s = (ok (K.namespaces s.world), s)

  abbrev pub now : {E : Type 0} → Io E String
  now s = (ok (K.now s.world), s)
