-- ===== src/ObjectSyncController/Discovery.antt =====
-- `get_api_resource` and `get_gvk`: which kind of resource a source is.
pub mod Versions
use k8s_object_syncer.Base.{
  String, string_eq, Bool, ◌&&◌, ◌==◌, ◌<>◌, none, some, Option, find, Result, ok, err, lift, pure,
  attempt, fail, ◌>>=◌,
}
use k8s_object_syncer.Kube.Meta.{GroupVersionKind, ApiResource, KubeError, discovery}
use k8s_object_syncer.Kube.Server.{Kube, Scope}
use k8s_object_syncer.Kube.Client.{Io, discover}
use k8s_object_syncer.Api.Types.{SourceObject}
use k8s_object_syncer.Errors.{
  ControllerError, api_discovery_error, cluster_scoped_resource, kube_api, kube_display,
}

-- A failed discovery is told apart from the errors that a request can have.
unfoldable pub discovery_error : String → KubeError → ControllerError
unfolding kube_display
discovery_error group (discovery text) =
    api_discovery_error ("API discovery failed for group " <> group <> ": " <> text)
discovery_error group e = kube_api e

-- `ok_or_else`
abbrev ok_or : {E A : Type 0} → E → Option A → Result E A
ok_or e none = err e
ok_or e (some a) = ok a

-- Only resources that live in namespaces can be synced.
unfoldable pub namespaced_only : ApiResource → Scope → Result ControllerError ApiResource
namespaced_only r Scope.namespaced = ok r
namespaced_only r Scope.cluster = err (
    cluster_scoped_resource (
      "resource " <> r.group <> "/" <> r.version <> "/" <> r.kind
      <> " is cluster scoped, resource syncer only supports namespace scoped resources"))

-- Whether this is the resource of the given kind and version.
abbrev pub is_version : String → String → ApiResource → Bool
is_version kind version r = r.kind == kind && r.version == version

module _ (K : Kube) where
  -- The resource of the wanted version, or of the preferred one.
  unfoldable pub pick_resource :
      SourceObject → K.ApiGroup → Result ControllerError (ApiResource × Scope)
  pick_resource source apigroup = elim source.version [
    | some version ↦
        ok_or
          (api_discovery_error (
            "Kind " <> source.kind <> " in API Group " <> source.group <> " with version "
            <> version <> " does not exist"))
          (find (λ (r, scope). is_version source.kind version r) (K.recommended_resources apigroup))
    | none ↦
        ok_or
          (api_discovery_error (
            "unable to resolve preferred version for Kind " <> source.kind <> " in API Group "
            <> source.group))
          (K.recommended_kind apigroup source.kind)
  ]

  unfoldable pub get_api_resource : SourceObject → Io K ControllerError ApiResource
  unfolding discovery_error
  get_api_resource source = do
    found ← attempt (discover K source.group)
    elim found [
      | err e ↦ fail (discovery_error source.group e)
      | ok apigroup ↦ do
        (r, scope) ← lift (pick_resource source apigroup)
        lift (namespaced_only r scope)
    ]

  unfoldable pub get_gvk : SourceObject → Io K ControllerError GroupVersionKind
  get_gvk source = do
    r ← get_api_resource source
    pure (record { group = r.group; version = r.version; kind = r.kind })
