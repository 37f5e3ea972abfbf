-- ===== src/Errors.antt =====
-- rustrial-k8s-object-syncer/src/errors.rs
use k8s_object_syncer.Base.{String, string_eq, nat_eq, ◌==◌, Bool, true, false, ◌||◌}
use k8s_object_syncer.Kube.Meta.{KubeError, api, discovery, other}

-- `ExtKubeApiError::is_not_found`
unfoldable pub is_not_found : KubeError → Bool
is_not_found (api code text) = code == 404 || code == 410
is_not_found (discovery text) = false
is_not_found (other text) = false

-- `ExtKubeApiError::is_conflict`
unfoldable pub is_conflict : KubeError → Bool
is_conflict (api code text) = code == 409
is_conflict (discovery text) = false
is_conflict (other text) = false

-- The payloads of the last two are the texts that they display.
pub data ControllerError : Type 0 where
  api_discovery_error : String → ControllerError
  cluster_scoped_resource : String → ControllerError
  destination_removal_error : String → ControllerError
  kube_api : KubeError → ControllerError
  serde : String → ControllerError
  any_error : String → ControllerError

-- `ControllerError::is_temporary`
unfoldable pub is_temporary : ControllerError → Bool
is_temporary (cluster_scoped_resource text) = false
is_temporary _ = true

-- `Display` of `kube::Error`, kept as its text.
unfoldable pub kube_display : KubeError → String
kube_display (api code text) = text
kube_display (discovery text) = text
kube_display (other text) = text

-- `#[error("{0}")]`
unfoldable pub display : ControllerError → String
unfolding kube_display
display (api_discovery_error text) = text
display (cluster_scoped_resource text) = text
display (destination_removal_error text) = text
display (kube_api e) = kube_display e
display (serde text) = text
display (any_error text) = text
