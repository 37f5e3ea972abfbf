-- ===== src/ResourceController/Expected.antt =====
-- `expected_destinations`: the copies that an `ObjectSync` asks for, given the known namespaces.
pub mod Members
use k8s_object_syncer.Base.{
  String, string_eq, ◌==◌, Bool, true, false, Option, none, some, List, [], ◌∷◌, ◌++◌, find,
  if◌then◌else◌,
}
use k8s_object_syncer.Kube.Meta.{ObjectMeta, Namespace}
use k8s_object_syncer.Kube.Server.{Kube}
use k8s_object_syncer.Api.Types.{SyncStrategy, Destination, ObjectSync}
use k8s_object_syncer.Api.Destination.{applies_to, applies_to_all_namespaces}

-- The triple of the source: where the copy goes, its name, and the strategy that was asked for.
pub record Target : Type 0 where
  pub namespace : String
  pub name : String
  pub strategy : Option SyncStrategy

abbrev pub terminating : Namespace → Bool
terminating ns = elim ns.metadata.deletion_timestamp [ some _ ↦ true | none ↦ false ]

module _ (K : Kube) (obj : ObjectSync) where
  abbrev pub ns_name : Namespace → String
  ns_name ns = K.name_any ns.metadata

  -- `if let Some((ns, name)) = … { tmp.push((ns, name, d.strategy)) }`
  abbrev push_target : Destination → Option (String × String) → List Target → List Target
  push_target d none rest = rest
  push_target d (some (namespace, name)) rest =
      record { namespace = namespace; name = name; strategy = d.strategy } ∷ rest

  -- The loop over the cache for a destination that stands for all namespaces.
  all_targets : Destination → List Namespace → List Target
  all_targets d [] = []
  all_targets d (ns ∷ cache) =
      let rest = all_targets d cache in
      if terminating ns then rest else push_target d (applies_to d obj (ns_name ns)) rest

  -- The destination of a single namespace.
  abbrev live_target : Destination → Option Namespace → Option (String × String) → List Target
  live_target d none pair = []
  live_target d (some ns) pair = if terminating ns then [] else push_target d pair []

  one_target : Destination → List Namespace → List Target
  one_target d cache = elim (applies_to d obj d.namespace) [
    | none ↦ []
    | some pair ↦ live_target d (find (λ ns. ns_name ns == d.namespace) cache) (some pair)
  ]

  destination_targets : Destination → List Namespace → List Target
  unfolding all_targets one_target
  destination_targets d cache =
      if applies_to_all_namespaces d then all_targets d cache else one_target d cache

  flat_targets : List Destination → List Namespace → List Target
  unfolding destination_targets
  flat_targets [] cache = []
  flat_targets (d ∷ ds) cache = destination_targets d cache ++ flat_targets ds cache

  unfoldable pub expected_destinations : List Namespace → List Target
  unfolding flat_targets
  expected_destinations cache = flat_targets obj.spec.destinations cache
