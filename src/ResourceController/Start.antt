-- ===== src/ResourceController/Start.antt =====
-- `start` of the resource controller: which objects it watches, and what it does with the outcome of
-- a reconciliation.
pub mod Scopes
use k8s_object_syncer.Base.{String, ◌<>◌, Option, none, some, List, [], ◌∷◌, Result, ok, err}
use k8s_object_syncer.Kube.Runtime.{Action, RuntimeError, queue_error, object_not_found, Reaction}
use k8s_object_syncer.Configuration.{Configuration}
use k8s_object_syncer.Utils.Names.{manager}

-- `api`: the namespace within which objects are watched, none for all.
unfoldable pub api : Option (List String) → Option String
api (some (ns ∷ [])) = some ns
api _ = none

-- The namespaces of the sources, of the copies and of the `ObjectSync` objects, and the selector of
-- the copies. Namespace objects are watched without a restriction.
pub record Watches : Type 0 where
  pub sources : Option String
  pub copies : Option String
  pub copies_selector : String
  pub object_syncs : Option String

unfoldable pub watches : Configuration → Watches
unfolding api
watches configuration = record {
  sources = api configuration.source_namespaces;
  copies = api configuration.target_namespaces;
  copies_selector = "app.kubernetes.io/managed-by=" <> manager;
  object_syncs = configuration.resource_sync;
}

-- Errors of the queue are counted and slow the controller down; a missing object is neither.
unfoldable pub on_result : Result RuntimeError Action → Reaction
on_result (ok action) = record { errors = 0; sleep_secs = 0 }
on_result (err queue_error) = record { errors = 1; sleep_secs = 30 }
on_result (err object_not_found) = record { errors = 0; sleep_secs = 0 }
on_result (err e) = record { errors = 1; sleep_secs = 0 }
