-- ===== src/Kube/Runtime.antt =====
-- `kube_runtime`, as far as the controllers see it: what it asks for after a reconciliation, and why
-- one did not come about.
use k8s_object_syncer.Base.{ℕ}

-- `controller::Action`
pub data Action : Type 0 where
  requeue : ℕ → Action
  await_change : Action

-- `controller::Error`
pub data RuntimeError : Type 0 where
  queue_error object_not_found reconciler_failed other_error : RuntimeError

-- What a controller does with the outcome of a reconciliation: whether it counts an error, and for
-- how many seconds it sleeps.
pub record Reaction : Type 0 where
  pub errors : ℕ
  pub sleep_secs : ℕ
