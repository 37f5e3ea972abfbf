-- ===== src/ObjectSyncController/Start.antt =====
-- `start` of the `ObjectSync` controller: what it does with the outcome of a reconciliation.
use k8s_object_syncer.Base.{Result, ok, err}
use k8s_object_syncer.Kube.Runtime.{Action, RuntimeError, queue_error, object_not_found, Reaction}

unfoldable pub on_result : Result RuntimeError Action → Reaction
on_result (ok action) = record { errors = 0; sleep_secs = 0 }
on_result (err queue_error) = record { errors = 1; sleep_secs = 30 }
on_result (err object_not_found) = record { errors = 0; sleep_secs = 0 }
on_result (err e) = record { errors = 1; sleep_secs = 0 }
