-- ===== src/Tests/ReachedTests.antt =====
-- The registry after reconciliations on a concrete cluster.
use k8s_object_syncer.Base.{none, some, [], ◌≡◌, ◌↔◌, true, refl, arith}
use k8s_object_syncer.Base.Dict
use k8s_object_syncer.ObjectSyncController.Interleaving.Invariant.{matches}
use k8s_object_syncer.ObjectSyncController.Interleaving.Refines.{Reached_registered_iff}
use k8s_object_syncer.Api.Types.{ObjectSync}
use k8s_object_syncer.Utils.Names.{name_eq}
use k8s_object_syncer.Modifications.{Session}
use k8s_object_syncer.ObjectSyncController.Registry.{Registry, empty}
use k8s_object_syncer.ObjectSyncController.Registry.Coherence.{holds}
use k8s_object_syncer.ObjectSyncController.Reconcile.{reconcile}
use k8s_object_syncer.ObjectSyncController.Reconcile.Identity.{KeepsObject}
use k8s_object_syncer.ObjectSyncController.Reconcile.Reached.{Reached, start, next}
use k8s_object_syncer.Tests.ControllerTests.{discovering, distributor, me}
use k8s_object_syncer.Tests.Samples.{everywhere, modifications, world}

pub answers_what_was_sent : KeepsObject discovering
answers_what_was_sent = record {
  name_any_stable = λ m v. refl;
  same_answer = λ ns name pp o o' w h. record {
    name = ground arith;
    namespace = ground arith;
    spec = ground arith;
  };
}

abbrev pub run_on : ObjectSync → Session discovering
run_on o = record {
  env = record { world = record world { sync = some o }; calls = [] };
  event = modifications o;
}

abbrev pub gone : ObjectSync
gone = record everywhere { metadata = record everywhere.metadata { deletion_timestamp = some 5 } }

-- The registry after an `ObjectSync` has been reconciled.
abbrev pub after_one : Registry
after_one =
    (reconcile discovering none
      (record { session = run_on everywhere; registry = empty })).1.registry

abbrev after_two : Registry
after_two =
    (reconcile discovering none (record { session = run_on gone; registry = after_one })).1.registry

reached : Reached discovering none after_two
reached = next (run_on gone) (next (run_on everywhere) start)

Reached_registered_iff_example :
    (holds after_two 0 me distributor ≡ true)
    ↔ (matches (Dict.lookup distributor after_two.instances) 0 me ≡ true)
Reached_registered_iff_example =
    Reached_registered_iff discovering none after_two distributor 0 me answers_what_was_sent reached
