-- ===== src/Tests/InterleavingTests.antt =====
-- The reconciliations of two objects of the same kind, interleaved.
use k8s_object_syncer.Base.{String-discrete, nat_eq, ◌≡◌, ◌↔◌, refl, true, none, inr, arith}
use k8s_object_syncer.Base.Dict
use k8s_object_syncer.Kube.Meta.{gvk_eq}
use k8s_object_syncer.Utils.Names.{ObjectSyncRef, name_eq}
use k8s_object_syncer.ObjectSyncController.Registry.{empty, started, register, place_instance}
use k8s_object_syncer.ObjectSyncController.Registry.Coherence.{holds}
use k8s_object_syncer.ObjectSyncController.Reconcile.{reconcile}
use k8s_object_syncer.ObjectSyncController.Interleaving.{
  idle, obtained, registered, System, update, launch, reuse, enroll, place, turn, Reach, IsTested,
  start, later,
}
use k8s_object_syncer.ObjectSyncController.Interleaving.Invariant.{matches, IsConsistent}
use k8s_object_syncer.ObjectSyncController.Interleaving.Reachable.{
  Reach-IsConsistent, Reach_registered_iff,
}
use k8s_object_syncer.ObjectSyncController.Interleaving.Runs.{Steps, quiet}
use k8s_object_syncer.ObjectSyncController.Interleaving.Refines.{reconcile-Steps}
use k8s_object_syncer.Tests.ControllerTests.{discovering, distributor, me}
use k8s_object_syncer.Tests.ReachedTests.{answers_what_was_sent, after_one, run_on, gone}
use k8s_object_syncer.Tests.Samples.{config_map}

abbrev other : ObjectSyncRef
other = record { name = "other"; namespace = "default" }

abbrev system_0 : System
system_0 = quiet empty

abbrev system_1 : System
system_1 = record {
  registry = started config_map empty;
  task = update distributor (obtained none 0 me config_map) system_0.task;
}

-- The second object finds the controller, which nothing but the first reconciliation holds.
abbrev system_2 : System
system_2 = record {
  registry = system_1.registry;
  task = update other (obtained none 0 me config_map) system_1.task;
}

abbrev system_3 : System
system_3 = record {
  registry = register 0 me distributor system_2.registry;
  task = update distributor (registered none 0 me config_map) system_2.task;
}

abbrev system_4 : System
system_4 = record {
  registry = place_instance 0 me distributor config_map system_3.registry;
  task = update distributor idle system_3.task;
}

reach_1 : Reach IsTested system_1
unfolding empty Dict.lookup
reach_1 =
    later start (
      turn distributor (launch none me config_map (refl, refl) (λ id known lives. ground arith)) tt)

reach_2 : Reach IsTested system_2
unfolding empty started Dict.lookup Dict.insert name_eq gvk_eq String-discrete
reach_2 =
    later reach_1 (
      turn other (reuse none 0 me config_map (refl, refl) refl (inr (distributor, ground arith)))
        tt)

reach_4 : Reach IsTested system_4
unfolding name_eq String-discrete
reach_4 =
    later (later reach_2 (turn distributor (enroll none 0 me config_map refl) tt))
      (turn distributor (place none 0 me config_map refl) tt)

settled : system_4.task distributor ≡ idle
unfolding name_eq String-discrete
settled = refl

Reach-IsConsistent_example : IsConsistent system_4
Reach-IsConsistent_example = Reach-IsConsistent system_4 reach_4

Reach_registered_iff_example :
    (holds system_4.registry 0 me distributor ≡ true)
    ↔ (matches (Dict.lookup distributor system_4.registry.instances) 0 me ≡ true)
Reach_registered_iff_example = Reach_registered_iff system_4 distributor 0 me reach_4 settled

reconcile-Steps_example : Steps IsTested (quiet after_one) (
    quiet
      (reconcile discovering none
        (record { session = run_on gone; registry = after_one })).1.registry)
reconcile-Steps_example =
    reconcile-Steps discovering none (record { session = run_on gone; registry = after_one })
      answers_what_was_sent
