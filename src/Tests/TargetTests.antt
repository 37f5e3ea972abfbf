-- ===== src/Tests/TargetTests.antt =====
-- The theorems about the expected copies and the plan at a concrete `ObjectSync`.
use text.Mathlib.TextEquality.{eq_iff}
use k8s_object_syncer.Api.Status.{status_destinations}
use k8s_object_syncer.Base.{
  ◌≡◌, ◌≢◌, ◌↔◌, refl, inl, String, string_eq, none, List, [], ◌∷◌, Any, In, arith,
}
use k8s_object_syncer.Api.Types.{DestinationStatus}
use k8s_object_syncer.Api.Destination.{applies_to}
use k8s_object_syncer.Api.Destination.Targets.{source_ref}
use k8s_object_syncer.ResourceController.Expected.{Target, expected_destinations}
use k8s_object_syncer.ResourceController.Expected.Members.{
  AsksIn, UniqueNames, In-expected_destinations, expected_destinations-ne-source,
}
use k8s_object_syncer.ResourceController.Source.{plan_destinations}
use k8s_object_syncer.ResourceController.Source.Plan.{
  AsksFor, Tracks, plan_destinations-stale, plan_destinations-Tracks,
}
use k8s_object_syncer.Tests.Cluster.{cluster}
use k8s_object_syncer.Tests.Samples.{config_map, everywhere, spaces, copy_in, tracking}

abbrev target_a : Target
target_a = record { namespace = "a"; name = "me"; strategy = none }

-- The source's own namespace and the one that is being deleted are left out.
expected : expected_destinations cluster everywhere spaces ≡ target_a ∷ []
unfolding expected_destinations applies_to string_eq
expected = refl

unique : UniqueNames cluster everywhere spaces
unfolding string_eq
unique = ground (arith, eq_iff "default" "a", eq_iff "default" "b", eq_iff "a" "b")

In-expected_destinations_example :
    In target_a (expected_destinations cluster everywhere spaces)
    ↔ Any (λ d. Any (AsksIn cluster everywhere target_a d) spaces) everywhere.spec.destinations
In-expected_destinations_example =
    In-expected_destinations cluster everywhere spaces target_a unique

expected_destinations-ne-source_example :
    ◌≢◌ {A = String × String} ("a", "me") (source_ref everywhere)
unfolding expected_destinations applies_to string_eq
expected_destinations-ne-source_example =
    expected_destinations-ne-source cluster everywhere spaces target_a (inl refl)

abbrev tracked_copies : List DestinationStatus
tracked_copies = copy_in "a" ∷ copy_in "old" ∷ []

plan_destinations-stale_example :
    In
      (copy_in "old")
      (plan_destinations cluster config_map (tracking tracked_copies) (target_a ∷ [])).stale
    ↔ (In (copy_in "old") tracked_copies
        × ¬ Any (AsksFor config_map (copy_in "old")) (target_a ∷ []))
unfolding status_destinations
plan_destinations-stale_example =
    plan_destinations-stale config_map (tracking tracked_copies) (target_a ∷ []) cluster
      (copy_in "old")

plan_destinations-Tracks_example :
    Tracks config_map tracked_copies
      (target_a ∷ [])
      (plan_destinations cluster config_map (tracking tracked_copies) (target_a ∷ [])).expected
unfolding status_destinations
plan_destinations-Tracks_example =
    plan_destinations-Tracks config_map (tracking tracked_copies) (target_a ∷ []) cluster
