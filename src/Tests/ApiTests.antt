-- ===== src/Tests/ApiTests.antt =====
-- The theorems about the custom resource at concrete objects.
use k8s_object_syncer.Base.{string_eq, ◌≡◌, ◌≢◌, ◌↔◌, refl, none, some, List, [], ◌∷◌, String}
use k8s_object_syncer.Api.Types.{Condition}
use k8s_object_syncer.Api.Destination.{applies_to}
use k8s_object_syncer.Api.Destination.Targets.{Covers, target_name, source_ref, applies_to_iff}
use k8s_object_syncer.Api.Status.{put_condition}
use k8s_object_syncer.Api.Status.Conditions.{UniqueTypes, put_condition-UniqueTypes}
use k8s_object_syncer.Tests.Samples.{everywhere, destination, condition}

-- The source is not its own destination, and a renamed copy may stand beside it (lib.rs).
applies_to_source : applies_to (destination none "*") everywhere "default" ≡ none
unfolding applies_to string_eq
applies_to_source = refl

applies_to_renamed :
    applies_to (destination (some "you") "*") everywhere "default" ≡ some ("default", "you")
unfolding applies_to string_eq
applies_to_renamed = refl

applies_to_iff_example : (applies_to (destination none "*") everywhere "a" ≡ some ("a", "me")) ↔ (
    ◌≡◌ {A = String × String} ("a", "me") ("a", target_name (destination none "*") everywhere)
    × Covers (destination none "*") "a"
    × ◌≢◌ {A = String × String} ("a", "me") (source_ref everywhere))
applies_to_iff_example = applies_to_iff (destination none "*") everywhere "a" ("a", "me")

abbrev conditions : List Condition
conditions = condition "Ready" "x" ∷ condition "InSync" "y" ∷ []

put_condition-UniqueTypes_example : UniqueTypes (put_condition (condition "Ready" "z") conditions)
unfolding string_eq
put_condition-UniqueTypes_example =
    put_condition-UniqueTypes (condition "Ready" "z") conditions (refl, (refl, tt))
