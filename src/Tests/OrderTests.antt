-- ===== src/Tests/OrderTests.antt =====
-- The order of destinations at concrete lists.
use text.Mathlib.TextEquality.{eq_iff}
use k8s_object_syncer.Base.{◌≡◌, ◌≢◌, String, inl, List, [], ◌∷◌, arith}
use k8s_object_syncer.Api.Types.{DestinationStatus}
use k8s_object_syncer.Api.Status.Order.{sort}
use k8s_object_syncer.Api.Status.Order.Sorted.{swap, sort-Shuffled}
use k8s_object_syncer.Tests.Samples.{copy_in}

abbrev two : List DestinationStatus
two = copy_in "b" ∷ copy_in "a" ∷ []

apart : ◌≢◌ {A = String} "b" "a"
apart = ground (arith, eq_iff "b" "a")

sort-Shuffled_example : sort two ≡ sort (copy_in "a" ∷ copy_in "b" ∷ [])
sort-Shuffled_example = sort-Shuffled (swap (copy_in "b") (copy_in "a") [] (inl apart))
