-- ===== src/Tests/ConfigurationTests.antt =====
-- The configuration of a concrete environment, and what is watched with it.
use native.Mathlib.Decide.{ℕ_discrete}
use text.Mathlib.TextEquality.{eq_iff}
use k8s_object_syncer.Base.{
  String, string_eq, ◌==◌, ◌≡◌, ◌≢◌, refl, true, Option, none, some, [], ◌∷◌, arith, map,
  if◌then◌else◌,
}
use k8s_object_syncer.Configuration.{is_whitespace, new, configured, namespaces_of}
use k8s_object_syncer.Configuration.Namespaces.{Padded, IsPadded, spelled, join, namespaces_of-join}
use k8s_object_syncer.ResourceController.Lookup.{in_namespaces}
use k8s_object_syncer.ResourceController.Start.{watches}
use k8s_object_syncer.ResourceController.Start.Scopes.{
  Reaches, watches-Reaches, source_role, admits, scope_of,
}

abbrev here : Padded
here = record { before = " "; name = "a"; after = "" }

abbrev there : Padded
there = record { before = ""; name = "b"; after = "  " }

here-IsPadded : IsPadded here
unfolding is_whitespace ℕ_discrete
here-IsPadded = record {
  blank_before = (refl, tt);
  blank_after = tt;
  plain_name = ((refl, ground arith), tt);
  real_name = (ground (arith, eq_iff "a" ""), ground (arith, eq_iff "a" "*"));
}

there-IsPadded : IsPadded there
unfolding is_whitespace ℕ_discrete
there-IsPadded = record {
  blank_before = tt;
  blank_after = (refl, (refl, tt));
  plain_name = ((refl, ground arith), tt);
  real_name = (ground (arith, eq_iff "b" ""), ground (arith, eq_iff "b" "*"));
}

b_is_not_a : ◌≢◌ {A = String} "b" "a"
b_is_not_a = ground (arith, eq_iff "b" "a")

namespaces_of-join_example :
    namespaces_of (join (map spelled (here ∷ there ∷ []))) ≡ some ("a" ∷ "b" ∷ [])
namespaces_of-join_example =
    namespaces_of-join here (there ∷ []) (here-IsPadded, (there-IsPadded, tt))
      ((b_is_not_a, tt), (tt, tt))

read_text : namespaces_of " a,b  " ≡ some ("a" ∷ "b" ∷ [])
unfolding namespaces_of string_eq is_whitespace ℕ_discrete
read_text = refl

abbrev environment : String → Option String
environment name = if name == "SOURCE_NAMESPACES" then some "a" else none

a_is_a_source : admits source_role (new environment) "a" ≡ true
unfolding new configured in_namespaces string_eq is_whitespace ℕ_discrete
a_is_a_source = refl

watches-Reaches_example : Reaches (scope_of source_role (watches (new environment))) "a"
watches-Reaches_example = watches-Reaches environment source_role "a" a_is_a_source
