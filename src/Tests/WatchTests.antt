-- ===== src/Tests/WatchTests.antt =====
-- The theorems about the mappers and the registry at concrete objects.
use text.Mathlib.TextEquality.{eq_iff}
use k8s_object_syncer.Base.{
  Returns, ok, ◌⊎◌, String, Option, List, arith, string_eq, ◌≡◌, ◌≢◌, ◌↔◌, none, some, [], ◌∷◌, Any,
  All, In, refl,
}
use k8s_object_syncer.Utils.Names.{NamespacedName, SourceRef, name_eq, source_ref_of_object}
use k8s_object_syncer.ResourceController.Registry.{Sources, ObjectSyncHandle}
use k8s_object_syncer.ResourceController.Template.{source_template, destination_template}
use k8s_object_syncer.ResourceController.Watch.{
  is_target_namespace, namespace_mapper, object_sync_mapper, copy_mapper,
}
use k8s_object_syncer.ResourceController.Watch.Mapped.{
  NoSlash, IsTarget, IsYoung, copy_mapper-source_template, In-namespace_mapper,
  In-object_sync_mapper,
}
use k8s_object_syncer.ResourceController.Lookup.{lookup_object_syncs_for_source}
use k8s_object_syncer.ResourceController.Lookup.Matching.{
  Finds, lookup_object_syncs_for_source-Governs,
}
use k8s_object_syncer.Kube.Server.{Kube}
use k8s_object_syncer.Kube.Client.{Env}
use k8s_object_syncer.Tests.Cluster.{cluster}
use k8s_object_syncer.Tests.Samples.{env, source, copy_in, ending, everywhere}

abbrev me : SourceRef
me = record { name = "me"; namespace = "default" }

abbrev distributor : NamespacedName
distributor = record { name = "distributor"; namespace = "default" }

abbrev sources : Sources
sources = (me, distributor ∷ []) ∷ []

abbrev handle : ObjectSyncHandle
handle = record { src = me; crd = distributor }

me_is_named : ◌≢◌ {A = String} "me" ""
me_is_named = ground (arith, eq_iff "me" "")

other_name : ◌≢◌ {A = String} "me" "distributor"
other_name = ground (arith, eq_iff "me" "distributor")

me_is_no_sync : All (λ (k, refs). ¬ In me refs) sources
me_is_no_sync = ground (arith, other_name)

default_is_plain : NoSlash "default"
default_is_plain = ground arith

copy_mapper-source_template_example :
    copy_mapper cluster none
      (destination_template cluster (source_template cluster source) (copy_in "a"))
    ≡ some (source_ref_of_object cluster source)
unfolding is_target_namespace
copy_mapper-source_template_example =
    copy_mapper-source_template cluster none source (copy_in "a") default_is_plain me_is_named refl

In-namespace_mapper_example :
    In distributor (namespace_mapper cluster none sources 5 (ending "b")) ↔ (
      IsTarget none "b"
      × (((ending "b").metadata.deletion_timestamp ≢ none)
          ⊎ IsYoung 5 (ending "b").metadata.creation_timestamp)
      × Any (λ (src, refs). In distributor refs) sources)
In-namespace_mapper_example = In-namespace_mapper cluster none sources 5 (ending "b") distributor

In-object_sync_mapper_example : In distributor (object_sync_mapper cluster sources everywhere) ↔ (
    (distributor.name ≡ "distributor")
    × (distributor.namespace ≡ "default")
    × Any (λ (src, refs). In distributor refs) sources)
In-object_sync_mapper_example = In-object_sync_mapper cluster sources everywhere distributor

abbrev default_only : Option (List String)
default_only = some ("default" ∷ [])

-- Every read of an `ObjectSync` finds the same one.
abbrev constant : Kube
constant = record cluster { get_sync = λ ns name w. (ok everywhere, w) }

abbrev constant_env : Env constant
constant_env = record { world = env.world; calls = [] }

lookup_object_syncs_for_source-Governs_example :
    Returns
      (Finds (λ ns name. ok everywhere) default_only sources me)
      (lookup_object_syncs_for_source constant default_only sources me constant_env).0
lookup_object_syncs_for_source-Governs_example =
    lookup_object_syncs_for_source-Governs constant (λ ns name. ok everywhere) me
      (λ ns name w. refl) default_only sources constant_env
