-- ===== src/ResourceController/Watch/Mapped.antt =====
-- Which objects the mappers of the resource controller name.
use mathlib.Core.Option.{get_or}
use Prim.Native.Char.{code}
use text.Mathlib.TextLemmas.{nil-append, cons-append}
use k8s_object_syncer.Base.{
  ℕ, String, string_eq, nat_eq, ◌<>◌, ◌==◌, ◌≡◌, ◌≢◌, ◌↔◌, ◌⊎◌, true, Option, some, List, [], ◌∷◌,
  ◌++◌, ◌+◌, ◌<◌, none, contains_iff, In-retain, Any, All, In, arith,
}
use k8s_object_syncer.Base.Dict.{lookup-insert}
use k8s_object_syncer.Kube.Meta.{Namespace, ObjectMeta}
use k8s_object_syncer.Kube.Server.{Kube}
use k8s_object_syncer.Kube.Client.{Object}
use k8s_object_syncer.Api.Types.{ObjectSync, DestinationStatus}
use k8s_object_syncer.Utils.Names.{
  NamespacedName, SourceRef, name_eq, object_sync_ref, source_ref_of_object,
  source_object_annotation,
}
use k8s_object_syncer.ResourceController.Registry.{Sources}
use k8s_object_syncer.ResourceController.Template.{
  source_template, destination_template, source_annotation,
}
use k8s_object_syncer.ResourceController.Watch.{
  registered_refs, is_target_namespace, should_reconcile, namespace_mapper, object_sync_mapper,
  split_slash, copy_mapper,
}

-- The text has no slash.
abbrev pub NoSlash : String → Type 0
NoSlash String.[] = Unit
NoSlash (String.◌∷◌ c s) = (code c ≢ b'/') × NoSlash s

split_slash-append :
    (ns name : String) → NoSlash ns → split_slash (ns <> ("/" <> name)) ≡ some (ns, name)
unfolding split_slash
split_slash-append String.[] name h = rw (nil-append, cons-append, nil-append) (ground arith)
split_slash-append (String.◌∷◌ c s) name (n, h) =
    simp cons-append (ground (arith, split_slash-append s name h))

module _ (K : Kube) where
  -- The copy of a source leads back to it: the annotation that `upsert_destinations` writes is
  -- read as the source's namespace and name, for a copy in a target namespace and a source whose
  -- namespace has no slash and whose name is not empty.
  pub copy_mapper-source_template :
      (target_namespaces : Option (List String)) (source : Object K) (d : DestinationStatus)
      → NoSlash (get_or source.metadata.namespace "")
      → K.name_any source.metadata ≢ ""
      → is_target_namespace target_namespaces d.namespace ≡ true
      → copy_mapper K target_namespaces (destination_template K (source_template K source) d)
        ≡ some (source_ref_of_object K source)
  unfolding copy_mapper source_template destination_template source_ref_of_object source_annotation
  copy_mapper-source_template target_namespaces source d plain named target =
      let annotations = get_or source.metadata.annotations [] in
      ground (
        arith,
        lookup-insert source_object_annotation source_object_annotation
            (source_annotation K source.metadata) annotations,
        split_slash-append (get_or source.metadata.namespace "") (K.name_any source.metadata) plain,
      )

In-append : {A : Type 0} (x : A) (l r : List A) → In x (l ++ r) ↔ (In x l ⊎ In x r)
In-append x [] r = ground arith
In-append x (y ∷ l) r = ground (arith, In-append x l r)

In-registered_refs :
    (n : NamespacedName) (sources : Sources)
    → In n (registered_refs sources) ↔ Any (λ (src, refs). In n refs) sources
unfolding registered_refs
In-registered_refs n [] = ground arith
In-registered_refs n ((src, refs) ∷ sources) =
    ground (arith, In-append n refs (registered_refs sources), In-registered_refs n sources)

-- The namespace is one that copies may go to, where that is restricted.
abbrev pub IsTarget : Option (List String) → String → Type 0
IsTarget none ns = Unit
IsTarget (some v) ns = In ns v

-- Fifteen minutes have not yet passed since then; an unknown time is long ago.
abbrev pub IsYoung : ℕ → Option ℕ → Type 0
IsYoung now none = ⊥
IsYoung now (some created) = now < created + 900

IsTarget-iff :
    (target_namespaces : Option (List String)) (ns : String)
    → (is_target_namespace target_namespaces ns ≡ true) ↔ IsTarget target_namespaces ns
unfolding is_target_namespace
IsTarget-iff none ns = ground arith
IsTarget-iff (some v) ns = contains_iff ns v

should_reconcile_iff :
    (now : ℕ) (m : ObjectMeta)
    → (should_reconcile now m ≡ true)
      ↔ ((m.deletion_timestamp ≢ none) ⊎ IsYoung now m.creation_timestamp)
unfolding should_reconcile
should_reconcile_iff now m = ground arith

module _ (K : Kube) where
  -- When a namespace changes, the reconciled names are those of the registered `ObjectSync`
  -- objects, and there are any only for a target namespace that is being deleted or was created
  -- less than fifteen minutes ago.
  pub In-namespace_mapper :
      (target_namespaces : Option (List String)) (sources : Sources) (now : ℕ) (ns : Namespace)
      (n : NamespacedName)
      → In n (namespace_mapper K target_namespaces sources now ns) ↔ (
          IsTarget target_namespaces (K.name_any ns.metadata)
          × ((ns.metadata.deletion_timestamp ≢ none) ⊎ IsYoung now ns.metadata.creation_timestamp)
          × Any (λ (src, refs). In n refs) sources)
  unfolding namespace_mapper
  In-namespace_mapper target_namespaces sources now ns n = ground (
    arith,
    In-registered_refs n sources,
    IsTarget-iff target_namespaces (K.name_any ns.metadata),
    should_reconcile_iff now ns.metadata,
  )

  none-In :
      (n : NamespacedName) (sources : Sources)
      → All (λ (src, refs). ¬ In n refs) sources
      → ¬ Any (λ (src, refs). In n refs) sources
  none-In n [] h i = i
  none-In n ((src, refs) ∷ sources) h i = ground (arith, none-In n sources)

  -- A source object whose namespace and name are those of no registered `ObjectSync` is not
  -- reconciled when a namespace changes, whatever is registered for it.
  namespace_mapper_misses :
      (target_namespaces : Option (List String)) (sources : Sources) (now : ℕ) (ns : Namespace)
      (src : SourceRef)
      → All (λ (k, refs). ¬ In src refs) sources
      → ¬ In src (namespace_mapper K target_namespaces sources now ns)
  namespace_mapper_misses target_namespaces sources now ns src h i =
      none-In src sources h ((In-namespace_mapper target_namespaces sources now ns src).0 i).2

  -- When an `ObjectSync` changes, an object is reconciled exactly if it is called like the
  -- `ObjectSync` and the `ObjectSync` is registered for some source: the source itself is not,
  -- unless it is called so.
  pub In-object_sync_mapper :
      (sources : Sources) (rs : ObjectSync) (n : NamespacedName)
      → In n (object_sync_mapper K sources rs) ↔ (
          (n.name ≡ K.name_any rs.metadata)
          × (n.namespace ≡ get_or rs.metadata.namespace "")
          × Any (λ (src, refs). In n refs) sources)
  unfolding object_sync_mapper object_sync_ref
  In-object_sync_mapper sources rs n = ground (
    arith,
    In-retain (λ v. v == object_sync_ref K rs) n (registered_refs sources),
    In-registered_refs n sources,
  )
