-- ===== src/ResourceController/Expected/Members.antt =====
-- Which copies `expected_destinations` asks for, and that the source is never one of them.
use k8s_object_syncer.Base.{
  String, string_eq, ◌==◌, ◌≡◌, ◌≢◌, ◌↔◌, ◌⊎◌, inl, inr, false, Option, some, List, [], ◌∷◌, ◌++◌,
  Any, All, In, find, arith, Option-cases,
}
use k8s_object_syncer.Kube.Meta.{Namespace}
use k8s_object_syncer.Kube.Server.{Kube}
use k8s_object_syncer.Api.Types.{Destination, ObjectSync}
use k8s_object_syncer.Api.Destination.{applies_to, applies_to_all_namespaces}
use k8s_object_syncer.Api.Destination.Targets.{applies_to_iff, source_ref}
use k8s_object_syncer.ResourceController.Expected.{
  Target, terminating, ns_name, all_targets, one_target, destination_targets, flat_targets,
  expected_destinations,
}

module _ (K : Kube) (obj : ObjectSync) where
  -- The cache holds each namespace once.
  abbrev pub UniqueNames : List Namespace → Type 0
  UniqueNames [] = Unit
  UniqueNames (ns ∷ cache) =
      All (λ other. ns_name K obj other ≢ ns_name K obj ns) cache × UniqueNames cache

module _ (K : Kube) (obj : ObjectSync) (t : Target) where
  -- The destination asks for the copy in this namespace, which is not being deleted.
  abbrev pub AsksIn : Destination → Namespace → Type 0
  AsksIn d ns =
      (terminating ns ≡ false)
      × (applies_to d obj (ns_name K obj ns) ≡ some (t.namespace, t.name))
      × (t.strategy ≡ d.strategy)

  abbrev pub Asks : List Namespace → Destination → Type 0
  Asks cache d = Any (AsksIn d) cache

  In-all_targets :
      (d : Destination) (cache : List Namespace) → In t (all_targets K obj d cache) ↔ Asks cache d
  unfolding all_targets
  In-all_targets d [] = ground arith
  In-all_targets d (ns ∷ cache) = ground (arith, In-all_targets d cache)

  named : Destination → List Namespace → Option Namespace
  named d = find (λ ns. ns_name K obj ns == d.namespace)

  -- An explicit namespace is the only one that its destination covers.
  covers_one :
      (d : Destination) (ns : String)
      → applies_to_all_namespaces d ≡ false
      → applies_to d obj ns ≡ some (t.namespace, t.name)
      → d.namespace ≡ ns
  unfolding applies_to_all_namespaces
  covers_one d ns one h = ground (arith, (applies_to_iff d obj ns (t.namespace, t.name)).0 h)

  named-Asks :
      (d : Destination) (cache : List Namespace) (ns : Namespace)
      → named d cache ≡ some ns
      → terminating ns ≡ false
      → applies_to d obj d.namespace ≡ some (t.namespace, t.name)
      → t.strategy ≡ d.strategy
      → Asks cache d
  unfolding named
  named-Asks d [] ns found live applies same = cc
  named-Asks d (x ∷ cache) ns found live applies same = ground (arith, named-Asks d cache ns)

  Asks-elsewhere :
      (d : Destination) (cache : List Namespace) (name : String)
      → applies_to_all_namespaces d ≡ false
      → All (λ other. ns_name K obj other ≢ name) cache
      → Asks cache d
      → name ≢ d.namespace
  Asks-elsewhere d [] name one fresh h = absurd h
  Asks-elsewhere d (x ∷ cache) name one fresh h =
      ground (arith, covers_one d (ns_name K obj x), Asks-elsewhere d cache name one fresh.1)

  Asks-named :
      (d : Destination) (cache : List Namespace)
      → applies_to_all_namespaces d ≡ false
      → UniqueNames K obj cache
      → Asks cache d
      → (ns : Namespace) × (named d cache ≡ some ns) × AsksIn d ns
  unfolding named
  Asks-named d (x ∷ cache) one (fresh, u) (inl h) =
      (x, ground (arith, covers_one d (ns_name K obj x)), h)
  Asks-named d (x ∷ cache) one (fresh, u) (inr h) =
      let (ns, found, asks) = Asks-named d cache one u h in
      (ns, ground (arith, Asks-elsewhere d cache (ns_name K obj x) one fresh h), asks)
  Asks-named d [] one u h = absurd h

  In-one_target :
      (d : Destination) (cache : List Namespace) → In t (one_target K obj d cache) → Asks cache d
  unfolding one_target named
  In-one_target d cache h = elim (Option-cases (named d cache)) [
    | inl absent ↦ ground arith
    | inr (ns, found) ↦ ground (arith, named-Asks d cache ns found)
  ]

  one_target-In :
      (d : Destination) (cache : List Namespace)
      → applies_to_all_namespaces d ≡ false
      → UniqueNames K obj cache
      → Asks cache d
      → In t (one_target K obj d cache)
  unfolding one_target named
  one_target-In d cache one u h =
      let (ns, found, asks) = Asks-named d cache one u h in
      ground (arith, covers_one d (ns_name K obj ns))

  In-append : (l r : List Target) → In t (l ++ r) ↔ (In t l ⊎ In t r)
  In-append [] r = ground arith
  In-append (x ∷ l) r = ground (arith, In-append l r)

  In-destination_targets :
      (d : Destination) (cache : List Namespace)
      → In t (destination_targets K obj d cache)
      → Asks cache d
  unfolding destination_targets
  In-destination_targets d cache h = ground (arith, In-all_targets d cache, In-one_target d cache)

  destination_targets-In :
      (d : Destination) (cache : List Namespace)
      → UniqueNames K obj cache
      → Asks cache d
      → In t (destination_targets K obj d cache)
  unfolding destination_targets
  destination_targets-In d cache u h = ground (
    arith,
    In-all_targets d cache,
    λ (p : applies_to_all_namespaces d ≡ false). one_target-In d cache p u h,
  )

  In-flat_targets :
      (ds : List Destination) (cache : List Namespace)
      → In t (flat_targets K obj ds cache)
      → Any (Asks cache) ds
  unfolding flat_targets
  In-flat_targets [] cache h = h
  In-flat_targets (d ∷ ds) cache h = ground (
    arith,
    In-append (destination_targets K obj d cache) (flat_targets K obj ds cache),
    In-destination_targets d cache,
    In-flat_targets ds cache,
  )

  flat_targets-In :
      (ds : List Destination) (cache : List Namespace)
      → UniqueNames K obj cache
      → Any (Asks cache) ds
      → In t (flat_targets K obj ds cache)
  unfolding flat_targets
  flat_targets-In [] cache u h = h
  flat_targets-In (d ∷ ds) cache u h = ground (
    arith,
    In-append (destination_targets K obj d cache) (flat_targets K obj ds cache),
    destination_targets-In d cache u,
    flat_targets-In ds cache u,
  )

module _ (K : Kube) (obj : ObjectSync) where
  -- With each namespace once in the cache, the expected copies are exactly those that some
  -- destination of the specification asks for in some namespace that is not being deleted.
  pub In-expected_destinations :
      (cache : List Namespace) (t : Target)
      → UniqueNames K obj cache
      → In t (expected_destinations K obj cache)
        ↔ Any (λ d. Any (AsksIn K obj t d) cache) obj.spec.destinations
  unfolding expected_destinations
  In-expected_destinations cache t u = (
    In-flat_targets K obj t obj.spec.destinations cache,
    flat_targets-In K obj t obj.spec.destinations cache u,
  )

  Asks-not_source :
      (t : Target) (d : Destination) (cache : List Namespace)
      → Asks K obj t cache d
      → (t.namespace, t.name) ≢ source_ref obj
  Asks-not_source t d [] h = absurd h
  Asks-not_source t d (ns ∷ cache) h = ground (
    arith,
    (applies_to_iff d obj (ns_name K obj ns) (t.namespace, t.name)).0,
    Asks-not_source t d cache,
  )

  Any-Asks_not_source :
      (t : Target) (ds : List Destination) (cache : List Namespace)
      → Any (Asks K obj t cache) ds
      → (t.namespace, t.name) ≢ source_ref obj
  Any-Asks_not_source t [] cache h = absurd h
  Any-Asks_not_source t (d ∷ ds) cache h =
      ground (arith, Asks-not_source t d cache, Any-Asks_not_source t ds cache)

  -- Whatever the cache holds, no expected copy has the namespace and the name of the source.
  pub expected_destinations-ne-source :
      (cache : List Namespace) (t : Target)
      → In t (expected_destinations K obj cache)
      → (t.namespace, t.name) ≢ source_ref obj
  unfolding expected_destinations
  expected_destinations-ne-source cache t h =
      Any-Asks_not_source t obj.spec.destinations cache
        (In-flat_targets K obj t obj.spec.destinations cache h)
