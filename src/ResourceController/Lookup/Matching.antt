-- ===== src/ResourceController/Lookup/Matching.antt =====
-- Which `ObjectSync` objects govern a source.
use mathlib.Core.Path.{subst}
use k8s_object_syncer.Base.{
  ◌≡◌, ◌≢◌, ◌↔◌, ◌⊎◌, ◌∙◌, sym, true, Option, none, some, List, [], ◌∷◌, Any, Any-of_In, In, refl,
  contains_iff, string_eq, Returns, Result, Result-cases, String, arith, ok, Option-cases,
  Bool-cases, ◌==◌, inl, inr,
}
use k8s_object_syncer.Base.Dict
use k8s_object_syncer.Kube.Meta.{KubeError}
use k8s_object_syncer.Kube.Server.{Kube}
use k8s_object_syncer.Api.Types.{ObjectSync}
use k8s_object_syncer.Kube.Client.{Env}
use k8s_object_syncer.Utils.Names.{SourceRef, ObjectSyncRef, name_eq, source_ref_of_sync}
use k8s_object_syncer.Modifications.{ObjectSyncModifications, new}
use k8s_object_syncer.ResourceController.Registry.{Sources}
use k8s_object_syncer.ResourceController.Lookup.{
  in_namespaces, tracked_refs, get_object_sync, load_object_syncs, lookup_object_syncs_for_source,
}

-- The namespace is one that sources may stand in, where that is restricted.
abbrev pub IsWithin : Option (List String) → String → Type 0
IsWithin none ns = Unit
IsWithin (some v) ns = (v ≡ []) ⊎ In ns v ⊎ In "*" v

-- The `ObjectSync` is registered for the source, which lies in a source namespace.
abbrev pub IsRegistered : Option (List String) → Sources → SourceRef → ObjectSyncRef → Type 0
IsRegistered source_namespaces sources source_ref r =
    IsWithin source_namespaces source_ref.namespace
    × ((refs : List ObjectSyncRef) × (Dict.lookup source_ref sources ≡ some refs) × In r refs)

abbrev pub Answers : Type 0
Answers = Option String → String → Result KubeError ObjectSync

-- The server answers with this object, whose source is the given one.
abbrev pub Governs : Answers → SourceRef → ObjectSyncRef → ObjectSyncModifications → Type 0
Governs answers source_ref r m =
    (answers (some r.namespace) r.name ≡ ok m.original)
    × (m.modified ≡ m.original)
    × (source_ref_of_sync m.original ≡ source_ref)

-- What the lookup finds: nothing if no `ObjectSync` is registered, and else those of the registered
-- ones that the server answers with and whose source is this one.
abbrev pub Finds :
    Answers
    → Option (List String)
    → Sources
    → SourceRef
    → Option (List ObjectSyncModifications)
    → Type 0
Finds answers source_namespaces sources source_ref none =
    (r : ObjectSyncRef) → ¬ IsRegistered source_namespaces sources source_ref r
Finds answers source_namespaces sources source_ref (some ms) =
    ((r : ObjectSyncRef) × IsRegistered source_namespaces sources source_ref r)
    × ((m : ObjectSyncModifications)
        → In m ms ↔ (
            (r : ObjectSyncRef) × IsRegistered source_namespaces sources source_ref r
            × Governs answers source_ref r m))

in_namespaces_iff :
    (namespaces : Option (List String)) (ns : String)
    → (in_namespaces namespaces ns ≡ true) ↔ IsWithin namespaces ns
unfolding in_namespaces
in_namespaces_iff none ns = ground arith
in_namespaces_iff (some []) ns = ground arith
in_namespaces_iff (some (x ∷ v)) ns =
    ground (arith, contains_iff ns (x ∷ v), contains_iff "*" (x ∷ v))

some_injective : {A : Type 0} {a b : A} → ◌≡◌ {A = Option A} (some a) (some b) → a ≡ b
some_injective h = ground arith

module _ (source_namespaces : Option (List String)) (sources : Sources)
    (source_ref : SourceRef) where
  tracked_refs-some :
      (refs : List ObjectSyncRef)
      → tracked_refs source_namespaces sources source_ref ≡ some refs
      → (in_namespaces source_namespaces source_ref.namespace ≡ true)
        × (Dict.lookup source_ref sources ≡ some refs)
        × (refs ≢ [])
  unfolding tracked_refs
  tracked_refs-some refs h = elim (Option-cases (Dict.lookup source_ref sources)) [
    | inl unknown ↦ ground arith
    | inr ([], known) ↦ ground arith
    | inr (r ∷ refs', known) ↦ ground arith
  ]

  tracked_refs-none :
      (r : ObjectSyncRef)
      → tracked_refs source_namespaces sources source_ref ≡ none
      → ¬ IsRegistered source_namespaces sources source_ref r
  unfolding tracked_refs
  tracked_refs-none r h (within, ([], known, i)) = i
  tracked_refs-none r h (within, (x ∷ refs, known, i)) =
      let inside = (in_namespaces_iff source_namespaces source_ref.namespace).1 within in
      ground arith

  -- The registered references are those that are loaded.
  IsRegistered-iff :
      (refs : List ObjectSyncRef) (r : ObjectSyncRef)
      → tracked_refs source_namespaces sources source_ref ≡ some refs
      → In r refs ↔ IsRegistered source_namespaces sources source_ref r
  IsRegistered-iff refs r h =
      let (inside, known, _) = tracked_refs-some refs h in
      (
        λ i.
            ((in_namespaces_iff source_namespaces source_ref.namespace).0 inside, (refs, known, i)),
        λ (within, (refs', known', i)). subst (In r) (some_injective (sym known' ∙ known)) i,
      )

-- The server answers every read of an `ObjectSync` alike.
module _ (K : Kube) (answers : Answers) (source_ref : SourceRef)
    (steady : (ns : Option String) (name : String) (w : K.World)
      → (K.get_sync ns name w).0 ≡ answers ns name) where
  load_one :
      (r : ObjectSyncRef) (refs : List ObjectSyncRef) (ms : List ObjectSyncModifications)
      (s : Env K)
      → (load_object_syncs K source_ref refs (get_object_sync K r s).1).0 ≡ ok ms
      → (ms' : List ObjectSyncModifications) × ((load_object_syncs K source_ref (r ∷ refs) s).0
          ≡ ok ms')
        × ((m : ObjectSyncModifications) → In m ms' ↔ (Governs answers source_ref r m ⊎ In m ms))
  unfolding load_object_syncs get_object_sync new
  load_one r refs ms s rest = elim (Result-cases (answers (some r.namespace) r.name)) [
    | inr (e, unread) ↦
        (ms, ground (arith, steady (some r.namespace) r.name s.world), λ m. ground arith)
    | inl (o, read) ↦ elim (Bool-cases (source_ref_of_sync o == source_ref)) [
      | inl matching ↦
          (new o ∷ ms, ground (arith, steady (some r.namespace) r.name s.world), λ m. ground arith)
      | inr other ↦
          (ms, ground (arith, steady (some r.namespace) r.name s.world), λ m. ground arith)
    ]
  ]

  -- An `ObjectSync` is loaded if the server answers with it and its source is this one.
  load_object_syncs-Governs :
      (refs : List ObjectSyncRef) (s : Env K)
      → (ms : List ObjectSyncModifications) × ((load_object_syncs K source_ref refs s).0 ≡ ok ms)
        × ((m : ObjectSyncModifications) → In m ms ↔ Any (λ r. Governs answers source_ref r m) refs)
  unfolding load_object_syncs
  load_object_syncs-Governs [] s = ([], refl, λ m. ground arith)
  load_object_syncs-Governs (r ∷ refs) s =
      let (ms, rest, iff) = load_object_syncs-Governs refs (get_object_sync K r s).1 in
      let (ms', all, iff') = load_one r refs ms s rest in
      (ms', all, λ m. ground (arith, iff m, iff' m))

  registered_Any :
      (P : ObjectSyncRef → Type 0) (refs : List ObjectSyncRef)
      → Any P refs
      → (r : ObjectSyncRef) × In r refs × P r
  registered_Any P [] h = absurd h
  registered_Any P (x ∷ refs) (inl p) = (x, inl refl, p)
  registered_Any P (x ∷ refs) (inr h) = let (r, i, p) = registered_Any P refs h in (r, inr i, p)

  any_registered :
      {P : ObjectSyncRef → Type 0} (refs : List ObjectSyncRef)
      → refs ≢ []
      → ((r : ObjectSyncRef) → In r refs ↔ P r)
      → (r : ObjectSyncRef) × P r
  any_registered [] some_ref same = absurd (some_ref refl)
  any_registered (r ∷ refs) some_ref same = (r, (same r).0 (inl refl))

  lookup_none :
      (source_namespaces : Option (List String)) (sources : Sources) (s : Env K)
      → tracked_refs source_namespaces sources source_ref ≡ none
      → (lookup_object_syncs_for_source K source_namespaces sources source_ref s).0 ≡ ok none
  unfolding lookup_object_syncs_for_source
  lookup_none source_namespaces sources s untracked = ground arith

  lookup_some :
      (source_namespaces : Option (List String)) (sources : Sources) (s : Env K)
      (refs : List ObjectSyncRef) (ms : List ObjectSyncModifications)
      → tracked_refs source_namespaces sources source_ref ≡ some refs
      → (load_object_syncs K source_ref refs s).0 ≡ ok ms
      → (lookup_object_syncs_for_source K source_namespaces sources source_ref s).0 ≡ ok (some ms)
  unfolding lookup_object_syncs_for_source
  lookup_some source_namespaces sources s refs ms tracked done = ground arith

  -- If the server answers every read of an `ObjectSync` alike, the lookup comes back, and finds: none
  -- exactly if no `ObjectSync` is registered for the source or the source lies in no source
  -- namespace; and else, as the server gave them, exactly those of the registered ones that could be
  -- read and whose source is still this one.
  pub lookup_object_syncs_for_source-Governs :
      (source_namespaces : Option (List String)) (sources : Sources) (s : Env K)
      → Returns
          (Finds answers source_namespaces sources source_ref)
          (lookup_object_syncs_for_source K source_namespaces sources source_ref s).0
  lookup_object_syncs_for_source-Governs source_namespaces sources s =
      elim (Option-cases (tracked_refs source_namespaces sources source_ref)) [
        | inl untracked ↦
            subst (Returns (Finds answers source_namespaces sources source_ref))
              (sym (lookup_none source_namespaces sources s untracked))
              (λ r. tracked_refs-none source_namespaces sources source_ref r untracked)
        | inr (refs, tracked) ↦
            let same : (r : ObjectSyncRef)
                → In r refs ↔ IsRegistered source_namespaces sources source_ref r =
              λ r. IsRegistered-iff source_namespaces sources source_ref refs r tracked in
            let (ms, done, iff) = load_object_syncs-Governs refs s in
            subst (Returns (Finds answers source_namespaces sources source_ref))
              (sym (lookup_some source_namespaces sources s refs ms tracked done))
              (
                any_registered refs
                    (tracked_refs-some source_namespaces sources source_ref refs tracked).2 same,
                λ m. (
                  λ i.
                      let (r, there, governs) =
                        registered_Any (λ r. Governs answers source_ref r m) refs ((iff m).0 i) in
                      (r, (same r).0 there, governs),
                  λ (r, known, governs). (iff m).1 (
                      Any-of_In (λ r. Governs answers source_ref r m) r refs ((same r).1 known)
                        governs),
                ),
              )
      ]
