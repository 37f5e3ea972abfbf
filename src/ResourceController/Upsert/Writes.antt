-- ===== src/ResourceController/Upsert/Writes.antt =====
-- Which objects `upsert_destinations` writes, and with what in their metadata.
use k8s_object_syncer.Base.{
  ℕ, zero, suc, String, ◌≡◌, refl, ◌⊎◌, inl, inr, false, some, List, [], ◌∷◌, All, All-map, Any,
  Any-of_In, In, arith, Result-cases, Bool-cases,
}
use k8s_object_syncer.Kube.Meta.{GroupVersionKind, DynamicObject}
use k8s_object_syncer.Kube.Server.{Kube, Api, Patch}
use k8s_object_syncer.Kube.Client.{
  Object, Env, Call, Request, get, patch_object, create_object, replace_object,
}
use k8s_object_syncer.Kube.Writes.{is_write}
use k8s_object_syncer.Api.Types.{DestinationStatus, ObjectRevision}
use k8s_object_syncer.Api.Destination.{revision_of}
use k8s_object_syncer.Utils.Names.{finalizer_name}
use k8s_object_syncer.Utils.Finalizers.{remove_finalizer}
use k8s_object_syncer.ResourceController.Template.{
  source_template, destination_template, at_revision,
}
use k8s_object_syncer.ResourceController.Upsert.{
  Progress, namespaced_api, is_remnant, retry_attempts, release_deleted, update_existing,
  attempt_once, attempt_loop, upsert_loop, upsert_destinations,
}

-- The object bears the destination's name and namespace and the finalizer.
abbrev pub WrittenFor : {T : Type 0} → DestinationStatus → DynamicObject T → Type 0
WrittenFor d o =
    (o.metadata.name ≡ some d.name)
    × (o.metadata.namespace ≡ some d.namespace)
    × (o.metadata.finalizers ≡ some (finalizer_name ∷ []))

-- A write addresses the destination, and its content is made for it.
abbrev pub WritesTo : {T Op : Type 0} → Api → DestinationStatus → Request T Op → Type 0
WritesTo at d (create_object api pp o) = (api ≡ at) × WrittenFor d o
WritesTo at d (replace_object api name pp o) = (api ≡ at) × (name ≡ d.name) × WrittenFor d o
WritesTo at d (patch_object api name pp (Patch.apply o)) =
    (api ≡ at) × (name ≡ d.name) × WrittenFor d o
WritesTo at d _ = ⊥

-- A call that writes nothing, writes to the destination, or is allowed otherwise.
abbrev Permits :
    (K : Kube) → GroupVersionKind → (Call K → Type 0) → DestinationStatus → Call K → Type 0
Permits K gvk R d c =
    (is_write c.request ≡ false) ⊎ WritesTo (namespaced_api K gvk d.namespace) d c.request ⊎ R c

module _ (K : Kube) (gvk : GroupVersionKind) (R : Call K → Type 0) (d : DestinationStatus) where
  remove_finalizer-Permits :
      (api : Api) (o : Object K) (f : String) (s : Env K)
      → All (Permits K gvk R d) s.calls
      → All (Permits K gvk R d) (remove_finalizer K api o f s).1.calls
  unfolding remove_finalizer
  remove_finalizer-Permits api o f s all = ground arith

  release_deleted-Permits :
      (src : ObjectRevision) (current : Object K) (s : Env K)
      → All (Permits K gvk R d) s.calls
      → All (Permits K gvk R d) (release_deleted K gvk src d current s).1.calls
  unfolding release_deleted
  release_deleted-Permits src current s all =
      ground (
        arith,
        remove_finalizer-Permits (namespaced_api K gvk d.namespace) current finalizer_name s,
      )

  module _ (src : ObjectRevision) (template : Object K) where
    update_existing-Permits :
        (p : Progress) (current : Object K) (s : Env K)
        → All (Permits K gvk R d) s.calls
        → All
            (Permits K gvk R d)
            (update_existing K gvk src (destination_template K template d) d p current s).1.calls
    unfolding update_existing destination_template at_revision
    update_existing-Permits p current s all = ground arith

    attempt_once-Permits :
        (p : Progress) (s : Env K)
        → All (Permits K gvk R d) s.calls
        → All
            (Permits K gvk R d)
            (attempt_once K gvk src (destination_template K template d) d p s).1.calls
    unfolding attempt_once destination_template at_revision
    attempt_once-Permits p s all =
        let s1 = (get K (namespaced_api K gvk d.namespace) d.name s).1 in
        elim (Result-cases (K.get (namespaced_api K gvk d.namespace) d.name s.world).0) [
          | inr (e, missing) ↦ ground arith
          | inl (current, found) ↦
              let s2 = (release_deleted K gvk src d current s1).1 in
              ground (
                arith,
                release_deleted-Permits src current s1,
                update_existing-Permits p current s2,
              )
        ]

    attempt_loop-Permits :
        (n : ℕ) (p : Progress) (s : Env K)
        → All (Permits K gvk R d) s.calls
        → All
            (Permits K gvk R d)
            (attempt_loop K gvk src n (destination_template K template d) d p s).1.calls
    unfolding attempt_loop
    attempt_loop-Permits zero p s all = all
    attempt_loop-Permits (suc n) p s all = ground (
      arith,
      attempt_once-Permits p s,
      attempt_loop-Permits n p (attempt_once K gvk src (destination_template K template d) d p s).1,
    )

-- A call that writes nothing, or writes to one of the destinations that is no remnant.
abbrev pub WritesWanted :
    (K : Kube)
    → GroupVersionKind
    → List DestinationStatus
    → List DestinationStatus
    → Call K
    → Type 0
WritesWanted K gvk remnants ds c =
    (is_write c.request ≡ false)
    ⊎ Any
        (λ d.
          (is_remnant remnants d ≡ false) × WritesTo (namespaced_api K gvk d.namespace) d c.request)
        ds

module _ (K : Kube) (gvk : GroupVersionKind) (src : ObjectRevision) (template : Object K)
    (remnants all_ds : List DestinationStatus) where
  abbrev Wanted : Call K → Type 0
  Wanted = WritesWanted K gvk remnants all_ds

  Wanted-of_Permits :
      (d : DestinationStatus)
      → In d all_ds
      → is_remnant remnants d ≡ false
      → (c : Call K) → Permits K gvk Wanted d c
      → Wanted c
  Wanted-of_Permits d i w c (inl quiet) = inl quiet
  Wanted-of_Permits d i w c (inr (inl writes)) = inr (Any-of_In _ d all_ds i (w, writes))
  Wanted-of_Permits d i w c (inr (inr wanted)) = wanted

  upsert_loop-Wanted :
      (ds : List DestinationStatus) (p : Progress) (s : Env K)
      → ((d : DestinationStatus) → In d ds → In d all_ds)
      → All Wanted s.calls
      → All Wanted (upsert_loop K gvk src template remnants ds p s).1.calls
  unfolding upsert_loop
  upsert_loop-Wanted [] p s sub all = all
  upsert_loop-Wanted (d ∷ ds) p s sub all =
      let later = λ (x : DestinationStatus) (i : In x ds). sub x (inr i) in
      elim (Bool-cases (is_remnant remnants d)) [
        | inl skipped ↦ ground (arith, upsert_loop-Wanted ds p s later all)
        | inr wanted ↦
            let r =
              attempt_loop K gvk src retry_attempts (destination_template K template d) d p s in
            let attempted : All Wanted r.1.calls =
              All-map (Permits K gvk Wanted d) Wanted _
                (Wanted-of_Permits d (sub d (inl refl)) wanted)
                (attempt_loop-Permits K gvk Wanted d src template retry_attempts p s
                  (All-map Wanted (Permits K gvk Wanted d) _ (λ c h. inr (inr h)) all)) in
            elim (Result-cases r.0) [
              | inr (e, failed) ↦ ground arith
              | inl (out, returned) ↦ ground (arith, upsert_loop-Wanted ds out.1 r.1 later)
            ]
      ]

module _ (K : Kube) (gvk : GroupVersionKind) (source : Object K)
    (ds remnants : List DestinationStatus) (s : Env K) where
  -- If nothing was written before, all that the loop creates, replaces or applies goes to
  -- destinations that are no remnants, and each time the object bears the destination's name and
  -- namespace and the finalizer.
  pub upsert_destinations-WritesWanted :
      All (WritesWanted K gvk remnants ds) s.calls
      → All
          (WritesWanted K gvk remnants ds)
          (upsert_destinations K gvk source ds remnants s).1.calls
  unfolding upsert_destinations
  upsert_destinations-WritesWanted all =
      let start : Progress = record { changed = false; observed_success = 0 } in
      let template = source_template K source in
      ground (
        arith,
        upsert_loop-Wanted K gvk (revision_of source.metadata) template remnants ds ds start s
            (λ (d : DestinationStatus) (i : In d ds). i) all,
      )
