-- ===== src/ResourceController/Source/Plan/Again.antt =====
-- Planning again over a status that tracks what is expected.
use k8s_object_syncer.Base.{
  ◌≡◌, ◌≢◌, ◌⊎◌, refl, true, false, not, none, some, List, [], ◌∷◌, find, retain, All, arith,
  string_eq,
}
use k8s_object_syncer.Kube.Meta.{GroupVersionKind}
use k8s_object_syncer.Kube.Server.{Kube}
use k8s_object_syncer.Api.Types.{DestinationStatus, ObjectSync, strategy_eq}
use k8s_object_syncer.Api.Destination.{status_strategy}
use k8s_object_syncer.Api.Status.{status_destinations}
use k8s_object_syncer.Api.Status.Order.Sorted.{All-sort}
use k8s_object_syncer.Api.Status.Order.{insert_sorted, sort}
use k8s_object_syncer.ResourceController.Expected.{Target}
use k8s_object_syncer.ResourceController.Upsert.{is_same_destination}
use k8s_object_syncer.ResourceController.Source.{
  Merge, fresh_status, carry_versions, plan_destinations,
}
use k8s_object_syncer.ResourceController.Source.Plan.{
  same, is_expected, entry, planned, expected-merge_targets, stale-merge_targets,
}

abbrev Apart : Target → Target → Type 0
Apart t u = (t.namespace ≢ u.namespace) ⊎ (t.name ≢ u.name)

-- No two targets have one namespace and name.
abbrev pub AllApart : List Target → Type 0
AllApart [] = Unit
AllApart (t ∷ ts) = All (Apart t) ts × AllApart ts

module _ (gvk : GroupVersionKind) where
  -- The status is that of the target, at any revisions.
  abbrev Fits : Target → DestinationStatus → Type 0
  Fits t d = d ≡ record (fresh_status gvk t) {
    source_version = d.source_version;
    synced_version = d.synced_version;
  }

  -- One status for each target.
  abbrev pub AllFit : List Target → List DestinationStatus → Type 0
  AllFit [] [] = Unit
  AllFit (t ∷ ts) (d ∷ l) = Fits t d × AllFit ts l
  AllFit _ _ = ⊥

  Fits-same : (t : Target) (d : DestinationStatus) → Fits t d → same gvk t d ≡ true
  unfolding fresh_status is_same_destination
  Fits-same t d h = ground arith

  Fits-not-same :
      (t u : Target) (d : DestinationStatus) → Apart t u → Fits u d → same gvk t d ≡ false
  unfolding fresh_status is_same_destination
  Fits-not-same t u d apart h = ground arith

  Fits-Apart :
      (t u : Target) (d : DestinationStatus)
      → Apart t u
      → same gvk t d ≡ true
      → same gvk u d ≡ false
  unfolding fresh_status is_same_destination
  Fits-Apart t u d apart h = ground arith

  find-insert_sorted :
      (t : Target) (d : DestinationStatus) (l : List DestinationStatus)
      → same gvk t d ≡ false
      → find (same gvk t) (insert_sorted d l) ≡ find (same gvk t) l
  unfolding insert_sorted
  find-insert_sorted t d [] h = ground arith
  find-insert_sorted t d (x ∷ l) h = ground (arith, find-insert_sorted t d l h)

  find-insert_sorted-same :
      (t : Target) (d : DestinationStatus) (l : List DestinationStatus)
      → same gvk t d ≡ true
      → find (same gvk t) l ≡ none
      → find (same gvk t) (insert_sorted d l) ≡ some d
  unfolding insert_sorted
  find-insert_sorted-same t d [] h absent = ground arith
  find-insert_sorted-same t d (x ∷ l) h absent = ground (arith, find-insert_sorted-same t d l h)

  find-sort-none :
      (t : Target) (ts : List Target) (l : List DestinationStatus)
      → All (Apart t) ts
      → AllFit ts l
      → find (same gvk t) (sort l) ≡ none
  unfolding sort
  find-sort-none t [] [] apart fits = refl
  find-sort-none t (u ∷ ts) (d ∷ l) (p, ps) (f, fs) =
      ground (
        arith,
        Fits-not-same t u d p f,
        find-insert_sorted t d (sort l),
        find-sort-none t ts l ps fs,
      )
  find-sort-none t [] (d ∷ l) apart fits = absurd fits
  find-sort-none t (u ∷ ts) [] apart fits = absurd fits

  -- Each target finds its status in the list.
  abbrev Known : List DestinationStatus → List Target → List DestinationStatus → Type 0
  Known old [] [] = Unit
  Known old (t ∷ ts) (d ∷ l) = (find (same gvk t) old ≡ some d) × Known old ts l
  Known old _ _ = ⊥

  Known-insert_sorted :
      (t : Target) (d : DestinationStatus) (old : List DestinationStatus) (ts : List Target)
      (l : List DestinationStatus)
      → Fits t d
      → All (Apart t) ts
      → Known old ts l
      → Known (insert_sorted d old) ts l
  Known-insert_sorted t d old [] [] f apart known = tt
  Known-insert_sorted t d old (u ∷ ts) (e ∷ l) f (p, ps) (k, ks) = (
    ground (arith, Fits-Apart t u d p (Fits-same t d f), find-insert_sorted u d old),
    Known-insert_sorted t d old ts l f ps ks,
  )
  Known-insert_sorted t d old [] (e ∷ l) f apart known = known
  Known-insert_sorted t d old (u ∷ ts) [] f apart known = known

  Known-sort :
      (ts : List Target) (l : List DestinationStatus)
      → AllApart ts
      → AllFit ts l
      → Known (sort l) ts l
  unfolding sort
  Known-sort [] [] apart fits = tt
  Known-sort (t ∷ ts) (d ∷ l) (p, ps) (f, fs) = (
    find-insert_sorted-same t d (sort l) (Fits-same t d f) (find-sort-none t ts l p fs),
    Known-insert_sorted t d (sort l) ts l f p (Known-sort ts l ps fs),
  )
  Known-sort [] (d ∷ l) apart fits = fits
  Known-sort (t ∷ ts) [] apart fits = fits

  find-retain :
      (t u : Target) (old : List DestinationStatus)
      → Apart t u
      → find (same gvk u) (retain (λ d. not (same gvk t d)) old) ≡ find (same gvk u) old
  find-retain t u [] apart = refl
  find-retain t u (d ∷ old) apart =
      ground (arith, Fits-Apart t u d apart, find-retain t u old apart)

  Known-retain :
      (t : Target) (ts : List Target) (old l : List DestinationStatus)
      → All (Apart t) ts
      → Known old ts l
      → Known (retain (λ d. not (same gvk t d)) old) ts l
  Known-retain t [] old [] apart known = tt
  Known-retain t (u ∷ ts) old (d ∷ l) (p, ps) (k, ks) =
      (ground (arith, find-retain t u old p), Known-retain t ts old l ps ks)
  Known-retain t [] old (d ∷ l) apart known = known
  Known-retain t (u ∷ ts) old [] apart known = known

  entry_known :
      (t : Target) (old : List DestinationStatus) (d : DestinationStatus)
      → find (same gvk t) old ≡ some d
      → Fits t d
      → entry gvk t old ≡ d
  unfolding entry carry_versions fresh_status status_strategy
  entry_known t old d k f = ground arith

  planned-Known :
      (ts : List Target) (old l : List DestinationStatus)
      → AllApart ts
      → AllFit ts l
      → Known old ts l
      → planned gvk ts old ≡ l
  unfolding planned
  planned-Known [] old [] apart fits known = refl
  planned-Known (t ∷ ts) old (d ∷ l) (p, ps) (f, fs) (k, ks) =
      let rest = retain (λ d. not (same gvk t d)) old in
      ground (
        arith,
        entry_known t old d k f,
        planned-Known ts rest l ps fs (Known-retain t ts old l p ks),
      )
  planned-Known [] old (d ∷ l) apart fits known = absurd fits
  planned-Known (t ∷ ts) old [] apart fits known = absurd fits

  Expected : List Target → DestinationStatus → Type 0
  Expected ts d = is_expected gvk ts d ≡ true

  All-Expected_more :
      (t : Target) (ts : List Target) (l : List DestinationStatus)
      → All (Expected ts) l
      → All (Expected (t ∷ ts)) l
  unfolding Expected
  All-Expected_more t ts [] h = tt
  All-Expected_more t ts (d ∷ l) (h, hs) = (ground arith, All-Expected_more t ts l hs)

  AllFit-Expected :
      (ts : List Target) (l : List DestinationStatus) → AllFit ts l → All (Expected ts) l
  unfolding Expected
  AllFit-Expected [] [] fits = tt
  AllFit-Expected (t ∷ ts) (d ∷ l) (f, fs) =
      (ground (arith, Fits-same t d f), All-Expected_more t ts l (AllFit-Expected ts l fs))
  AllFit-Expected [] (d ∷ l) fits = absurd fits
  AllFit-Expected (t ∷ ts) [] fits = absurd fits

  retain-Expected :
      (ts : List Target) (l : List DestinationStatus)
      → All (Expected ts) l
      → retain (λ d. not (is_expected gvk ts d)) l ≡ []
  unfolding Expected
  retain-Expected ts [] h = refl
  retain-Expected ts (d ∷ l) (h, hs) = ground (arith, retain-Expected ts l hs)

  -- If the tracked destinations are those of the targets, no two of them with one namespace and
  -- name, then planning again finds nothing stale, and expects what is tracked, with its revisions.
  pub plan_destinations-again :
      (K : Kube) (obj : ObjectSync) (ts : List Target) (l : List DestinationStatus)
      → AllApart ts
      → AllFit ts l
      → status_destinations obj ≡ some (sort l)
      → plan_destinations K gvk obj ts ≡ record { stale = []; expected = l }
  unfolding plan_destinations
  plan_destinations-again K obj ts l apart fits tracked =
      let start : Merge = record { stale = sort l; expected = [] } in
      ground (
        arith,
        expected-merge_targets gvk ts start,
        stale-merge_targets gvk ts start,
        planned-Known ts (sort l) l apart fits (Known-sort ts l apart fits),
        retain-Expected ts (sort l) (All-sort (Expected ts) l (AllFit-Expected ts l fits)),
      )
