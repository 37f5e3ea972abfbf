-- ===== src/Utils/Deletion/Round.antt =====
-- One round of the loop at a server that deletes what has no finalizers.
use k8s_object_syncer.Base.{
  String, string_eq, nat_eq, ◌≡◌, ◌≢◌, refl, ◌∙◌, ◌==◌, not, retain, is_empty, true, none, some,
  Option, List, [], ◌∷◌, ok, err, inl, inr, arith, Bool-cases, Option-cases, Result-cases,
}
use k8s_object_syncer.Kube.Meta.{GroupVersionKind, KubeError}
use k8s_object_syncer.Kube.Server.{Kube, Deletion, Patch}
use k8s_object_syncer.Kube.Client.{Object, Env, get, patch, delete}
use k8s_object_syncer.Kube.Storing.{Deletes}
use k8s_object_syncer.Api.Types.{DestinationStatus}
use k8s_object_syncer.Errors.{is_not_found}
use k8s_object_syncer.Utils.Names.{NamespacedName, name_eq, finalizer_name, ensure_gvk, key_of}
use k8s_object_syncer.Utils.Finalizers.{finalizers, set_finalizers, json_params, remove_finalizer}
use k8s_object_syncer.Utils.Deletion.{
  gvk_of, destination_api, release_destination, delete_destination, delete_loop,
}

is_empty_nil : (l : List String) → is_empty l ≡ true → l ≡ []
is_empty_nil [] h = refl
is_empty_nil (x ∷ l) h = ground arith

module _ (K : Kube) where
  -- There is no copy, or it has its name and no finalizers but that of the program.
  abbrev pub IsReleasable : NamespacedName → Option (Object K) → Type 0
  IsReleasable k none = Unit
  IsReleasable k (some o) =
      (o.metadata.name ≡ some k.name)
      × (retain (λ f. not (f == finalizer_name)) (finalizers o.metadata) ≡ [])

  abbrev IsReleased : Option (Object K) → Type 0
  IsReleased none = Unit
  IsReleased (some o) = finalizers o.metadata ≡ []

  abbrev reading : DestinationStatus → Env K → Env K
  reading d s = (get K (destination_api K d) d.name s).1

  -- The object with the finalizers that are kept.
  abbrev unfinalized : DestinationStatus → Object K → Object K
  unfinalized d o = set_finalizers (ensure_gvk K o (gvk_of d)) []

  release_absent :
      (d : DestinationStatus) (s : Env K)
      → (e : _) × ((K.get (destination_api K d) d.name s.world).0 ≡ err e) × (is_not_found e ≡ true)
      → release_destination K d s ≡ (ok tt, reading d s)
  unfolding release_destination
  release_absent d s missing = ground arith

  release_bare :
      (d : DestinationStatus) (s : Env K) (o : Object K) (v : K.Value)
      → (K.get (destination_api K d) d.name s.world).0 ≡ ok o
      → finalizers o.metadata ≡ []
      → K.object_to_value (ensure_gvk K o (gvk_of d)) ≡ ok v
      → release_destination K d s ≡ (ok tt, reading d s)
  unfolding release_destination remove_finalizer ensure_gvk
  release_bare d s o v here bare serialises = ground arith

  release_patches :
      (d : DestinationStatus) (s : Env K) (o : Object K) (before after : K.Value)
      → (K.get (destination_api K d) d.name s.world).0 ≡ ok o
      → IsReleasable (key_of d) (some o)
      → finalizers o.metadata ≢ []
      → K.object_to_value (ensure_gvk K o (gvk_of d)) ≡ ok before
      → K.object_to_value (unfinalized d o) ≡ ok after
      → K.name_any (unfinalized d o).metadata ≡ d.name
      → release_destination K d s ≡ (
        ok tt,
        (patch K
            (destination_api K d)
            d.name
            json_params
            (Patch.json (K.diff before after))
            (reading d s)).1,
      )
  unfolding release_destination remove_finalizer ensure_gvk
  release_patches d s o before after here releasable some_left serialises serialises' named =
      ground arith

  abbrev deleting : DestinationStatus → Env K → Env K
  deleting d s = (delete K (destination_api K d) d.name s).1

  delete_done :
      (d : DestinationStatus) (errors : List DestinationStatus) (s : Env K) (a : Deletion K.Value)
      → (K.delete (destination_api K d) d.name s.world).0 ≡ ok a
      → delete_destination K d errors s ≡ (ok errors, deleting d s)
  unfolding delete_destination
  delete_done d errors s a done = ground arith

  delete_refused :
      (d : DestinationStatus) (errors : List DestinationStatus) (s : Env K) (e : KubeError)
      → (K.delete (destination_api K d) d.name s.world).0 ≡ err e
      → is_not_found e ≡ true
      → delete_destination K d errors s ≡ (ok errors, deleting d s)
  unfolding delete_destination
  delete_refused d errors s e failed gone = ground arith

module _ (K : Kube) (view : K.World → NamespacedName → Option (Object K)) where
  -- The server deletes copies of the destination's kind.
  abbrev pub DeletesKind : GroupVersionKind → Type 0
  DeletesKind g = Deletes K (K.from_gvk g.group g.version g.kind) view

  abbrev pub Untouched : K.World → DestinationStatus → K.World → Type 0
  Untouched w d w' = (j : NamespacedName) → j ≢ key_of d → view w' j ≡ view w j

  -- The finalizer of the copy goes, and all else stays.
  abbrev Releases : K.World → DestinationStatus → Env K → Type 0
  Releases w d t = IsReleased K (view t.world (key_of d)) × Untouched w d t.world

  release_here :
      (d : DestinationStatus) (s : Env K) (o : Object K)
      → DeletesKind (gvk_of d)
      → view s.world (key_of d) ≡ some o
      → IsReleasable K (key_of d) (some o)
      → ((release_destination K d s).0 ≡ ok tt) × Releases s.world d (release_destination K d s).1
  unfolding ensure_gvk
  release_here d s o deletes here releasable =
      let k = key_of d in
      let w = s.world in
      let same = deletes.reads.read_only k w in
      let here' = same k ∙ here in
      let found = deletes.reads.found k w o here in
      let (before, serialises) = deletes.serialises (ensure_gvk K o (gvk_of d)) in
      let (after, serialises') = deletes.serialises (unfinalized K d o) in
      elim (Bool-cases (is_empty (finalizers o.metadata))) [
        | inl bare ↦
            let none_left : finalizers o.metadata ≡ [] =
              is_empty_nil (finalizers o.metadata) bare in
            rw (release_bare K d s o before found none_left serialises)
              (refl, (rw here' none_left, λ j other. same j))
        | inr some_left ↦
            let (accepted, others) =
              deletes.patched k (reading K d s).world o (ensure_gvk K o (gvk_of d)) [] before after
                here' refl serialises serialises' in
            let answer =
              K.patch (destination_api K d) d.name json_params (Patch.json (K.diff before after))
                (reading K d s).world in
            rw
              (release_patches K d s o before after found releasable (λ e. ground arith) serialises
                serialises' (deletes.named (unfinalized K d o).metadata d.name releasable.0))
              (
                refl,
                (
                  elim (Result-cases answer.0) [
                    | inr (e, failed) ↦ absurd (rw failed at accepted)
                    | inl (p, done) ↦
                        let (stored, bare) : (view answer.1 k ≡ some p)
                            × (finalizers p.metadata ≡ []) =
                          rw done at accepted in
                        rw stored bare
                  ],
                  λ j other. others j other ∙ same j,
                ),
              )
      ]

  released :
      (d : DestinationStatus) (s : Env K)
      → DeletesKind (gvk_of d)
      → IsReleasable K (key_of d) (view s.world (key_of d))
      → ((release_destination K d s).0 ≡ ok tt) × Releases s.world d (release_destination K d s).1
  released d s deletes releasable =
      let k = key_of d in
      let w = s.world in
      let same = deletes.reads.read_only k w in
      elim (Option-cases (view w k)) [
        | inl absent ↦
            rw (release_absent K d s (deletes.reads.missing k w absent))
              (refl, (rw (same k, absent) tt, λ j other. same j))
        | inr (o, here) ↦ release_here d s o deletes here (rw here at releasable)
      ]

  deleted :
      (d : DestinationStatus) (errors : List DestinationStatus) (s : Env K)
      → DeletesKind (gvk_of d)
      → IsReleased K (view s.world (key_of d))
      → ((delete_destination K d errors s).0 ≡ ok errors)
        × (view (delete_destination K d errors s).1.world (key_of d) ≡ none)
        × Untouched s.world d (delete_destination K d errors s).1.world
  deleted d errors s deletes bare =
      let k = key_of d in
      let w = s.world in
      let answer = K.delete (destination_api K d) d.name w in
      elim (Option-cases (view w k)) [
        | inl absent ↦
            let ((e, refused, gone), same) = deletes.not_there k w absent in
            rw (delete_refused K d errors s e refused gone)
              (refl, same k ∙ absent, λ j other. same j)
        | inr (o, here) ↦
            let (accepted, others) = deletes.deleted k w o here (rw here at bare) in
            elim (Result-cases answer.0) [
              | inr (e, failed) ↦ absurd (rw failed at accepted)
              | inl (a, done) ↦
                  rw (delete_done K d errors s a done) (refl, rw done at accepted, others)
            ]
      ]

  -- What the round for one destination leaves.
  abbrev pub round : DestinationStatus → List DestinationStatus → Env K → Env K
  round d errors s = (delete_destination K d errors (release_destination K d s).1).1

  pub round-Untouched :
      (d : DestinationStatus) (ds errors : List DestinationStatus) (s : Env K)
      → DeletesKind (gvk_of d)
      → IsReleasable K (key_of d) (view s.world (key_of d))
      → (delete_loop K (d ∷ ds) errors s ≡ delete_loop K ds errors (round d errors s))
        × (view (round d errors s).world (key_of d) ≡ none)
        × Untouched s.world d (round d errors s).world
  unfolding delete_loop
  round-Untouched d ds errors s deletes releasable =
      let s1 = (release_destination K d s).1 in
      let (ok1, (bare, others1)) = released d s deletes releasable in
      let (ok2, gone, others2) = deleted d errors s1 deletes bare in
      (ground arith, gone, λ j other. others2 j other ∙ others1 j other)
