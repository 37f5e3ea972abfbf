-- ===== src/ResourceController/Reconcile/Releases.antt =====
-- What `reconcile` does about objects that are being deleted, and about those that nothing governs.
use k8s_object_syncer.Base.{
  String, refl, ◌≡◌, ◌⊎◌, true, false, Option, none, some, List, Returns, arith, All, Result, ok,
  err,
}
use k8s_object_syncer.Kube.Meta.{GroupVersionKind}
use k8s_object_syncer.Kube.Server.{Kube}
use k8s_object_syncer.Kube.Client.{Object, Env}
use k8s_object_syncer.Utils.Names.{source_ref_of_object, ensure_gvk}
use k8s_object_syncer.Modifications.{ObjectSyncModifications}
use k8s_object_syncer.ResourceController.Registry.{Sources}
use k8s_object_syncer.ResourceController.Lookup.{lookup_object_syncs_for_source}
use k8s_object_syncer.ResourceController.Lookup.Matching.{
  Answers, Finds, lookup_object_syncs_for_source-Governs,
}
use k8s_object_syncer.ResourceController.Reconcile.{
  is_deleting, is_annotated, delete_for_all, release_unreferenced, reconcile,
}
use k8s_object_syncer.ResourceController.Reconcile.Gate.{AllHandled, source_deleted-gated}

Returns-and :
    {E A : Type 0} (P Q : A → Type 0) (r : Result E A)
    → Returns P r
    → ((a : A) → r ≡ ok a → Q a)
    → Returns (λ a. P a × Q a) r
Returns-and P Q (ok a) p q = (p, q a refl)
Returns-and P Q (err e) p q = p

module _ (K : Kube) (object : Object K) where
  -- From the environment after the lookup to the last one: a governed object that is being deleted
  -- waits for the copies of all that govern it, and a live copy that nothing governs is left alone.
  abbrev pub Careful : Env K → Env K → Option (List ObjectSyncModifications) → Type 0
  Careful s t (some ms) =
      (is_deleting object.metadata ≡ false)
      ⊎ All (AllHandled K (delete_for_all K ms s).1.calls) ms
      ⊎ (t ≡ (delete_for_all K ms s).1)
  Careful s t none =
      (is_deleting object.metadata ≡ true) ⊎ (is_annotated object.metadata ≡ false) ⊎ (t ≡ s)

  looked_Careful :
      (gvk : GroupVersionKind) (source_namespaces : Option (List String)) (sources : Sources)
      (s : Env K) (found : Option (List ObjectSyncModifications))
      → (lookup_object_syncs_for_source K source_namespaces sources
          (source_ref_of_object K object)
          s).0
        ≡ ok found
      → Careful
          (lookup_object_syncs_for_source K source_namespaces sources
            (source_ref_of_object K object)
            s).1
          (reconcile K gvk source_namespaces sources object s).1
          found
  unfolding reconcile release_unreferenced ensure_gvk
  looked_Careful gvk source_namespaces sources s none e = ground arith
  looked_Careful gvk source_namespaces sources s (some ms) e =
      let source_ref = source_ref_of_object K object in
      let looked = lookup_object_syncs_for_source K source_namespaces sources source_ref s in
      let source = ensure_gvk K object gvk in
      ground (arith, source_deleted-gated K gvk source_ref source ms looked.1)

  -- If the server answers every read of an `ObjectSync` alike, then of an object that is being deleted
  -- the finalizer is kept until the copies have been handled of all `ObjectSync` objects that are
  -- registered for it (in a source namespace), can be read and still have it as their source: either
  -- for every copy that one of them tracks the server has accepted the deletion or has answered that
  -- there is no such object, and the patch was sent that takes the finalizer off the copy (unless the
  -- copy was read and was not there, had no such finalizer or could not be serialised); or the run
  -- ends after the attempts to delete them and asks nothing more. An `ObjectSync` that cannot be read
  -- is passed over, and its copies are not waited for. If none is registered, and the object is a copy
  -- that is not being deleted, nothing is asked.
  pub reconcile-Careful :
      (answers : Answers) (gvk : GroupVersionKind) (source_namespaces : Option (List String))
      (sources : Sources) (s : Env K)
      → ((ns : Option String) (name : String) (w : K.World)
          → (K.get_sync ns name w).0 ≡ answers ns name)
      → Returns
          (λ found.
            Finds answers source_namespaces sources (source_ref_of_object K object) found
            × Careful
                (lookup_object_syncs_for_source K source_namespaces sources
                  (source_ref_of_object K object)
                  s).1
                (reconcile K gvk source_namespaces sources object s).1
                found)
          (lookup_object_syncs_for_source K source_namespaces sources
            (source_ref_of_object K object)
            s).0
  reconcile-Careful answers gvk source_namespaces sources s steady =
      let source_ref = source_ref_of_object K object in
      let looked = (lookup_object_syncs_for_source K source_namespaces sources source_ref s).0 in
      let finds =
        lookup_object_syncs_for_source-Governs K answers source_ref steady source_namespaces sources
          s in
      Returns-and (Finds answers source_namespaces sources source_ref) _ looked finds
        (looked_Careful gvk source_namespaces sources s)
