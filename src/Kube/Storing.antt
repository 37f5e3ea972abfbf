-- ===== src/Kube/Storing.antt =====
-- A server that stores what it is sent, for as long as no other party acts: what the objects of one
-- kind of resource are, by namespace and name.
use k8s_object_syncer.Base.{
  String, List, [], ◌≡◌, ◌≢◌, true, false, Option, none, some, Result, ok, err, Returns,
}
use k8s_object_syncer.Kube.Meta.{ApiResource, ObjectMeta, KubeError}
use k8s_object_syncer.Kube.Server.{Kube, Api, Patch, PatchParams, PostParams}
use k8s_object_syncer.Kube.Client.{Object}
use k8s_object_syncer.Api.Destination.{revision_of}
use k8s_object_syncer.Errors.{is_not_found}
use k8s_object_syncer.Utils.Names.{NamespacedName}
use k8s_object_syncer.Utils.Finalizers.{finalizers, set_finalizers, json_params}

module _ (K : Kube) (resource : ApiResource)
    (view : K.World → NamespacedName → Option (Object K)) where
  abbrev pub api_of : NamespacedName → Api
  api_of k = record { resource = resource; namespace = some k.namespace }

  -- The other objects are as they were.
  abbrev pub Others : K.World → NamespacedName → K.World → Type 0
  Others w k w' = (j : NamespacedName) → j ≢ k → view w' j ≡ view w j

  -- The write is accepted: the answer is the object that is stored now, which is not being deleted.
  pub record Stored (w : K.World) (k : NamespacedName) (answer : Result KubeError (Object K))
      (w' : K.World) : Type 0 where
    pub accepted :
        Returns (λ o. (view w' k ≡ some o) × (o.metadata.deletion_timestamp ≡ none)) answer
    pub others : Others w k w'

  -- What is read is what is stored, and reading changes nothing.
  pub record Reads : Type 0 where
    pub found :
        (k : NamespacedName) (w : K.World) (o : Object K)
        → view w k ≡ some o
        → (K.get (api_of k) k.name w).0 ≡ ok o
    pub missing :
        (k : NamespacedName) (w : K.World)
        → view w k ≡ none
        → (e : KubeError) × ((K.get (api_of k) k.name w).0 ≡ err e) × (is_not_found e ≡ true)
    pub read_only :
        (k : NamespacedName) (w : K.World) (j : NamespacedName)
        → view (K.get (api_of k) k.name w).1 j ≡ view w j

  -- An object is created unless there
  -- is one, and is written to if the object sent has the revision of the one that is stored.
  pub record Stores : Type 0 where
    pub reads : Reads
    pub created :
        (k : NamespacedName) (pp : PostParams) (o : Object K) (w : K.World)
        → pp.dry_run ≡ false
        → o.metadata.name ≡ some k.name
        → o.metadata.deletion_timestamp ≡ none
        → view w k ≡ none
        → let r = K.create (api_of k) pp o w in Stored w k r.0 r.1
    pub replaced :
        (k : NamespacedName) (pp : PostParams) (o old : Object K) (w : K.World)
        → pp.dry_run ≡ false
        → o.metadata.name ≡ some k.name
        → o.metadata.deletion_timestamp ≡ none
        → view w k ≡ some old
        → revision_of o.metadata ≡ revision_of old.metadata
        → let r = K.replace (api_of k) k.name pp o w in Stored w k r.0 r.1
    pub applied :
        (k : NamespacedName) (pp : PatchParams) (o old : Object K) (w : K.World)
        → pp.dry_run ≡ false
        → o.metadata.name ≡ some k.name
        → o.metadata.deletion_timestamp ≡ none
        → view w k ≡ some old
        → revision_of o.metadata ≡ revision_of old.metadata
        → let r = K.patch (api_of k) k.name pp (Patch.apply o) w in Stored w k r.0 r.1

  -- Objects are deleted that have no finalizers, and the patch that takes an object as it was read
  -- to another list of finalizers sets them.
  pub record Deletes : Type 0 where
    pub reads : Reads
    pub named : (m : ObjectMeta) (name : String) → m.name ≡ some name → K.name_any m ≡ name
    pub serialises : (o : Object K) → (v : K.Value) × (K.object_to_value o ≡ ok v)
    pub patched :
        (k : NamespacedName) (w : K.World) (o sent : Object K) (fs : List String)
        (before after : K.Value)
        → view w k ≡ some o
        → sent.metadata ≡ o.metadata
        → K.object_to_value sent ≡ ok before
        → K.object_to_value (set_finalizers sent fs) ≡ ok after
        → let r = K.patch (api_of k) k.name json_params (Patch.json (K.diff before after)) w in
          Returns (λ p. (view r.1 k ≡ some p) × (finalizers p.metadata ≡ fs)) r.0 × Others w k r.1
    pub deleted :
        (k : NamespacedName) (w : K.World) (o : Object K)
        → view w k ≡ some o
        → finalizers o.metadata ≡ []
        → let r = K.delete (api_of k) k.name w in
          Returns (λ _. view r.1 k ≡ none) r.0 × Others w k r.1
    pub not_there :
        (k : NamespacedName) (w : K.World)
        → view w k ≡ none
        → let r = K.delete (api_of k) k.name w in
          ((e : KubeError) × (r.0 ≡ err e) × (is_not_found e ≡ true))
          × ((j : NamespacedName) → view r.1 j ≡ view w j)
