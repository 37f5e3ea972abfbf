-- ===== src/Tests/ClearsTests.antt =====
-- The deletion of copies on the concrete cluster.
use k8s_object_syncer.Base.{
  String, string_eq, nat_eq, String-discrete, ◌≡◌, refl, some, none, [], ◌∷◌, List, ok, err, arith,
  Bool-cases, ◌==◌, inl, inr,
}
use k8s_object_syncer.Base.Dict
use k8s_object_syncer.Base.Dict.{lookup-insert, lookup-remove}
use k8s_object_syncer.Kube.Server.{finished, Api, Patch, PatchParams}
use k8s_object_syncer.Kube.Client.{Env}
use k8s_object_syncer.Kube.Storing.{Deletes}
use k8s_object_syncer.Api.Types.{DestinationStatus}
use k8s_object_syncer.Errors.{is_not_found}
use k8s_object_syncer.Utils.Names.{NamespacedName, name_eq, finalizer_name, key_of}
use k8s_object_syncer.Utils.Finalizers.{json_params, finalizers}
use k8s_object_syncer.Utils.Deletion.{delete_destinations}
use k8s_object_syncer.Utils.Deletion.Clears.{Cleared, delete_destinations-Cleared}
use k8s_object_syncer.Tests.Cluster.{
  cluster, patched_object, World, Obj, Json, json_eq, put, stamp, missing,
}
use k8s_object_syncer.Tests.ConvergesTests.{config_maps, objects_of, reads}
use k8s_object_syncer.Tests.Samples.{config_map, source, world, copy_in}

abbrev api_at : NamespacedName → Api
api_at k = record { resource = config_maps; namespace = some k.namespace }

delete_found :
    (k : NamespacedName) (o : Obj) (w : World)
    → objects_of w k ≡ some o
    → cluster.delete (api_at k) k.name w
      ≡ (ok finished, record w { objects = Dict.remove k w.objects })
delete_found k o w here = ground arith

delete_missing :
    (k : NamespacedName) (w : World)
    → objects_of w k ≡ none
    → cluster.delete (api_at k) k.name w ≡ (err missing, w)
delete_missing k w absent = ground arith

patch_found :
    (k : NamespacedName) (pp : PatchParams) (ops : List Json) (o : Obj) (w : World)
    → objects_of w k ≡ some o
    → cluster.patch (api_at k) k.name pp (Patch.json ops) w
      ≡ put (api_at k) k.name (patched_object o ops) w
patch_found k pp ops o w here = ground arith

patched_finalizers :
    (o sent : Obj) (fs : List String) (before after : Json)
    → sent.metadata ≡ o.metadata
    → finalizers sent.metadata ≡ before
    → fs ≡ after
    → finalizers (stamp 0 (patched_object o (cluster.diff before after))).metadata ≡ fs
patched_finalizers o sent fs before after same e f = elim (Bool-cases (before == after)) [
  | inl b ↦ rw b (ground arith)
  | inr b ↦ rw b (ground arith)
]

deletes : Deletes cluster config_maps objects_of
unfolding is_not_found
deletes = record {
  reads = reads;
  named = λ m name h. ground arith;
  serialises = λ o. (finalizers o.metadata, refl);
  patched = λ k w o sent fs before after here same serialises serialises'.
      let ops = cluster.diff before after in
      let new = stamp w.clock (patched_object o ops) in
      rw (patch_found k json_params ops o w here) (
        (
          ground (arith, lookup-insert k k new w.objects),
          patched_finalizers o sent fs before after same (ground arith) (ground arith),
        ),
        λ j other. ground (arith, lookup-insert j k new w.objects),
      );
  deleted = λ k w o here bare. rw (delete_found k o w here) (
    ground (arith, lookup-remove k k w.objects),
    λ j other. ground (arith, lookup-remove j k w.objects),
  );
  not_there =
      λ k w absent. rw (delete_missing k w absent) ((missing, refl, ground arith), λ j. refl);
}

abbrev copies : List DestinationStatus
copies = copy_in "a" ∷ copy_in "c" ∷ []

abbrev copied : Obj
copied = record source {
  metadata = record source.metadata {
    namespace = some "a";
    finalizers = some (finalizer_name ∷ []);
  };
}

-- One of the copies is there, with the finalizer of the program.
abbrev start : Env cluster
start = record {
  world = record world { objects = (key_of (copy_in "a"), copied) ∷ world.objects };
  calls = [];
}

delete_destinations-Cleared_example :
    ((delete_destinations cluster copies start).0 ≡ ok [])
    × Cleared cluster objects_of start.world copies
        (delete_destinations cluster copies start).1.world
unfolding Dict.lookup name_eq String-discrete string_eq
delete_destinations-Cleared_example =
    delete_destinations-Cleared cluster objects_of config_map deletes copies start
      (refl, (refl, tt)) ((refl, refl), (tt, tt))
