-- ===== src/Tests/ConvergesTests.antt =====
-- Two runs of `upsert_destinations` on the concrete cluster.
use text.Mathlib.TextEquality.{eq_iff}
use k8s_object_syncer.Base.{
  String-discrete, string_eq, nat_eq, ◌≡◌, refl, false, some, none, Option, [], ◌∷◌, List, ok,
  Returns, All, arith,
}
use k8s_object_syncer.Base.Dict
use k8s_object_syncer.Base.Dict.{lookup-insert}
use k8s_object_syncer.Kube.Meta.{ApiResource}
use k8s_object_syncer.Kube.Server.{Api, PostParams}
use k8s_object_syncer.Kube.Client.{Env}
use k8s_object_syncer.Kube.Storing.{Reads, Stores, Stored}
use k8s_object_syncer.Api.Types.{DestinationStatus}
use k8s_object_syncer.Errors.{is_not_found}
use k8s_object_syncer.Utils.Names.{NamespacedName, name_eq}
use k8s_object_syncer.ResourceController.Upsert.{upsert_destinations}
use k8s_object_syncer.ResourceController.Upsert.Idle.{IsRead}
use k8s_object_syncer.ResourceController.Upsert.Settles.{AreDistinct, Settled}
use k8s_object_syncer.Api.Destination.{revision_of}
use k8s_object_syncer.ResourceController.Upsert.Converges.{again, upsert_destinations_converges}
use k8s_object_syncer.Tests.Cluster.{cluster, World, Obj, put, stamp, missing}
use k8s_object_syncer.Tests.Samples.{config_map, source, world, copy_in}

abbrev pub config_maps : ApiResource
config_maps = record { group = ""; version = "v1"; kind = "ConfigMap" }

abbrev pub objects_of : World → NamespacedName → Option Obj
objects_of w k = Dict.lookup k w.objects

put-Stored :
    (k : NamespacedName) (o : Obj) (w : World)
    → o.metadata.deletion_timestamp ≡ none
    → let r = put (record { resource = config_maps; namespace = some k.namespace }) k.name o w in
      Stored cluster config_maps objects_of w k r.0 r.1
put-Stored k o w stays = record {
  accepted = (ground (arith, lookup-insert k k (stamp w.clock o) w.objects), stays);
  others = λ j other. ground (arith, lookup-insert j k (stamp w.clock o) w.objects);
}

create_puts :
    (k : NamespacedName) (pp : PostParams) (o : Obj) (w : World)
    → o.metadata.name ≡ some k.name
    → objects_of w k ≡ none
    → let a : Api = record { resource = config_maps; namespace = some k.namespace } in
      cluster.create a pp o w ≡ put a k.name o w
create_puts k pp o w named absent = ground arith

pub reads : Reads cluster config_maps objects_of
unfolding is_not_found
reads = record {
  found = λ k w o here. ground arith;
  missing = λ k w absent. (missing, ground arith, ground arith);
  read_only = λ k w j. refl;
}

stores : Stores cluster config_maps objects_of
stores = record {
  reads = reads;
  created = λ k pp o w wet named stays absent.
      rw (create_puts k pp o w named absent) (put-Stored k o w stays);
  replaced = λ k pp o old w wet named stays here same. put-Stored k o w stays;
  applied = λ k pp o old w wet named stays here same. put-Stored k o w stays;
}

abbrev copies : List DestinationStatus
copies = copy_in "a" ∷ copy_in "c" ∷ []

distinct : AreDistinct copies
distinct = ((ground (arith, eq_iff "a" "c"), tt), (tt, tt))

abbrev start : Env cluster
start = record { world = world; calls = [] }

upsert_destinations_converges_example :
    Returns
      (λ u.
        (u.observed ≡ u.expected)
        × All
            (Settled cluster config_map objects_of
              (revision_of source.metadata)
              []
              (upsert_destinations cluster config_map source copies [] start).1.world)
            u.destinations
        × ((again cluster config_map source u.destinations []
              (upsert_destinations cluster config_map source copies [] start).1).0
            ≡ ok (record u { changed = false }))
        × All
            (IsRead cluster)
            (again cluster config_map source u.destinations []
              (upsert_destinations cluster config_map source copies [] start).1).1.calls)
      (upsert_destinations cluster config_map source copies [] start).0
unfolding Dict.lookup name_eq String-discrete
upsert_destinations_converges_example =
    upsert_destinations_converges cluster config_map objects_of source copies [] start stores refl
      distinct (tt, (tt, tt))
