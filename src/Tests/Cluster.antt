-- ===== src/Tests/Cluster.antt =====
-- A cluster that stores objects by namespace and name, for the tests: one kind of resource, one
-- `ObjectSync`, and JSON values that keep only what the tests look at.
use mathlib.Core.Option.{get_or}
use k8s_object_syncer.Base.{
  ℕ, ◌+◌, String, string_eq, String-discrete, ◌<>◌, Option, none, some, List, [], ◌∷◌, ◌++◌, map,
  Eq, ◌==◌, if◌then◌else◌, Result, ok, err,
}
use k8s_object_syncer.Base.Decimal.{decimal}
use k8s_object_syncer.Base.Dict
use k8s_object_syncer.Base.Dict.{Dict}
use k8s_object_syncer.Kube.Meta.{DynamicObject, Namespace, KubeError, api}
use k8s_object_syncer.Kube.Server.{Kube, Deletion, finished, Api, Patch, PatchParams, PostParams}
use k8s_object_syncer.Api.Types.{ObjectSync, ObjectSyncStatus}
use k8s_object_syncer.Utils.Names.{NamespacedName, name_eq}
use k8s_object_syncer.Utils.Finalizers.{finalizers, set_finalizers}

-- The texts that a value holds.
abbrev pub Json : Type 0
Json = List String

abbrev pub Obj : Type 0
Obj = DynamicObject Json

pub record World : Type 0 where
  pub objects : Dict NamespacedName Obj
  pub sync : Option ObjectSync
  pub clock : ℕ
  pub spaces : List Namespace

abbrev key : Api → String → NamespacedName
key a name = record { name = name; namespace = get_or a.namespace "" }

abbrev pub stamp : ℕ → Obj → Obj
stamp n o = record o {
  metadata = record o.metadata { uid = some "u"; resource_version = some (decimal n) };
}

-- Stores the object at a new revision.
abbrev pub put : Api → String → Obj → World → Result KubeError Obj × World
put a name o w = (
  ok (stamp w.clock o),
  record w { objects = Dict.insert (key a name) (stamp w.clock o) w.objects; clock = w.clock + 1 },
)

abbrev pub missing : KubeError
missing = api 404 "not found"

abbrev find_object : Api → String → World → Result KubeError Obj × World
find_object a name w =
    (elim (Dict.lookup (key a name) w.objects) [ some o ↦ ok o | none ↦ err missing ], w)

-- An operation is the list of finalizers that it sets.
abbrev pub patched_object : Obj → List Json → Obj
patched_object o [] = o
patched_object o (fs ∷ ops) = set_finalizers o fs

abbrev apply_patch :
    Api → String → PatchParams → Patch Json Json → World → Result KubeError Obj × World
apply_patch a name pp (Patch.apply o) w = put a name o w
apply_patch a name pp (Patch.json ops) w = elim (Dict.lookup (key a name) w.objects) [
  | some o ↦ put a name (patched_object o ops) w
  | none ↦ (err missing, w)
]

abbrev remove_object : Api → String → World → Result KubeError (Deletion Json) × World
remove_object a name w = elim (Dict.lookup (key a name) w.objects) [
  | some o ↦ (ok finished, record w { objects = Dict.remove (key a name) w.objects })
  | none ↦ (err missing, w)
]

abbrev create_object : Api → PostParams → Obj → World → Result KubeError Obj × World
create_object a pp o w =
    let name = get_or o.metadata.name "" in
    elim (Dict.lookup (key a name) w.objects) [
      | some old ↦ (err (api 409 "exists"), w)
      | none ↦ put a name o w
    ]

abbrev find_sync : Option String → String → World → Result KubeError ObjectSync × World
find_sync ns name w = (elim w.sync [ some o ↦ ok o | none ↦ err missing ], w)

abbrev store_sync :
    Option String → String → PostParams → ObjectSync → World → Result KubeError ObjectSync × World
store_sync ns name pp o w = (ok o, record w { sync = some o })

abbrev status_texts : Option ObjectSyncStatus → Json
status_texts none = []
status_texts (some st) =
    map (λ c. c.type_ <> c.status <> c.message) (get_or st.conditions [])
    ++ map (λ d. d.namespace <> "/" <> d.name) (get_or st.destinations [])

pub Json-discrete : Discrete Json
Json-discrete = hlevel String-discrete

instance unfoldable pub json_eq : Eq Json
unfolding Json-discrete
json_eq = record { dec = Json-discrete }

abbrev pub cluster : Kube
cluster = record {
  Value = Json;
  Operation = Json;
  World = World;
  ApiGroup = Unit {0};
  null = [];
  diff = λ a b. if a == b then [] else b ∷ [];
  object_to_value = λ o. ok (finalizers o.metadata);
  sync_to_value = λ o. ok (get_or o.metadata.finalizers []);
  status_to_value = λ s. ok (status_texts s);
  name_any = λ m. get_or m.name "";
  from_gvk = λ g v k. record { group = g; version = v; kind = k };
  api_version = λ g v. g <> "/" <> v;
  get = find_object;
  patch = apply_patch;
  delete = remove_object;
  create = create_object;
  replace = λ a name pp o w. put a name o w;
  get_sync = find_sync;
  get_sync_status = find_sync;
  replace_sync = store_sync;
  replace_sync_status = store_sync;
  patch_sync = λ ns name pp ops w. find_sync ns name w;
  group = λ name w. (ok tt, w);
  recommended_resources = λ g. [];
  recommended_kind = λ g kind. none;
  namespaces = λ w. w.spaces;
  now = λ w. "2024-01-15T10:30:00Z";
}
