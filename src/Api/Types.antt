-- ===== src/Api/Types.antt =====
-- The custom resource `ObjectSync` (rustrial-k8s-object-syncer-apis/src/lib.rs).
use k8s_object_syncer.Base.{ℕ, String, List, Option, Eq, String-discrete}
use k8s_object_syncer.Kube.Meta.{ObjectMeta}

-- `observed_generation` is an `i64` that the program sets to `None` and compares.
pub record Condition : Type 0 where
  pub last_transition_time : Option String
  pub message : String
  pub observed_generation : Option ℕ
  pub reason : String
  pub status : String
  pub type_ : String

pub record SourceObject : Type 0 where
  pub group : String
  pub version : Option String
  pub kind : String
  pub name : String
  pub namespace : Option String

pub data SyncStrategy : Type 0 where
  apply replace : SyncStrategy

pub record Destination : Type 0 where
  pub name : Option String
  pub namespace : String
  pub strategy : Option SyncStrategy

pub record ObjectSyncSpec : Type 0 where
  pub source : SourceObject
  pub destinations : List Destination

pub record ObjectRevision : Type 0 where
  pub uid : Option String
  pub resource_version : Option String

pub record DestinationStatus : Type 0 where
  pub name : String
  pub namespace : String
  pub group : String
  pub version : String
  pub kind : String
  pub source_version : Option ObjectRevision
  pub synced_version : Option ObjectRevision
  pub strategy : Option SyncStrategy

pub record ObjectSyncStatus : Type 0 where
  pub conditions : Option (List Condition)
  pub destinations : Option (List DestinationStatus)

pub record ObjectSync : Type 0 where
  pub metadata : ObjectMeta
  pub spec : ObjectSyncSpec
  pub status : Option ObjectSyncStatus

pub SyncStrategy-discrete : Discrete SyncStrategy
SyncStrategy-discrete = hlevel

pub ObjectRevision-discrete : Discrete ObjectRevision
ObjectRevision-discrete = hlevel String-discrete

instance unfoldable pub strategy_eq : Eq SyncStrategy
unfolding SyncStrategy-discrete
strategy_eq = record { dec = SyncStrategy-discrete }

instance unfoldable pub revision_eq : Eq ObjectRevision
unfolding ObjectRevision-discrete
revision_eq = record { dec = ObjectRevision-discrete }

pub Destination-discrete : Discrete Destination
Destination-discrete = hlevel (String-discrete, SyncStrategy-discrete)

instance unfoldable pub destination_eq : Eq Destination
unfolding Destination-discrete
destination_eq = record { dec = Destination-discrete }
