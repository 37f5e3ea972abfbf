-- ===== src/Api/Status.antt =====
-- The status sub-resource: conditions and tracked destinations.
pub mod Order
pub mod Conditions
use k8s_object_syncer.Base.{
  String, string_eq, nat_eq, option_eq, ◌==◌, Bool, true, false, ◌||◌, not, Option, none, some,
  List, [], ◌∷◌, ◌++◌, find, retain, if◌then◌else◌,
}
use k8s_object_syncer.Api.Types.{Condition, DestinationStatus, ObjectSync, ObjectSyncStatus}
use mathlib.Core.Option
use mathlib.Core.Option.{get_or}

-- `status.map(|v| if v { "True" } else { "False" }).unwrap_or("Unknown")`
abbrev truth : Option Bool → String
truth none = "Unknown"
truth (some true) = "True"
truth (some false) = "False"

-- `Condition::new`
unfoldable pub new_condition : String → Option Bool → String → String → Condition
new_condition tpe status reason message = record {
  last_transition_time = none;
  message = message;
  observed_generation = none;
  reason = reason;
  status = truth status;
  type_ = tpe;
}

unfoldable pub default_status : ObjectSyncStatus
default_status = record { conditions = none; destinations = none }

abbrev has_type : String → Condition → Bool
has_type type_ v = v.type_ == type_

-- The fields whose change makes a transition.
abbrev differs : Condition → Condition → Bool
differs existing c =
    not (existing.status == c.status)
    || not (existing.reason == c.reason)
    || not (existing.message == c.message)
    || not (existing.observed_generation == c.observed_generation)

-- The list of conditions after the update.
unfoldable pub put_condition : Condition → List Condition → List Condition
put_condition c conditions = elim (find (has_type c.type_) conditions) [
  | some existing ↦
      if differs existing c
      then retain (λ v. not (v.type_ == c.type_)) conditions ++ c ∷ []
      else conditions
  | none ↦ conditions ++ c ∷ []
]

-- `ObjectSyncStatus::update_condition`, at the formatted current time.
unfoldable pub status_update_condition : String → Condition → ObjectSyncStatus → ObjectSyncStatus
unfolding put_condition
status_update_condition time c s =
    let stamped = record c { last_transition_time = some time } in
    record s { conditions = some (put_condition stamped (get_or s.conditions [])) }

-- `ObjectSyncStatus::update_destinations`
unfoldable pub status_update_destinations :
    List DestinationStatus → ObjectSyncStatus → ObjectSyncStatus
status_update_destinations destinations s = record s { destinations = some destinations }

-- `ObjectSync::update_condition`
unfoldable pub update_condition : String → Condition → ObjectSync → ObjectSync
unfolding status_update_condition default_status
update_condition time c obj = record obj {
  status = some (status_update_condition time c (get_or obj.status default_status));
}

-- `ObjectSync::update_destinations`
unfoldable pub update_destinations : List DestinationStatus → ObjectSync → ObjectSync
unfolding status_update_destinations default_status
update_destinations destinations obj = record obj {
  status = some (status_update_destinations destinations (get_or obj.status default_status));
}

-- `ObjectSync::status_destinations`
unfoldable pub status_destinations : ObjectSync → Option (List DestinationStatus)
unfolding Option.bind
status_destinations obj = Option.bind obj.status (λ v. v.destinations)
