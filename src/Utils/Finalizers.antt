-- ===== src/Utils/Finalizers.antt =====
-- The finalizer on dynamic objects: `add_finalizer_if_missing` and `remove_finalizer`.
pub mod Addition
pub mod Restore
use mathlib.Core.Option.{get_or}
use k8s_object_syncer.Base.{
  String, string_eq, nat_eq, ◌==◌, Bool, true, false, not, none, some, List, [], ◌∷◌, ◌++◌, find,
  retain, length, if◌then◌else◌, Result, ok, err, pure, convert, attempt, ◌>>=◌,
}
use k8s_object_syncer.Kube.Meta.{ObjectMeta, DynamicObject, KubeError}
use k8s_object_syncer.Kube.Server.{Kube, Api, Patch, PatchParams, ValidationDirective}
use k8s_object_syncer.Kube.Client.{Object, Io, patch}
use k8s_object_syncer.Errors.{ControllerError, kube_api, serde, is_not_found}
use k8s_object_syncer.Utils.Names.{manager}

-- `finalizers()`: empty where none are set.
abbrev pub finalizers : ObjectMeta → List String
finalizers m = get_or m.finalizers []

abbrev pub set_finalizers : {T : Type 0} → DynamicObject T → List String → DynamicObject T
set_finalizers o fs = record o { metadata = record o.metadata { finalizers = some fs } }

-- `ObjectMeta::default()`
abbrev pub default_meta : ObjectMeta
default_meta = record {
  name = none;
  namespace = none;
  generate_name = none;
  uid = none;
  resource_version = none;
  generation = none;
  labels = none;
  annotations = none;
  finalizers = none;
  managed_fields = none;
  owner_references = none;
  self_link = none;
  creation_timestamp = none;
  deletion_timestamp = none;
}

abbrev apply_params : PatchParams
apply_params = record {
  dry_run = false;
  force = true;
  field_manager = some manager;
  field_validation = some ValidationDirective.ignore;
}

abbrev pub json_params : PatchParams
json_params = record {
  dry_run = false;
  force = false;
  field_manager = some manager;
  field_validation = none;
}

module _ (K : Kube) where
  -- The patch names the object and holds the one finalizer.
  unfoldable pub finalizer_patch : Object K → String → Object K
  finalizer_patch source finalizer = record {
    types = source.types;
    metadata = record default_meta {
      name = source.metadata.name;
      namespace = source.metadata.namespace;
      finalizers = some (finalizer ∷ []);
    };
    data_value = K.null;
  }

  -- The result of the call and the object as the caller sees it afterwards.
  unfoldable pub add_finalizer_if_missing :
      Api → Object K → String → Io K ControllerError (Bool × Object K)
  unfolding finalizer_patch
  add_finalizer_if_missing api source finalizer =
      elim (find (λ f. f == finalizer) (finalizers source.metadata)) [
        | none ↦ do
          let minimal = finalizer_patch source finalizer
          _ ←
              convert kube_api
                (patch K api (K.name_any minimal.metadata) apply_params (Patch.apply minimal))
          pure (true, set_finalizers source (finalizers source.metadata ++ finalizer ∷ []))
        | some f ↦ pure (false, source)
      ]

  -- What is returned after the patch was sent: the object has lost the finalizer, unless the
  -- call failed, which restores the list.
  unfoldable pub patched_finalizer :
      Object K → Object K → Result KubeError (Object K) → Result ControllerError Bool × Object K
  patched_finalizer source removed (ok o) = (ok true, removed)
  patched_finalizer source removed (err e) =
      if is_not_found e
      then (ok true, removed)
      else (err (kube_api e), set_finalizers removed (finalizers source.metadata))

  -- `remove_finalizer` returns its result, and leaves the object in the second component also
  -- when the result is an error.
  unfoldable pub remove_finalizer :
      Api → Object K → String → Io K ControllerError (Result ControllerError Bool × Object K)
  unfolding patched_finalizer
  remove_finalizer api source finalizer =
      let kept = retain (λ f. not (f == finalizer)) (finalizers source.metadata) in
      let removed = set_finalizers source kept in
      elim (K.object_to_value source) [
        | err e ↦ pure (err (serde e), source)
        | ok before ↦
            if length kept == length (finalizers source.metadata)
            then pure (ok false, removed)
            else elim (K.object_to_value removed) [
              | err e ↦ pure (err (serde e), removed)
              | ok after ↦ do
                r ← attempt (
                    patch K api (K.name_any removed.metadata) json_params
                      (Patch.json (K.diff before after)))
                pure (patched_finalizer source removed r)
            ]
      ]
