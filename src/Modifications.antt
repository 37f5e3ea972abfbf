-- ===== src/Modifications.antt =====
-- rustrial-k8s-object-syncer/src/object_sync_modifications.rs: an `ObjectSync` as it was read, and
-- as the program changes it. The methods that take `&mut self` are actions on a session, which
-- holds the modifications beside the environment, so an error keeps what was changed before it.
pub mod Replace
use k8s_object_syncer.Base.{
  String, Bool, true, false, Option, none, some, List, [], ◌∷◌, Result, ok, map_err, Exec, pure,
  lift, convert, and_then, ◌>>=◌, ◌>>◌,
}
use k8s_object_syncer.Kube.Meta.{KubeError}
use k8s_object_syncer.Kube.Server.{Kube, PostParams}
use k8s_object_syncer.Kube.Client.{
  Env, Io, get_sync, get_sync_status, replace_sync, replace_sync_status, patch_sync,
}
use k8s_object_syncer.Api.Types.{ObjectSync}
use k8s_object_syncer.Errors.{ControllerError, kube_api, serde}
use k8s_object_syncer.Utils.Names.{manager, ObjectSyncRef, object_sync_ref}
use k8s_object_syncer.Utils.Finalizers.{json_params}

pub record ObjectSyncModifications : Type 0 where
  pub original : ObjectSync
  pub modified : ObjectSync

unfoldable pub new : ObjectSync → ObjectSyncModifications
new o = record { original = o; modified = o }

unfoldable pub is_deleted : ObjectSyncModifications → Bool
is_deleted m = elim m.modified.metadata.deletion_timestamp [ some _ ↦ true | none ↦ false ]

-- `api`: the namespace within which the object is addressed, none for all.
unfoldable pub api_scope : ObjectSyncModifications → Option String
api_scope m = m.original.metadata.namespace

-- `PostParams::default()` with the field manager.
abbrev pub post_params : PostParams
post_params = record { dry_run = false; field_manager = some manager }

module _ (K : Kube) where
  pub record Session : Type 0 where
    pub env : Env K
    pub event : ObjectSyncModifications

  abbrev pub Act : Type 0 → Type 0 → Type 0
  Act = Exec Session

  -- A call that does not touch the modifications.
  abbrev pub on_env : {E A : Type 0} → Io K E A → Act E A
  on_env m s = let (r, env) = m s.env in (r, record s { env = env })

  abbrev pub the_event : {E : Type 0} → Act E ObjectSyncModifications
  the_event s = (ok s.event, s)

  -- A change of `self.modified`.
  abbrev pub modify : {E : Type 0} → (ObjectSync → ObjectSync) → Act E (Unit {0})
  modify f s = (ok tt, record s { event = record s.event { modified = f s.event.modified } })

  abbrev pub set_event : {E : Type 0} → ObjectSyncModifications → Act E (Unit {0})
  set_event m s = (ok tt, record s { event = m })

  unfoldable pub id : ObjectSyncModifications → ObjectSyncRef
  unfolding object_sync_ref
  id m = object_sync_ref K m.modified

  -- `if patch.0.is_empty() { None } else { Some(patch) }`
  abbrev non_empty : List K.Operation → Option (List K.Operation)
  non_empty [] = none
  non_empty (op ∷ ops) = some (op ∷ ops)

  unfoldable pub get_spec_patch :
      ObjectSyncModifications → ObjectSync → Result ControllerError (Option (List K.Operation))
  get_spec_patch m latest =
      and_then (map_err serde (K.sync_to_value (record latest { status = none }))) λ before.
        and_then (map_err serde (K.sync_to_value (record m.modified { status = none })))
          λ after. ok (non_empty (K.diff before after))

  unfoldable pub get_status_patch :
      ObjectSyncModifications → ObjectSync → Result ControllerError (Option (List K.Operation))
  get_status_patch m latest = and_then (map_err serde (K.status_to_value latest.status)) λ before.
      and_then (map_err serde (K.status_to_value m.modified.status))
        λ after. ok (non_empty (K.diff before after))

  abbrev is_some : {A : Type 0} → Option A → Bool
  is_some none = false
  is_some (some a) = true

  unfoldable pub status_has_changed : ObjectSyncModifications → Result ControllerError Bool
  unfolding get_status_patch
  status_has_changed m = and_then (get_status_patch m m.original) (λ p. ok (is_some p))

  unfoldable pub spec_has_changed : ObjectSyncModifications → Result ControllerError Bool
  unfolding get_spec_patch
  spec_has_changed m = and_then (get_spec_patch m m.original) (λ p. ok (is_some p))

  unfoldable pub latest : Act ControllerError ObjectSync
  latest = do
    m ← the_event
    on_env (convert kube_api (get_sync_status K (api_scope m) (K.name_any m.modified.metadata)))

  abbrev with_version : Option String → ObjectSync → ObjectSync
  with_version v o = record o { metadata = record o.metadata { resource_version = v } }

  -- `_replace_spec`
  unfoldable pub send_spec : ObjectSync → Act KubeError (Unit {0})
  send_spec newest = do
    modify (with_version newest.metadata.resource_version)
    m ← the_event
    o ←
        on_env
          (replace_sync K (api_scope m) (K.name_any m.modified.metadata) post_params m.modified)
    set_event (record { original = o; modified = o })

  -- `_replace_status`
  unfoldable pub send_status : ObjectSync → Act KubeError (Unit {0})
  send_status newest = do
    modify (with_version newest.metadata.resource_version)
    m ← the_event
    o ← on_env (
        replace_sync_status K (api_scope m) (K.name_any m.modified.metadata) post_params m.modified)
    set_event (record { original = o; modified = o })

  unfoldable pub replace_status : Act ControllerError (Unit {0})
  unfolding latest send_status
  replace_status = do
    m ← the_event
    changed ← lift (status_has_changed m)
    elim changed [
      | true ↦ do newest ← latest; convert kube_api (send_status newest)
      | false ↦ pure tt
    ]

  -- `_patch_spec`
  unfoldable pub send_spec_patch : Act ControllerError (Unit {0})
  send_spec_patch = do
    m ← the_event
    newest ← on_env (convert kube_api (get_sync K (api_scope m) (K.name_any m.modified.metadata)))
    found ← lift (get_spec_patch m newest)
    elim found [
      | none ↦ pure tt
      | some p ↦ do
        o ← on_env (
            convert kube_api
              (patch_sync K (api_scope m) (K.name_any m.original.metadata) json_params p))
        set_event (record { original = o; modified = o })
    ]

  unfoldable pub patch_spec : Act ControllerError (Unit {0})
  unfolding send_spec_patch
  patch_spec = do
    m ← the_event
    changed ← lift (spec_has_changed m)
    elim changed [ true ↦ send_spec_patch | false ↦ pure tt ]
