-- ===== src/ResourceController/Template.antt =====
-- What is written to a copy: the template of `upsert_destinations`, and the revisions by which the
-- program tells whether a copy is up to date.
use mathlib.Core.Option.{get_or}
use k8s_object_syncer.Base.{String, string_eq, ◌<>◌, none, some, [], ◌∷◌}
use k8s_object_syncer.Base.Dict
use k8s_object_syncer.Kube.Meta.{ObjectMeta, DynamicObject}
use k8s_object_syncer.Kube.Server.{Kube}
use k8s_object_syncer.Kube.Client.{Object}
use k8s_object_syncer.Api.Types.{DestinationStatus, ObjectRevision}
use k8s_object_syncer.Utils.Names.{manager, finalizer_name, source_object_annotation}

abbrev pub managed_by_label : String
managed_by_label = "app.kubernetes.io/managed-by"

-- `format!("{}/{}", source.namespace().as_deref().unwrap_or(""), source.name_any())`
unfoldable pub source_annotation : Kube → ObjectMeta → String
source_annotation K m = get_or m.namespace "" <> "/" <> K.name_any m

abbrev pub with_meta : {T : Type 0} → DynamicObject T → ObjectMeta → DynamicObject T
with_meta o m = record o { metadata = m }

module _ (K : Kube) where
  -- The source with the label and the annotation of a copy.
  unfoldable pub source_template : Object K → Object K
  unfolding source_annotation
  source_template source = with_meta source (record source.metadata {
    labels = some (Dict.insert managed_by_label manager (get_or source.metadata.labels []));
    annotations = some (
        Dict.insert source_object_annotation (source_annotation K source.metadata)
          (get_or source.metadata.annotations []));
  })

  -- The fields that the loop sets once for each destination.
  unfoldable pub destination_template : Object K → DestinationStatus → Object K
  destination_template template d = with_meta template (record template.metadata {
    namespace = some d.namespace;
    name = some d.name;
    generation = none;
    generate_name = none;
    managed_fields = none;
    owner_references = none;
    self_link = none;
    creation_timestamp = none;
    finalizers = some (finalizer_name ∷ []);
  })

  -- The fields that the loop sets for each attempt.
  unfoldable pub at_revision : Object K → ObjectRevision → Object K
  at_revision template r =
      with_meta template
        (record template.metadata { uid = r.uid; resource_version = r.resource_version })

abbrev pub no_revision : ObjectRevision
no_revision = record { uid = none; resource_version = none }
