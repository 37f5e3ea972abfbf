-- ===== src/Tests/DeletionTests.antt =====
-- The theorems about the deletion of copies and about finalizers at a concrete cluster.
use native.Mathlib.Decide.{ℕ_discrete}
use k8s_object_syncer.Base.{
  contains, true, false, ◌≡◌, refl, ◌⊎◌, inl, inr, some, List, [], ◌∷◌, Any, In, ok, Returns,
  string_eq, err,
}
use k8s_object_syncer.Base.Dict
use k8s_object_syncer.Kube.Meta.{api}
use k8s_object_syncer.Kube.Server.{Kube, Api}
use k8s_object_syncer.Kube.Client.{Env}
use k8s_object_syncer.Api.Types.{DestinationStatus}
use k8s_object_syncer.Errors.{is_not_found}
use k8s_object_syncer.Utils.Finalizers.{
  set_finalizers, finalizers, add_finalizer_if_missing, remove_finalizer,
}
use k8s_object_syncer.Utils.Finalizers.Addition.{SentOne, add_finalizer_if_missing_cases}
use k8s_object_syncer.Utils.Finalizers.Restore.{Removal, remove_finalizer-Removal}
use k8s_object_syncer.Utils.Names.{name_eq, ensure_gvk}
use k8s_object_syncer.Utils.Deletion.{delete_destinations, release_destination, delete_destination}
use k8s_object_syncer.Utils.Deletion.Released.{SeesTo}
use k8s_object_syncer.Utils.Deletion.Remnants.{
  AcceptsDeletion, Handles, delete_destinations-accounts,
}
use k8s_object_syncer.ObjectSyncController.Cleanup.{
  delete_all_destinations, report_removal, removal_condition,
}
use k8s_object_syncer.Modifications.{replace_status, status_has_changed}
use k8s_object_syncer.Api.Status.{update_condition, update_destinations, status_destinations}
use k8s_object_syncer.ObjectSyncController.Cleanup.Accepted.{delete_all_destinations-accepted}
use k8s_object_syncer.Tests.Cluster.{Obj, cluster, json_eq}
use k8s_object_syncer.Tests.Samples.{copy_in, env, source, tracking, session, world}

-- A cluster that refuses every deletion.
abbrev stubborn : Kube
stubborn = record cluster { delete = λ a name w. (err (api 403 "forbidden"), w) }

abbrev copies : List DestinationStatus
copies = copy_in "default" ∷ copy_in "a" ∷ []

abbrev stubborn_env : Env stubborn
stubborn_env = record { world = world; calls = [] }

deleted : (delete_destinations cluster copies env).0 ≡ ok []
unfolding delete_destinations release_destination delete_destination remove_finalizer is_not_found
    Dict.lookup Dict.remove Dict.insert string_eq json_eq ℕ_discrete name_eq ensure_gvk
deleted = refl

refused : (delete_destinations stubborn copies stubborn_env).0 ≡ ok copies
unfolding delete_destinations release_destination delete_destination remove_finalizer is_not_found
    Dict.lookup Dict.remove Dict.insert string_eq json_eq ℕ_discrete name_eq ensure_gvk
refused = refl

delete_destinations-accounts_example :
    (In (copy_in "a") []
      ⊎ Any
          (AcceptsDeletion cluster (copy_in "a"))
          (delete_destinations cluster copies env).1.calls)
    × Any (SeesTo cluster (copy_in "a")) (delete_destinations cluster copies env).1.calls
delete_destinations-accounts_example =
    delete_destinations-accounts cluster copies [] env (copy_in "a") deleted (inr (inl refl))

abbrev here : Api
here = record { resource = cluster.from_gvk "" "v1" "ConfigMap"; namespace = some "default" }

add_finalizer_if_missing_cases_example :
    ((contains (finalizers source.metadata) "f" ≡ true)
      × (add_finalizer_if_missing cluster here source "f" env ≡ (ok (false, source), env)))
    ⊎ ((contains (finalizers source.metadata) "f" ≡ false)
        × SentOne cluster here source "f" env
            (add_finalizer_if_missing cluster here source "f" env).1.calls
            (add_finalizer_if_missing cluster here source "f" env).0)
add_finalizer_if_missing_cases_example = add_finalizer_if_missing_cases cluster here source "f" env

-- An object with the finalizer.
abbrev held : Obj
held = set_finalizers source ("f" ∷ [])

remove_finalizer-Removal_example :
    Returns
      (λ (r, o').
        Removal cluster here held "f" env r o' (remove_finalizer cluster here held "f" env).1)
      (remove_finalizer cluster here held "f" env).0
remove_finalizer-Removal_example = remove_finalizer-Removal cluster here held "f" env

all_deleted : (delete_all_destinations cluster (session (tracking copies))).0 ≡ ok tt
unfolding delete_all_destinations report_removal removal_condition replace_status status_has_changed
    update_condition update_destinations status_destinations delete_destinations release_destination
    delete_destination remove_finalizer is_not_found Dict.lookup Dict.remove Dict.insert string_eq
    json_eq ℕ_discrete name_eq ensure_gvk
all_deleted = refl

delete_all_destinations-accepted_example :
    Handles cluster
      (delete_all_destinations cluster (session (tracking copies))).1.env.calls
      (copy_in "a")
unfolding status_destinations
delete_all_destinations-accepted_example =
    delete_all_destinations-accepted cluster (session (tracking copies)) copies (copy_in "a")
      all_deleted refl (inr (inl refl))
