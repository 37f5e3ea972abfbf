-- ===== src/ResourceController/Start/Scopes.antt =====
-- That no object is missed because of the namespace that is watched.
use k8s_object_syncer.Base.{
  String, string_eq, ◌≡◌, refl, Bool, sym, ◌∙◌, true, Option, none, some, List, [], ◌∷◌, arith,
}
use k8s_object_syncer.Configuration.{Configuration, configured, object_sync_api, new}
use k8s_object_syncer.Configuration.Namespaces.{in_namespaces-configured}
use k8s_object_syncer.ResourceController.Lookup.{in_namespaces}
use k8s_object_syncer.ResourceController.Watch.{is_target_namespace}
use k8s_object_syncer.ResourceController.Start.{Watches, api, watches}

-- The objects of the namespace are among those of the scope.
abbrev pub Reaches : Option String → String → Type 0
Reaches none ns = Unit
Reaches (some watched) ns = watched ≡ ns

api-Reaches :
    (nss : Option (List String)) (ns : String)
    → is_target_namespace nss ns ≡ true
    → Reaches (api nss) ns
unfolding api is_target_namespace
api-Reaches none ns h = tt
api-Reaches (some []) ns h = tt
api-Reaches (some (x ∷ [])) ns h = ground arith
api-Reaches (some (x ∷ y ∷ l)) ns h = tt

-- The API of the `ObjectSync` objects has the same scope.
object_sync_api_same : (nss : Option (List String)) → object_sync_api nss ≡ api nss
unfolding object_sync_api api
object_sync_api_same none = refl
object_sync_api_same (some []) = refl
object_sync_api_same (some (x ∷ [])) = refl
object_sync_api_same (some (x ∷ y ∷ l)) = refl

configured-Reaches :
    (value : Option String) (ns : String)
    → in_namespaces (configured value) ns ≡ true
    → Reaches (api (configured value)) ns
configured-Reaches value ns h =
    api-Reaches (configured value) ns (sym (in_namespaces-configured value ns) ∙ h)

-- The kinds of objects that are watched within namespaces.
pub data Role : Type 0 where
  source_role : Role
  copy_role : Role
  object_sync_role : Role

-- The test that a controller makes on the namespace of an object of the role.
abbrev pub admits : Role → Configuration → String → Bool
admits source_role c = in_namespaces c.source_namespaces
admits copy_role c = is_target_namespace c.target_namespaces
admits object_sync_role c = in_namespaces c.watch_namespaces

abbrev pub scope_of : Role → Watches → Option String
scope_of source_role w = w.sources
scope_of copy_role w = w.copies
scope_of object_sync_role w = w.object_syncs

-- With the configuration of any environment, no object that passes the controllers' test of its
-- namespace is missed because of the namespace that is watched: neither a source, nor a copy, nor
-- an `ObjectSync`.
pub watches-Reaches :
    (env : String → Option String) (role : Role) (ns : String)
    → admits role (new env) ns ≡ true
    → Reaches (scope_of role (watches (new env))) ns
unfolding new watches
watches-Reaches env source_role ns h = configured-Reaches (env "SOURCE_NAMESPACES") ns h
watches-Reaches env copy_role ns h = api-Reaches (configured (env "TARGET_NAMESPACES")) ns h
watches-Reaches env object_sync_role ns h =
    rw (object_sync_api_same (configured (env "WATCH_NAMESPACES")))
      (configured-Reaches (env "WATCH_NAMESPACES") ns h)
