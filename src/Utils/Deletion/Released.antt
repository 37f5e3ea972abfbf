-- ===== src/Utils/Deletion/Released.antt =====
-- How `delete_destinations` sees to the finalizer of a copy before it deletes it (utils.rs), and
-- that what was noted of earlier requests stays.
use k8s_object_syncer.Base.{
  ◌≡◌, refl, sym, ◌⊎◌, String, string_eq, Bool, false, not, ◌==◌, contains, retain, err, Result,
  inl, inr, true, some, List, [], ◌∷◌, Any, ok, arith, Result-cases,
}
use mathlib.Core.Path.{subst}
use k8s_object_syncer.Kube.Meta.{KubeError}
use k8s_object_syncer.Kube.Server.{Kube, Patch}
use k8s_object_syncer.Kube.Client.{Object, Env, Call, get, get_object, patch_object}
use k8s_object_syncer.Api.Types.{DestinationStatus}
use k8s_object_syncer.Errors.{ControllerError, is_not_found}
use k8s_object_syncer.Utils.Names.{finalizer_name, ensure_gvk}
use k8s_object_syncer.Utils.Finalizers.{finalizers, set_finalizers, json_params, remove_finalizer}
use k8s_object_syncer.Utils.Finalizers.Restore.{Removal, out, remove_finalizer-Removal}
use k8s_object_syncer.Utils.Deletion.{
  gvk_of, destination_api, release_destination, delete_destination, delete_loop,
}

-- How the finalizer of a copy is seen to, before the copy is deleted.
module _ (K : Kube) where
  -- The object without the program's finalizer.
  abbrev pub unfinalized : Object K → Object K
  unfinalized o = set_finalizers o (retain (λ f. not (f == finalizer_name)) (finalizers o.metadata))

  -- The object does not have the finalizer, or cannot be serialised to take it off.
  abbrev pub IsBare : Object K → Type 0
  IsBare o =
      (contains (finalizers o.metadata) finalizer_name ≡ false)
      ⊎ (e : String) × ((K.object_to_value o ≡ err e) ⊎ (K.object_to_value (unfinalized o) ≡ err e))

  -- The copy was asked for, and is not there or has nothing to be taken off.
  abbrev pub FindsBare : DestinationStatus → Call K → Type 0
  FindsBare d c =
      (c.request ≡ get_object (destination_api K d) d.name)
      × (((e : KubeError) × (c.failure ≡ some e) × (is_not_found e ≡ true))
          ⊎ ((o : Object K) × (c.shown ≡ some o) × IsBare (ensure_gvk K o (gvk_of d))))

  -- The patch was sent that takes the finalizer off an object.
  abbrev pub TakesOff : DestinationStatus → Call K → Type 0
  TakesOff d c =
      (o : Object K) × (before : K.Value) × (after : K.Value) × (K.object_to_value o ≡ ok before)
      × (K.object_to_value (unfinalized o) ≡ ok after)
      × (c.request
          ≡ patch_object (destination_api K d) (K.name_any (unfinalized o).metadata) json_params
              (Patch.json (K.diff before after)))

  abbrev pub SeesTo : DestinationStatus → Call K → Type 0
  SeesTo d c = FindsBare d c ⊎ TakesOff d c

  release_missing :
      (d : DestinationStatus) (s : Env K) (e : KubeError)
      → (K.get (destination_api K d) d.name s.world).0 ≡ err e
      → (release_destination K d s).0 ≡ ok tt
      → (is_not_found e ≡ true)
        × ((release_destination K d s).1 ≡ (get K (destination_api K d) d.name s).1)
  unfolding release_destination
  release_missing d s e missing done = ground arith

  abbrev released_out :
      DestinationStatus
      → Object K
      → Env K
      → Result ControllerError (Result ControllerError Bool × Object K) × Env K
  released_out d o s =
      out K (destination_api K d) (ensure_gvk K o (gvk_of d)) finalizer_name
        (get K (destination_api K d) d.name s).1

  release_found :
      (d : DestinationStatus) (s : Env K) (o : Object K)
      → (K.get (destination_api K d) d.name s.world).0 ≡ ok o
      → (release_destination K d s).1 ≡ (released_out d o s).1
  unfolding release_destination
  release_found d s o found = ground arith

  -- What was noted of the request that found the object.
  shown :
      (d : DestinationStatus) (s : Env K) (o : Object K)
      → (K.get (destination_api K d) d.name s.world).0 ≡ ok o
      → IsBare (ensure_gvk K o (gvk_of d))
      → Any (SeesTo d) (get K (destination_api K d) d.name s).1.calls
  shown d s o found bare = inl (inl (refl, inr (o, rw found refl, bare)))

  Any-released :
      (d : DestinationStatus) (s : Env K) (o : Object K) (r : Result ControllerError Bool)
      (o' : Object K) (t : Env K)
      → (K.get (destination_api K d) d.name s.world).0 ≡ ok o
      → Removal K
          (destination_api K d)
          (ensure_gvk K o (gvk_of d))
          finalizer_name
          (get K (destination_api K d) d.name s).1
          r
          o'
          t
      → Any (SeesTo d) t.calls
  Any-released d s o r o' t found (inl (absent, same, kept, told)) =
      subst (λ (x : Env K). Any (SeesTo d) x.calls) (sym same) (shown d s o found (inl absent))
  Any-released d s o r o' t found (inr (inl ((e, failed, told), same))) =
      subst (λ (x : Env K). Any (SeesTo d) x.calls) (sym same) (shown d s o found (inr (e, failed)))
  Any-released d s o r o' t found
        (inr (inr (before, after, h, h', there, (c, sent, asked), reflects))) =
      subst (Any (SeesTo d)) (sym sent)
        (inl (inr (ensure_gvk K o (gvk_of d), before, after, h, h', asked)))

  pub release_destination-SeesTo :
      (d : DestinationStatus) (s : Env K)
      → (release_destination K d s).0 ≡ ok tt
      → Any (SeesTo d) (release_destination K d s).1.calls
  release_destination-SeesTo d s done =
      elim (Result-cases (K.get (destination_api K d) d.name s.world).0) [
        | inr (e, missing) ↦
            let (gone, at) = release_missing d s e missing done in
            subst (λ (x : Env K). Any (SeesTo d) x.calls) (sym at)
              (inl (inl (refl, inl (e, rw missing refl, gone))))
        | inl (o, found) ↦
            let removal =
              remove_finalizer-Removal K (destination_api K d) (ensure_gvk K o (gvk_of d))
                finalizer_name (get K (destination_api K d) d.name s).1 in
            let t = (released_out d o s).1 in
            subst (λ (x : Env K). Any (SeesTo d) x.calls) (sym (release_found d s o found))
              (elim (Result-cases (released_out d o s).0) [
                | inr (e, failed) ↦ absurd (rw failed at removal)
                | inl ((r, o'), returned) ↦ Any-released d s o r o' t found (rw returned at removal)
              ])
      ]

module _ (K : Kube) (P : Call K → Type 0) where
  Any-remove_finalizer :
      (api : _) (o : _) (f : _) (s : Env K)
      → Any P s.calls
      → Any P (remove_finalizer K api o f s).1.calls
  unfolding remove_finalizer
  Any-remove_finalizer api o f s h = ground arith

  pub Any-release_destination :
      (d : DestinationStatus) (s : Env K)
      → Any P s.calls
      → Any P (release_destination K d s).1.calls
  unfolding release_destination
  Any-release_destination d s h = grind (arith, Any-remove_finalizer)

  pub Any-delete_destination :
      (d : DestinationStatus) (errors : List DestinationStatus) (s : Env K)
      → Any P s.calls
      → Any P (delete_destination K d errors s).1.calls
  unfolding delete_destination
  Any-delete_destination d errors s h = ground arith

  pub Any-delete_loop :
      (ds errors : List DestinationStatus) (s : Env K)
      → Any P s.calls
      → Any P (delete_loop K ds errors s).1.calls
  unfolding delete_loop
  Any-delete_loop [] errors s h = h
  Any-delete_loop (d ∷ ds) errors s h =
      grind (arith, Any-release_destination, Any-delete_destination, Any-delete_loop ds)
