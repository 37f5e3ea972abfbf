-- ===== src/Utils/Finalizers/Restore.antt =====
-- What the finalizer functions leave in the object and ask of the server.
use k8s_object_syncer.Base.{
  String, string_eq, ◌≡◌, refl, true, false, not, Bool, ◌==◌, ◌<◌, List, [], ◌∷◌, contains, retain,
  length, Result, ok, err, Returns, arith, length-retain, ◌⊎◌, inl, inr, Result-cases, Bool-cases,
}
use k8s_object_syncer.Kube.Meta.{KubeError}
use k8s_object_syncer.Kube.Server.{Kube, Api, Patch}
use k8s_object_syncer.Kube.Client.{Object, Env, Call, Request, patch, patch_object}
use k8s_object_syncer.Errors.{ControllerError, kube_api, serde, is_not_found}
use k8s_object_syncer.Utils.Finalizers.{
  finalizers, set_finalizers, json_params, patched_finalizer, remove_finalizer,
}

module _ (f : String) where
  contains-retain : (l : List String) → contains (retain (λ x. not (x == f)) l) f ≡ false
  contains-retain [] = refl
  contains-retain (x ∷ l) = ground (arith, contains-retain l)

  retain_of_absent : (l : List String) → contains l f ≡ false → retain (λ x. not (x == f)) l ≡ l
  retain_of_absent [] h = refl
  retain_of_absent (x ∷ l) h = ground (arith, retain_of_absent l)

  retain_of_present :
      (l : List String) → contains l f ≡ true → length (retain (λ x. not (x == f)) l) < length l
  retain_of_present [] h = cc
  retain_of_present (x ∷ l) h =
      ground (arith, retain_of_present l, length-retain (λ x. not (x == f)) l)

module _ (K : Kube) (api : Api) (o : Object K) (f : String) (s : Env K) where
  -- The object without the finalizer.
  abbrev pub without : Object K
  without = set_finalizers o (retain (λ x. not (x == f)) (finalizers o.metadata))

  -- The patch from the one value to the other, and what the server makes of it.
  abbrev pub Sent : K.Value → K.Value → Request K.Value K.Operation
  Sent before after =
      patch_object api (K.name_any without.metadata) json_params (Patch.json (K.diff before after))

  abbrev pub answer : K.Value → K.Value → Result KubeError (Object K)
  answer before after =
      (K.patch api (K.name_any without.metadata) json_params (Patch.json (K.diff before after))
        s.world).0

  -- What the caller gets for an answer: the finalizer is gone if the server took the patch or there
  -- is no such object, and the finalizers are as before, with the error, if it refused.
  abbrev pub Reflects :
      Result KubeError (Object K) → Result ControllerError Bool → Object K → Type 0
  Reflects (ok p) r o' = (r ≡ ok true) × (contains (finalizers o'.metadata) f ≡ false)
  Reflects (err e) r o' =
      ((is_not_found e ≡ true) × (r ≡ ok true) × (contains (finalizers o'.metadata) f ≡ false))
      ⊎ ((is_not_found e ≡ false)
          × (r ≡ err (kube_api e))
          × (finalizers o'.metadata ≡ finalizers o.metadata))

  -- Nothing is sent, because the finalizer is not there or a value cannot be serialised; or one
  -- patch is.
  abbrev pub Removal : Result ControllerError Bool → Object K → Env K → Type 0
  Removal r o' t =
      ((contains (finalizers o.metadata) f ≡ false)
        × (t ≡ s)
        × (finalizers o'.metadata ≡ finalizers o.metadata)
        × (r ≡ ok false))
      ⊎ (((e : String) × ((K.object_to_value o ≡ err e) ⊎ (K.object_to_value without ≡ err e))
            × (r ≡ err (serde e)))
          × (t ≡ s))
      ⊎ ((before : K.Value) × (after : K.Value) × (K.object_to_value o ≡ ok before)
          × (K.object_to_value without ≡ ok after)
          × (contains (finalizers o.metadata) f ≡ true)
          × ((c : Call K) × (t.calls ≡ c ∷ s.calls) × (c.request ≡ Sent before after))
          × Reflects (answer before after) r o')

  kept_same :
      contains (finalizers o.metadata) f ≡ false
      → finalizers without.metadata ≡ finalizers o.metadata
  kept_same h = retain_of_absent f (finalizers o.metadata) h

  abbrev pub out : Result ControllerError (Result ControllerError Bool × Object K) × Env K
  out = remove_finalizer K api o f s

  unserialised : (e : String) → K.object_to_value o ≡ err e → out ≡ (ok (err (serde e), o), s)
  unfolding remove_finalizer
  unserialised e h = ground arith

  absent_run :
      (before : K.Value)
      → K.object_to_value o ≡ ok before
      → contains (finalizers o.metadata) f ≡ false
      → out ≡ (ok (ok false, without), s)
  unfolding remove_finalizer
  absent_run before h none_there = ground (arith, kept_same none_there)

  unserialised_after :
      (before : K.Value) (e : String)
      → K.object_to_value o ≡ ok before
      → contains (finalizers o.metadata) f ≡ true
      → K.object_to_value without ≡ err e
      → out ≡ (ok (err (serde e), without), s)
  unfolding remove_finalizer
  unserialised_after before e h there h' =
      ground (arith, retain_of_present f (finalizers o.metadata))

  sent_run :
      (before after : K.Value)
      → K.object_to_value o ≡ ok before
      → contains (finalizers o.metadata) f ≡ true
      → K.object_to_value without ≡ ok after
      → out ≡ (
        ok (patched_finalizer K o without (answer before after)),
        (patch K api
            (K.name_any without.metadata)
            json_params
            (Patch.json (K.diff before after))
            s).1,
      )
  unfolding remove_finalizer
  sent_run before after h there h' = ground (arith, retain_of_present f (finalizers o.metadata))

  patched_finalizer-Reflects :
      (a : Result KubeError (Object K))
      → Reflects a (patched_finalizer K o without a).0 (patched_finalizer K o without a).1
  unfolding patched_finalizer
  patched_finalizer-Reflects a = ground (arith, contains-retain f (finalizers o.metadata))

  -- Without the finalizer nothing is sent, the finalizers stay and the result says so; neither is anything sent where
  -- a value cannot be serialised, which is an error. Else one patch is sent, from the object to
  -- the object without the finalizer. If the server takes it or has no such object, the result
  -- is a success and the object has lost the finalizer; any other answer is the result, and the
  -- object's finalizers are as before.
  pub remove_finalizer-Removal :
      Returns
        (λ (r, o'). Removal r o' (remove_finalizer K api o f s).1)
        (remove_finalizer K api o f s).0
  remove_finalizer-Removal = elim (Result-cases (K.object_to_value o)) [
    | inr (e, h) ↦ rw (unserialised e h) (inr (inl ((e, inl h, refl), refl)))
    | inl (before, h) ↦ elim (Bool-cases (contains (finalizers o.metadata) f)) [
      | inr none_there ↦
          rw (absent_run before h none_there) (inl (none_there, refl, kept_same none_there, refl))
      | inl there ↦ elim (Result-cases (K.object_to_value without)) [
        | inr (e, h') ↦
            rw (unserialised_after before e h there h') (inr (inl ((e, inr h', refl), refl)))
        | inl (after, h') ↦ rw (sent_run before after h there h') (
            inr (
              inr (
                before,
                after,
                h,
                h',
                there,
                (_, refl, refl),
                patched_finalizer-Reflects (answer before after),
              )))
      ]
    ]
  ]
