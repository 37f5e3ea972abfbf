-- ===== src/Utils/Finalizers/Addition.antt =====
-- What `add_finalizer_if_missing` asks of the server, and what it leaves in the object.
use mathlib.Core.Option as Option
use k8s_object_syncer.Base.{
  inl, inr, Result-cases, String, string_eq, ◌≡◌, ◌⊎◌, true, false, Bool, ◌==◌, none, some, List,
  [], ◌∷◌, ◌++◌, contains, find, Result, ok, err, arith,
}
use k8s_object_syncer.Kube.Server.{Kube, Api, Patch}
use k8s_object_syncer.Kube.Client.{Object, Env, Call, Request, patch_object}
use k8s_object_syncer.Errors.{ControllerError, kube_api}
use k8s_object_syncer.Utils.Finalizers.{
  finalizers, apply_params, set_finalizers, finalizer_patch, add_finalizer_if_missing,
}

find-contains_cases :
    (f : String) (l : List String)
    → ((contains l f ≡ true) × (x : String) × (find (λ x. x == f) l ≡ some x))
      ⊎ ((contains l f ≡ false) × (find (λ x. x == f) l ≡ none))
find-contains_cases f [] = ground arith
find-contains_cases f (x ∷ l) = ground (arith, find-contains_cases f l)

module _ (K : Kube) (api : Api) (o : Object K) (f : String) (s : Env K) where
  -- A forced apply to the object, of the finalizer alone.
  abbrev pub AppliesFinalizer : Request K.Value K.Operation → Type 0
  AppliesFinalizer (patch_object a name pp (Patch.apply p)) =
      (a ≡ api)
      × (name ≡ K.name_any p.metadata)
      × (pp.force ≡ true)
      × (p.metadata.name ≡ o.metadata.name)
      × (p.metadata.namespace ≡ o.metadata.namespace)
      × (p.metadata.finalizers ≡ some (f ∷ []))
      × (p.metadata.labels ≡ none)
      × (p.metadata.annotations ≡ none)
      × (p.data_value ≡ K.null)
  AppliesFinalizer _ = ⊥

  -- The result after the call: the finalizer stands behind the others, or the call's error.
  abbrev pub Answered : Call K → Result ControllerError (Bool × Object K) → Type 0
  Answered c (ok (b, o')) =
      (c.failure ≡ none) × (b ≡ true) × (o' ≡ set_finalizers o (finalizers o.metadata ++ f ∷ []))
  Answered c (err e) = Option.map kube_api c.failure ≡ some e

  -- One call more than before, and the result that goes with its answer.
  abbrev pub SentOne : List (Call K) → Result ControllerError (Bool × Object K) → Type 0
  SentOne (c ∷ rest) r = (rest ≡ s.calls) × AppliesFinalizer c.request × Answered c r
  SentOne [] r = ⊥

  -- If the object has the finalizer, nothing is asked and nothing changes. If not, one forced apply
  -- is sent that holds the finalizer and no labels, annotations or data; on success the object has
  -- the finalizer after its own, and otherwise the error of the server comes back.
  pub add_finalizer_if_missing_cases :
      ((contains (finalizers o.metadata) f ≡ true)
        × (add_finalizer_if_missing K api o f s ≡ (ok (false, o), s)))
      ⊎ ((contains (finalizers o.metadata) f ≡ false)
          × SentOne
              (add_finalizer_if_missing K api o f s).1.calls
              (add_finalizer_if_missing K api o f s).0)
  unfolding add_finalizer_if_missing finalizer_patch
  add_finalizer_if_missing_cases =
      let fs = finalizers o.metadata in
      let p = finalizer_patch K o f in
      let answer = (K.patch api (K.name_any p.metadata) apply_params (Patch.apply p) s.world).0 in
      elim (find-contains_cases f fs) [
        | inl (there, x, found) ↦ inl (there, ground (arith, found))
        | inr (absent, missing) ↦ inr (
          absent,
          elim (Result-cases answer) [
            | inl (a, done) ↦ ground (arith, missing)
            | inr (e, failed) ↦ ground (arith, missing)
          ],
        )
      ]
