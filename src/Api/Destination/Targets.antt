-- ===== src/Api/Destination/Targets.antt =====
-- What `Destination::applies_to` accepts (rustrial-k8s-object-syncer-apis/src/lib.rs).
use mathlib.Core.Option.{get_or}
use k8s_object_syncer.Base.{String, string_eq, ◌≡◌, ◌≢◌, ◌↔◌, ◌⊎◌, some, arith}
use k8s_object_syncer.Api.Types.{Destination, ObjectSync}
use k8s_object_syncer.Api.Destination.{applies_to, source_namespace}

-- The destination names the namespace, or all of them.
abbrev pub Covers : Destination → String → Type 0
Covers d ns = (d.namespace ≡ ns) ⊎ (d.namespace ≡ "") ⊎ (d.namespace ≡ "*")

-- The name that the copy is given.
abbrev pub target_name : Destination → ObjectSync → String
target_name d obj = get_or d.name obj.spec.source.name

-- Namespace and name of the source object; an unset namespace reads as the empty text.
pub source_ref : ObjectSync → String × String
source_ref obj = (get_or (source_namespace obj) "", obj.spec.source.name)

-- A namespace and name come out exactly for the given namespace and the destination's own name
-- for the copy, when the destination covers the namespace and the pair is not the source object.
pub applies_to_iff :
    (d : Destination) (obj : ObjectSync) (ns : String) (target : String × String)
    → (applies_to d obj ns ≡ some target)
      ↔ ((target ≡ (ns, target_name d obj)) × Covers d ns × (target ≢ source_ref obj))
unfolding applies_to source_namespace source_ref
applies_to_iff d obj ns target = ground arith
