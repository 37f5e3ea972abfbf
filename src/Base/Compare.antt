-- ===== src/Base/Compare.antt =====
-- The order of texts is a total order.
use Prim.Native.Nat.{Ordering}
use Prim.Native.String.{String, compare}
use Prim.Native.String.compare
use mathlib.Core.Path.{◌≡◌, refl}
use native.Mathlib.Omega.{arith}
use text.Mathlib.TextEquality.{path_by_compare}

abbrev pub flip : Ordering → Ordering
flip Ordering.lt = Ordering.gt
flip Ordering.eq = Ordering.eq
flip Ordering.gt = Ordering.lt

pub compare-flip : (s t : String) → compare t s ≡ flip (compare s t)
compare-flip String.[] String.[] = rw (compare.nil-nil) refl
compare-flip String.[] (String.◌∷◌ d t) = ground (arith, compare.nil-cons d t, compare.cons-nil d t)
compare-flip (String.◌∷◌ c s) String.[] = ground (arith, compare.nil-cons c s, compare.cons-nil c s)
compare-flip (String.◌∷◌ c s) (String.◌∷◌ d t) =
    ground (arith, compare.cons-cons c d s t, compare.cons-cons d c t s, compare-flip s t)

pub compare-lt_trans :
    (s t u : String)
    → compare s t ≡ Ordering.lt
    → compare t u ≡ Ordering.lt
    → compare s u ≡ Ordering.lt
compare-lt_trans s String.[] String.[] h k = ground (arith, compare.nil-nil)
compare-lt_trans String.[] String.[] u h k = ground (arith, compare.nil-nil)
compare-lt_trans (String.◌∷◌ c s) String.[] u h k = ground (arith, compare.cons-nil c s)
compare-lt_trans s (String.◌∷◌ d t) String.[] h k = ground (arith, compare.cons-nil d t)
compare-lt_trans String.[] (String.◌∷◌ d t) (String.◌∷◌ e u) h k =
    ground (arith, compare.nil-cons e u)
compare-lt_trans (String.◌∷◌ c s) (String.◌∷◌ d t) (String.◌∷◌ e u) h k = ground (
  arith,
  compare.cons-cons c d s t,
  compare.cons-cons d e t u,
  compare.cons-cons c e s u,
  compare-lt_trans s t u,
)

pub compare-eq : (s t : String) → compare s t ≡ Ordering.eq → s ≡ t
compare-eq = path_by_compare
