-- ===== src/Api/Status/Order/Sorted.antt =====
-- The sorted list of destinations is ascending, holds what was there before, and does not depend
-- on the order in which destinations of different places come.
use Prim.Native.Nat.{Ordering}
use mathlib.Core.List.{Permᴰ}
use mathlib.Core.List.Permᴰ as PermD
use k8s_object_syncer.Base.{◌≡◌, ◌≢◌, refl, ◌∙◌, ap, List, [], ◌∷◌, ◌⊎◌, inl, inr, All, arith}
use k8s_object_syncer.Base.Compare.{compare-flip, compare-lt_trans, compare-eq, flip}
use k8s_object_syncer.Api.Types.{DestinationStatus}
use k8s_object_syncer.Api.Status.Order.{cmp, insert_sorted, sort}

cmp-flip : (a b : DestinationStatus) → cmp b a ≡ flip (cmp a b)
unfolding cmp
cmp-flip a b = ground (arith, compare-flip a.namespace b.namespace, compare-flip a.name b.name)

-- What is not greater than something smaller is smaller.
cmp-lt_trans :
    (a b c : DestinationStatus)
    → cmp a b ≢ Ordering.gt
    → cmp b c ≡ Ordering.lt
    → cmp a c ≡ Ordering.lt
unfolding cmp
cmp-lt_trans a b c h k = ground (
  arith,
  compare-eq a.namespace b.namespace,
  compare-eq b.namespace c.namespace,
  compare-eq a.name b.name,
  compare-lt_trans a.namespace b.namespace c.namespace,
  compare-lt_trans a.name b.name c.name,
)

cmp-le_trans :
    (a b c : DestinationStatus)
    → cmp a b ≢ Ordering.gt
    → cmp b c ≢ Ordering.gt
    → cmp a c ≢ Ordering.gt
unfolding cmp
cmp-le_trans a b c h k = ground (
  arith,
  compare-eq a.namespace b.namespace,
  compare-eq b.namespace c.namespace,
  compare-eq a.name b.name,
  compare-eq b.name c.name,
  compare-lt_trans a.namespace b.namespace c.namespace,
  compare-lt_trans a.name b.name c.name,
)

All-insert_sorted :
    (P : DestinationStatus → Type 0) (d : DestinationStatus) (l : List DestinationStatus)
    → P d
    → All P l
    → All P (insert_sorted d l)
unfolding insert_sorted
All-insert_sorted P d [] h all = (h, tt)
All-insert_sorted P d (x ∷ l) h (p, all) = ground (arith, All-insert_sorted P d l h all)

pub All-sort :
    (P : DestinationStatus → Type 0) (l : List DestinationStatus) → All P l → All P (sort l)
unfolding sort
All-sort P [] all = tt
All-sort P (d ∷ l) (h, all) = All-insert_sorted P d (sort l) h (All-sort P l all)

-- Each entry is not greater than any later one.
pub IsAscending : List DestinationStatus → Type 0
IsAscending [] = Unit
IsAscending (d ∷ l) = All (λ x. cmp d x ≢ Ordering.gt) l × IsAscending l

insert-insert :
    (d e : DestinationStatus) (l : List DestinationStatus)
    → cmp d e ≢ Ordering.eq
    → insert_sorted d (insert_sorted e l) ≡ insert_sorted e (insert_sorted d l)
unfolding insert_sorted
insert-insert d e [] h = ground (arith, cmp-flip d e)
insert-insert d e (x ∷ l) h = ground (
  arith,
  cmp-flip d e,
  cmp-flip x d,
  cmp-flip x e,
  cmp-lt_trans d x e,
  cmp-lt_trans e x d,
  insert-insert d e l h,
)

insert_sorted_cases :
    (d x : DestinationStatus) (l : List DestinationStatus)
    → ((cmp d x ≢ Ordering.gt) × (insert_sorted d (x ∷ l) ≡ d ∷ x ∷ l))
      ⊎ ((cmp d x ≡ Ordering.gt) × (insert_sorted d (x ∷ l) ≡ x ∷ insert_sorted d l))
unfolding insert_sorted
insert_sorted_cases d x l = ground arith

insert_sorted-perm :
    (d : DestinationStatus) (l : List DestinationStatus) → Permᴰ (insert_sorted d l) (d ∷ l)
unfolding insert_sorted
insert_sorted-perm d [] = PermD.refl (d ∷ [])
insert_sorted-perm d (x ∷ l) = elim (insert_sorted_cases d x l) [
  | inl (_, e) ↦ rw e (PermD.refl (d ∷ x ∷ l))
  | inr (_, e) ↦
      rw e (PermD.trans (Permᴰ.cons refl (insert_sorted-perm d l)) (Permᴰ.swap refl refl))
]

-- Sorting rearranges the list.
sort-perm : (l : List DestinationStatus) → Permᴰ (sort l) l
unfolding sort
sort-perm [] = Permᴰ.nil
sort-perm (d ∷ l) = PermD.trans (insert_sorted-perm d (sort l)) (Permᴰ.cons refl (sort-perm l))

NotAfter : DestinationStatus → List DestinationStatus → Type 0
NotAfter d = All (λ x. cmp d x ≢ Ordering.gt)

NotAfter-trans :
    (a b : DestinationStatus) (l : List DestinationStatus)
    → cmp a b ≢ Ordering.gt
    → NotAfter b l
    → NotAfter a l
unfolding NotAfter
NotAfter-trans a b [] h below = tt
NotAfter-trans a b (x ∷ l) h (p, below) = (cmp-le_trans a b x h p, NotAfter-trans a b l h below)

NotAfter-insert_sorted :
    (a d : DestinationStatus) (l : List DestinationStatus)
    → cmp a d ≢ Ordering.gt
    → NotAfter a l
    → NotAfter a (insert_sorted d l)
unfolding NotAfter insert_sorted
NotAfter-insert_sorted a d [] h below = (h, tt)
NotAfter-insert_sorted a d (x ∷ l) h (p, below) =
    ground (arith, NotAfter-insert_sorted a d l h below)

insert_sorted-IsAscending :
    (d : DestinationStatus) (l : List DestinationStatus)
    → IsAscending l
    → IsAscending (insert_sorted d l)
unfolding NotAfter IsAscending insert_sorted
insert_sorted-IsAscending d [] asc = (tt, tt)
insert_sorted-IsAscending d (x ∷ l) (below, asc) = elim (insert_sorted_cases d x l) [
  | inl (before, e) ↦ rw e ((before, NotAfter-trans d x l before below), (below, asc))
  | inr (after, e) ↦ rw e (
    NotAfter-insert_sorted x d l (ground (arith, cmp-flip d x)) below,
    insert_sorted-IsAscending d l asc,
  )
]

-- The sorted list is ascending by namespace and name, and a rearrangement of the given one.
pub sort-IsAscending : (l : List DestinationStatus) → IsAscending (sort l) × Permᴰ (sort l) l
unfolding sort
sort-IsAscending [] = (unfold IsAscending in tt, sort-perm [])
sort-IsAscending (d ∷ l) =
    (insert_sorted-IsAscending d (sort l) ((sort-IsAscending l).0), sort-perm (d ∷ l))

cmp-apart :
    (d e : DestinationStatus)
    → (d.namespace ≢ e.namespace) ⊎ (d.name ≢ e.name)
    → cmp d e ≢ Ordering.eq
unfolding cmp
cmp-apart d e h = ground (arith, compare-eq d.namespace e.namespace, compare-eq d.name e.name)

-- The lists differ in the order of destinations with different namespaces or names.
pub data Shuffled : List DestinationStatus → List DestinationStatus → Type 0 where
  nil : Shuffled [] []
  cons :
      (d : DestinationStatus) {l r : List DestinationStatus}
      → Shuffled l r
      → Shuffled (d ∷ l) (d ∷ r)
  swap :
      (d e : DestinationStatus) (l : List DestinationStatus)
      → (d.namespace ≢ e.namespace) ⊎ (d.name ≢ e.name)
      → Shuffled (d ∷ e ∷ l) (e ∷ d ∷ l)
  trans : {l m r : List DestinationStatus} → Shuffled l m → Shuffled m r → Shuffled l r

-- The status does not depend on the order in which destinations were found that differ in their
-- namespaces or names.
pub sort-Shuffled : {l r : List DestinationStatus} → Shuffled l r → sort l ≡ sort r
unfolding sort
sort-Shuffled nil = refl
sort-Shuffled (cons d h) = ap (insert_sorted d) (sort-Shuffled h)
sort-Shuffled (swap d e l h) = insert-insert d e (sort l) (cmp-apart d e h)
sort-Shuffled (trans h k) = sort-Shuffled h ∙ sort-Shuffled k
