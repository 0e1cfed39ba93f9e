-- ===== src/Scion/Paths/Sort.antt =====
-- `SortPartsPaths` and `QueryPaths`. `sort.Slice` is a parameter: the order in which it leaves
-- elements that compare equal is not specified.
use mathlib.Core.Bool.{Bool-set}
use mathlib.Core.Logic.Or
use mathlib.Core.List.{Mem, Pairwise, Perm, mem-cons, mem-cons_self, rel_of_Pairwise-cons}
use mathlib.Core.List.Pairwise
use mathlib.Core.List.Perm
use cilion.Base.{◌≡◌, sym, ap₂, subst, Bytes, List, [], ◌∷◌, map, Bool, true, false}
use cilion.Scion.Paths.{Snet, ScionPath, sorter_less, path_less}
use cilion.Scion.Paths.Order.{
  sorter_less_irrefl, sorter_less_trans, sorter_less_connected, sorter_less_cotrans,
}

-- A comparison that `sort.Slice` accepts.
pub record IsWeakOrder {ℓ} {A : Type ℓ} (less : A → A → Bool) : Type ℓ where
  pub irrefl : (a : A) → less a a ≡ false
  pub trans : (a b c : A) → less a b ≡ true → less b c ≡ true → less a c ≡ true
  pub cotrans : (a b c : A) → less a b ≡ false → less b c ≡ false → less a c ≡ false

-- No later element is less than an earlier one.
abbrev pub IsOrdered {ℓ} : {A : Type ℓ} → (A → A → Bool) → List A → Type ℓ
IsOrdered less = Pairwise (λ a b. less b a ≡ false)

-- The documented behaviour of `sort.Slice`: it permutes, and it orders by a strict weak order.
pub record IsSort {ℓ} {A : Type ℓ} (sort : (A → A → Bool) → List A → List A) : Type ℓ where
  pub permutes : (less : A → A → Bool) (l : List A) → Perm (sort less l) l
  pub orders : (less : A → A → Bool) (l : List A) → IsWeakOrder less → IsOrdered less (sort less l)

pub sorter_le_prop : (s t : Bytes) → IsProp (sorter_less t s ≡ false)
sorter_le_prop s t = Bool-set (sorter_less t s) false

least :
    (s t : Bytes) (l : List Bytes)
    → IsOrdered sorter_less (s ∷ l)
    → Mem t (s ∷ l)
    → sorter_less t s ≡ false
least s t l o m =
    Or.elim (sorter_le_prop s t) (mem-cons.0 m)
      (λ e. subst (λ u. sorter_less u s ≡ false) (sym e) (sorter_less_irrefl s))
      (rel_of_Pairwise-cons o)

-- Two ordered lists of sorters with the same members are one list.
pub ordered_unique :
    (l r : List Bytes) → IsOrdered sorter_less l → IsOrdered sorter_less r → Perm l r → l ≡ r
ordered_unique [] r ol or p = Perm.nil-eq p
ordered_unique (s ∷ l) [] ol or p = Perm.eq-nil p
ordered_unique (s ∷ l) (t ∷ r) ol or p =
    let heads : s ≡ t =
      sorter_less_connected s t (least t s r or ((Perm.mem_iff p).0 mem-cons_self))
        (least s t l ol ((Perm.mem_iff p).1 mem-cons_self)) in
    ap₂ ◌∷◌ heads (
      ordered_unique l r (Pairwise.of_cons ol) (Pairwise.of_cons or)
        (Perm.cons_inv (subst (λ u. Perm (s ∷ l) (u ∷ r)) (sym heads) p)))

module _ (N : Snet) where
  abbrev pub Sorter : Type 0
  Sorter = (ScionPath N → ScionPath N → Bool) → List (ScionPath N) → List (ScionPath N)

  pub path_less-IsWeakOrder : IsWeakOrder (path_less N)
  unfolding path_less
  path_less-IsWeakOrder = record {
    irrefl = λ p. sorter_less_irrefl p.sorter;
    trans = λ p q r. sorter_less_trans p.sorter q.sorter r.sorter;
    cotrans = λ p q r. sorter_less_cotrans p.sorter q.sorter r.sorter;
  }

  unfoldable pub sort_parts_paths : Sorter → List (ScionPath N) → List (ScionPath N)
  sort_parts_paths sort paths = sort (path_less N) paths

  abbrev pub sorters : List (ScionPath N) → List Bytes
  sorters = map (λ (p : ScionPath N). p.sorter)

  -- With any sort that permutes and orders as documented, the sorted paths are a permutation of the
  -- paths, and their sorters ascend by length and then by bytes.
  pub sort_parts_paths-IsOrdered :
      (sort : Sorter)
      → IsSort sort
      → (paths : List (ScionPath N))
      → Perm (sort_parts_paths sort paths) paths
        × IsOrdered sorter_less (sorters (sort_parts_paths sort paths))
  unfolding sort_parts_paths path_less
  sort_parts_paths-IsOrdered sort law paths = (
    law.permutes (path_less N) paths,
    Pairwise.map' (λ (p : ScionPath N). p.sorter) (λ s t. sorter_le_prop s t)
        (law.orders (path_less N) paths path_less-IsWeakOrder),
  )

  -- The sequence of sorters that comes out depends neither on the sort, if it permutes and orders
  -- as documented, nor on the order of the input: two runs over permuted paths agree.
  pub sort_parts_paths_canonical :
      (sort sort' : Sorter)
      → IsSort sort
      → IsSort sort'
      → (paths paths' : List (ScionPath N)) → Perm paths paths'
      → sorters (sort_parts_paths sort paths) ≡ sorters (sort_parts_paths sort' paths')
  sort_parts_paths_canonical sort sort' law law' paths paths' p =
      let (perm, ordered) = sort_parts_paths-IsOrdered sort law paths in
      let (perm', ordered') = sort_parts_paths-IsOrdered sort' law' paths' in
      ordered_unique _ _ ordered ordered' (
        Perm.map (λ (p : ScionPath N). p.sorter) (Perm.trans perm (Perm.trans p (Perm.symm perm'))))
