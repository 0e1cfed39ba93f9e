-- ===== src/Scion/Paths/Pointers.antt =====
-- `SortPartsPathsP`: the sort of pointers to paths, none of them nil.
use mathlib.Core.Bool.{Bool-set}
use mathlib.Core.List.{Perm}
use mathlib.Core.List.Pairwise
use mathlib.Core.List.Perm
use cilion.Base.{◌≡◌, List, map, Bool, false}
use cilion.Scion.Paths.{Snet, ScionPath, sorter_less, path_less}
use cilion.Scion.Paths.Sort.{
  IsWeakOrder, IsOrdered, IsSort, Sorter, sort_parts_paths, sorters, sort_parts_paths-IsOrdered,
  path_less-IsWeakOrder, sorter_le_prop, ordered_unique,
}

-- `at` reads a pointer in the store.
module _ (N : Snet) {P : Type 0} (at : P → ScionPath N) where
  unfoldable pub sort_parts_paths_p : ((P → P → Bool) → List P → List P) → List P → List P
  sort_parts_paths_p sort paths = sort (λ p q. path_less N (at p) (at q)) paths

  at-IsWeakOrder : IsWeakOrder (λ p q. path_less N (at p) (at q))
  at-IsWeakOrder =
      let W = path_less-IsWeakOrder N in
      record {
        irrefl = λ p. W.irrefl (at p);
        trans = λ p q r. W.trans (at p) (at q) (at r);
        cotrans = λ p q r. W.cotrans (at p) (at q) (at r);
      }

  sorted-IsOrdered :
      (sort : (P → P → Bool) → List P → List P)
      → IsSort sort
      → (paths : List P)
      → IsOrdered sorter_less (sorters N (map at (sort_parts_paths_p sort paths)))
  unfolding sort_parts_paths_p path_less
  sorted-IsOrdered sort law paths =
      Pairwise.map' (λ (p : ScionPath N). p.sorter) (λ s t. sorter_le_prop s t)
        (Pairwise.map' at (λ a b. Bool-set (path_less N b a) false)
          (law.orders _ paths at-IsWeakOrder))

  sorted-Perm :
      (sort : (P → P → Bool) → List P → List P)
      → IsSort sort
      → (paths : List P) → Perm (map at (sort_parts_paths_p sort paths)) (map at paths)
  unfolding sort_parts_paths_p
  sorted-Perm sort law paths = Perm.map at (law.permutes _ paths)

  -- The sort of pointers puts the paths behind them into the order of the sort of paths: the two
  -- sequences of sorters agree, whatever sort each one uses, if it permutes and orders as
  -- documented.
  pub sort_parts_paths_p_lem :
      (sort : (P → P → Bool) → List P → List P) (sort' : Sorter N)
      → IsSort sort
      → IsSort sort'
      → (paths : List P)
      → sorters N (map at (sort_parts_paths_p sort paths))
        ≡ sorters N (sort_parts_paths N sort' (map at paths))
  sort_parts_paths_p_lem sort sort' law law' paths =
      let (perm, ordered) = sort_parts_paths-IsOrdered N sort' law' (map at paths) in
      ordered_unique _ _ (sorted-IsOrdered sort law paths) ordered (
        Perm.map (λ (p : ScionPath N). p.sorter)
          (Perm.trans (sorted-Perm sort law paths) (Perm.symm perm)))
