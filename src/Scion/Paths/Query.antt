-- ===== src/Scion/Paths/Query.antt =====
-- What `QueryPaths` makes of the paths that it is given.
use mathlib.Core.List.{Perm}
use mathlib.Core.List.Perm
use cilion.Base.{◌≡◌, ap, List, [], map, some}
use cilion.Effect.{Result, ok, map_result}
use cilion.Scion.Paths.{Snet, SnetPath, PathMetadata, ScionPath, describe, describe_all}
use cilion.Scion.Paths.Sort.{IsSort, Sorter, sort_parts_paths}

module _ (N : Snet) where
  abbrev pub with_metadata : PathMetadata N → SnetPath N
  with_metadata m = record { metadata = some m }

  abbrev pub described : List (PathMetadata N) → List (ScionPath N)
  described = map (λ (m : PathMetadata N). describe N (with_metadata m) m)

  -- `QueryPaths` behind the answer of `queryPaths`.
  unfoldable pub collect_paths : Sorter N → List (SnetPath N) → Result (List (ScionPath N))
  collect_paths sort paths = map_result (sort_parts_paths N sort) (describe_all N paths [])

  -- No path gives no record.
  pub collect_paths-nil : (sort : Sorter N) → IsSort sort → collect_paths sort [] ≡ ok []
  unfolding collect_paths describe_all sort_parts_paths
  collect_paths-nil sort law = ap ok (Perm.eq-nil (law.permutes _ []))
