-- ===== src/Scheme.antt =====
-- api/v1alpha1/groupversion_info.go, the `init` functions beside it, and `init` of cmd/main.go: how
-- the types of the API come into the scheme of the program.
pub mod Known
use cilion.Base.{Bytes, codes, ◌≡◌, ◌⊎◌, List, [], ◌∷◌}
use cilion.Effect.{Exec, ok, answer, world, ◌>>=◌, ◌>>◌}
use mathlib.Core.List.{Memᴰ}

-- `schema.GroupVersion`
pub record GroupVersion : Type 0 where
  pub group : Bytes
  pub version : Bytes

-- The Go types that the program reads, writes or watches.
pub data GoType : Type 0 where
  scion_path_policy : GoType
  scion_path_policy_list : GoType
  scion_cluster_peer : GoType
  scion_cluster_peer_list : GoType
  scion_computed_path : GoType
  scion_computed_path_list : GoType
  pod : GoType

-- `scheme.Builder` of controller-runtime, `runtime.Scheme`, and the two calls of main's `init`
-- outside the program. `must` is `utilruntime.Must` of the error of a call.
pub record SchemeApi : Type 1 where
  pub Builder : Type 0
  pub Scheme : Type 0
  pub new_builder : GroupVersion → Builder
  pub register : List GoType → Builder → Builder
  pub new_scheme : Scheme
  pub add_to_scheme : Builder → Exec Scheme (Unit {0})
  pub add_client_go : Exec Scheme (Unit {0})
  pub must : Exec Scheme (Unit {0}) → Exec Scheme (Unit {0})
  pub Knows : Scheme → GroupVersion → GoType → Type 0

unfoldable pub scheme_group_version : GroupVersion
scheme_group_version = record { group = codes "cilion.cilion.io"; version = codes "v1alpha1" }

module _ (A : SchemeApi) where
  -- The `init` functions of the three files, in the order of their names.
  unfoldable pub register_cluster_peer : A.Builder → A.Builder
  register_cluster_peer = A.register (scion_cluster_peer ∷ scion_cluster_peer_list ∷ [])

  unfoldable pub register_computed_path : A.Builder → A.Builder
  register_computed_path = A.register (scion_computed_path ∷ scion_computed_path_list ∷ [])

  unfoldable pub register_path_policy : A.Builder → A.Builder
  register_path_policy = A.register (scion_path_policy ∷ scion_path_policy_list ∷ [])

  -- `SchemeBuilder` when the package is initialised.
  unfoldable pub scheme_builder : A.Builder
  scheme_builder =
      register_path_policy
        (register_computed_path (register_cluster_peer (A.new_builder scheme_group_version)))

  -- `init` of the program.
  unfoldable pub init : Exec A.Scheme (Unit {0})
  init = do A.must A.add_client_go; A.must (A.add_to_scheme scheme_builder)
