-- ===== src/Reconcile/Names.antt =====
-- The names of the generated paths: when two of them agree.
use mathlib.Core.List.{append_cancel_left}
use cilion.Base.{Bytes, codes, ◌≡◌}
use cilion.Api.{NamespacedName, ScionPathPolicy, ScionClusterPeer}
use cilion.Reconcile.{computed_path_name}

-- The key under which the path of a policy to a peer is stored.
abbrev pub path_key : ScionPathPolicy → ScionClusterPeer → NamespacedName
path_key policy peer = record {
  namespace = policy.meta.namespace;
  name = computed_path_name policy.meta.name peer.meta.name;
}

-- For one policy, two peers share a path name only if they share their own name.
pub computed_path_name-injective :
    (policy p q : Bytes) → computed_path_name policy p ≡ computed_path_name policy q → p ≡ q
unfolding computed_path_name
computed_path_name-injective policy p q h =
    append_cancel_left (codes "-to-") p q (append_cancel_left policy _ _ h)
