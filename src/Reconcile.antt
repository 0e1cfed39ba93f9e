-- ===== src/Reconcile.antt =====
-- internal/controller/scionpathpolicy_controller.go: `Reconcile` of the policy reconciler. Log
-- lines are left out. The receiver's fields are the section's parameters: the cluster's client
-- and the SCION client, which may be nil.
pub mod Names
pub mod Frame
pub mod Peer
pub mod Loop
pub mod Outcome
pub mod Faults
pub mod Lifecycle
pub mod Destinations
pub mod Keeps
pub mod Retry
pub mod Order
pub mod Ownership
pub mod Contention
pub mod Status
use cilion.Base.{
  ℕ, ◌*◌, Bytes, codes, decimal, length, List, [], ◌∷◌, ◌++◌, Option, none, some, Bool, true, false,
  not, ◌&&◌, if◌then◌else◌,
}
use cilion.Effect.{Error, Result, Exec, pure, raise, deref, ◌>>=◌, ◌>>◌, catch, map_result}
use cilion.Api.{
  NamespacedName, Condition, ScionPathPolicy, ScionClusterPeer, ScionComputedPath,
  ScionComputedPathSpec, object_meta,
}
use cilion.Cluster.{Cluster, ScionClient, FetchedPath}

abbrev pub cilion_finalizer : Bytes
cilion_finalizer = codes "cilion.io/policy-finalizer"

-- `ctrl.Result`: the delay in nanoseconds after which the request comes back, 0 for none.
pub record CtrlResult : Type 0 where
  pub requeue_after : ℕ

abbrev pub done : CtrlResult
done = record { requeue_after = 0 }

-- `10 * time.Second`
abbrev pub requeue : CtrlResult
requeue = record { requeue_after = 10 * 1000000000 }

-- `fmt.Sprintf("%s-to-%s", policy.Name, peer.Name)`
unfoldable pub computed_path_name : Bytes → Bytes → Bytes
computed_path_name policy peer = policy ++ (codes "-to-" ++ peer)

-- The literal handed to `CreateOrUpdate`.
unfoldable pub new_computed_path : ScionPathPolicy → ScionClusterPeer → ScionComputedPath
new_computed_path policy peer = record {
  meta = object_meta (computed_path_name policy.meta.name peer.meta.name) policy.meta.namespace;
  spec = record { policy_ref = []; destination_cidr = []; next_hop_ip = []; hop_fields = [] };
  status = record { conditions = [] };
}

-- The four assignments to `computedPath.Spec`.
unfoldable pub path_spec : ScionPathPolicy → ScionClusterPeer → FetchedPath → ScionComputedPathSpec
path_spec policy peer fetched = record {
  policy_ref = policy.meta.name;
  destination_cidr = peer.spec.pod_cidr;
  next_hop_ip = fetched.next_hop_ip;
  hop_fields = fetched.raw_hop_fields;
}

-- The condition that a full success sets.
unfoldable pub active_condition : ScionPathPolicy → List ScionClusterPeer → Condition
active_condition policy peers = record {
  kind = codes "Active";
  status = codes "True";
  reason = codes "PathsComputed";
  message = codes "Computed paths for " ++ (decimal (length peers) ++ codes " destinations");
  observed_generation = policy.meta.generation;
}

unfoldable pub is_deleted : ScionPathPolicy → Bool
is_deleted policy = elim policy.meta.deletion_timestamp [ none ↦ false | some t ↦ true ]

module _ (C : Cluster) (scion : Option (ScionClient C.World)) where
  -- The callback of `CreateOrUpdate`.
  unfoldable pub mutate :
      ScionPathPolicy
      → ScionClusterPeer
      → FetchedPath
      → ScionComputedPath
      → Result ScionComputedPath
  mutate policy peer fetched computed_path =
      map_result (λ (c : ScionComputedPath). record c { spec = path_spec policy peer fetched })
        (C.set_controller_reference policy computed_path)

  -- The round behind the answer of the control service: skipped if the path is not ready.
  unfoldable pub publish_path : ScionPathPolicy → ScionClusterPeer → FetchedPath → Exec C.World Bool
  publish_path policy peer fetched = if not fetched.is_ready then pure false else do
    C.create_or_update (new_computed_path policy peer) (mutate policy peer fetched)
    pure true

  -- One round of the loop over the peers; the answer is whether the path was ready.
  unfoldable pub reconcile_peer : ScionPathPolicy → ScionClusterPeer → Exec C.World Bool
  reconcile_peer policy peer = do
    client ← deref scion
    preference ← deref policy.spec.preference
    fetched ← client.fetch_path peer.spec.remote_as preference
    publish_path policy peer fetched

  -- The loop, with `allPathsReady`.
  unfoldable pub reconcile_peers :
      ScionPathPolicy → List ScionClusterPeer → Bool → Exec C.World Bool
  reconcile_peers policy [] all_paths_ready = pure all_paths_ready
  reconcile_peers policy (peer ∷ peers) all_paths_ready = do
    ready ← reconcile_peer policy peer
    reconcile_peers policy peers (all_paths_ready && ready)

  -- The policy with the `Active` condition set.
  unfoldable pub with_active : ScionPathPolicy → List ScionClusterPeer → ScionPathPolicy
  with_active policy peers = record policy {
    status = record {
      conditions = C.set_status_condition policy.status.conditions (active_condition policy peers);
    };
  }

  -- Steps 6 and 7: the requeue, or the status.
  unfoldable pub finish : ScionPathPolicy → List ScionClusterPeer → Bool → Exec C.World CtrlResult
  finish policy peers all_paths_ready =
      if not all_paths_ready
      then pure requeue
      else do C.update_policy_status (with_active policy peers); pure done

  -- Steps 3 to 7.
  unfoldable pub compute_paths : ScionPathPolicy → Exec C.World CtrlResult
  compute_paths policy = do
    peers ← C.list_peers
    all_paths_ready ← reconcile_peers policy peers true
    finish policy peers all_paths_ready

  -- Step 2, deletion.
  unfoldable pub finalize : ScionPathPolicy → Exec C.World CtrlResult
  finalize policy =
      if C.contains_finalizer policy cilion_finalizer
      then (do C.update_policy (C.remove_finalizer policy cilion_finalizer); pure done)
      else pure done

  -- Everything behind the `Get`.
  unfoldable pub reconcile_policy : ScionPathPolicy → Exec C.World CtrlResult
  reconcile_policy policy =
      if is_deleted policy
      then finalize policy
      else if not (C.contains_finalizer policy cilion_finalizer)
      then (do C.update_policy (C.add_finalizer policy cilion_finalizer); pure done)
      else compute_paths policy

  unfoldable pub ignored : Option Error → Exec C.World CtrlResult
  ignored none = pure done
  ignored (some e) = raise e

  unfoldable pub reconcile : NamespacedName → Exec C.World CtrlResult
  reconcile req = catch (C.get_policy req) (λ e. ignored (C.ignore_not_found e)) reconcile_policy
