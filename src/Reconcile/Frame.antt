-- ===== src/Reconcile/Frame.antt =====
-- What `Reconcile` leaves alone, on every branch, errors and panics included.
use cilion.Base.{◌≡◌, ◌≢◌, ◌∙◌, refl, List, [], ◌∷◌, Option, none, some, Bool, true, ◌&&◌, not}
use cilion.Effect.{
  Error, ok, pure, deref, continue, if-keeps, deref-keeps, continue-keeps, recover-keeps, world,
  answer,
}
use cilion.Api.{NamespacedName, ScionPathPolicy, ScionClusterPeer, ScionComputedPath}
use cilion.Cluster.{Cluster, ScionClient, View, IsFramed}
use cilion.Reconcile.{
  cilion_finalizer, new_computed_path, publish_path, reconcile_peer, reconcile_peers, compute_paths,
  finish, finalize, reconcile_policy, ignored, reconcile, is_deleted, done,
}
use cilion.Reconcile.Names.{path_key}

module _ (C : Cluster) (client : ScionClient C.World) (V : View C) (F : IsFramed C V client)
    (k : NamespacedName) (old : Option ScionComputedPath) where
  -- The stored path of `k` is `old`.
  abbrev Holds : C.World → Type 0
  Holds w = V w k ≡ old

  module _ (policy : ScionPathPolicy) where
    reconcile_peer-keeps :
        (peer : ScionClusterPeer) (w : C.World)
        → k ≢ path_key policy peer
        → Holds w
        → Holds (world (reconcile_peer C (some client) policy peer w))
    unfolding reconcile_peer publish_path new_computed_path
    reconcile_peer-keeps peer w other h =
        continue-keeps Holds _ (deref policy.spec.preference w)
          (deref-keeps Holds policy.spec.preference w h)
          λ preference _ w₁ h₁.
            continue-keeps Holds _ (client.fetch_path peer.spec.remote_as preference w₁)
              (F.fetch_frame w₁ _ _ k ∙ h₁)
              λ fetched _ w₂ h₂.
                if-keeps Holds (not fetched.is_ready) _ _ w₂ (λ _. h₂)
                  λ _.
                    continue-keeps Holds _ (C.create_or_update _ _ w₂)
                      (F.create_frame w₂ _ _ k other ∙ h₂) (λ _ _ w₃ h₃. h₃)

    reconcile_peers-keeps :
        (peers : List ScionClusterPeer) (all_ready : Bool) (w : C.World)
        → ((peer : ScionClusterPeer) → k ≢ path_key policy peer)
        → Holds w
        → Holds (world (reconcile_peers C (some client) policy peers all_ready w))
    unfolding reconcile_peers
    reconcile_peers-keeps [] all_ready w other h = h
    reconcile_peers-keeps (peer ∷ peers) all_ready w other h =
        continue-keeps Holds _ (reconcile_peer C (some client) policy peer w)
          (reconcile_peer-keeps peer w (other peer) h)
          λ ready _ w₁ h₁. reconcile_peers-keeps peers (all_ready && ready) w₁ other h₁

    compute_paths-keeps :
        (w : C.World)
        → ((peer : ScionClusterPeer) → k ≢ path_key policy peer)
        → Holds w
        → Holds (world (compute_paths C (some client) policy w))
    unfolding compute_paths finish
    compute_paths-keeps w other h =
        continue-keeps Holds _ (C.list_peers w) (F.list_frame w k ∙ h) λ peers _ w₁ h₁.
          continue-keeps Holds _ (reconcile_peers C (some client) policy peers true w₁)
            (reconcile_peers-keeps peers true w₁ other h₁)
            λ all_ready _ w₂ h₂.
              if-keeps Holds (not all_ready) _ _ w₂ (λ _. h₂)
                λ _.
                  continue-keeps Holds _ (C.update_policy_status _ w₂) (F.status_frame w₂ _ k ∙ h₂)
                    (λ _ _ w₃ h₃. h₃)

    update-keeps :
        (p : ScionPathPolicy) (w : C.World)
        → Holds w
        → Holds (world (continue {A = Unit {0}} (λ _. pure done) (C.update_policy p w)))
    update-keeps p w h =
        continue-keeps Holds _ (C.update_policy p w) (F.update_frame w p k ∙ h) (λ _ _ w₁ h₁. h₁)

    reconcile_policy-keeps :
        (w : C.World)
        → ((peer : ScionClusterPeer) → k ≢ path_key policy peer)
        → Holds w
        → Holds (world (reconcile_policy C (some client) policy w))
    unfolding reconcile_policy finalize
    reconcile_policy-keeps w other h =
        if-keeps Holds (is_deleted policy) _ _ w
          (λ _.
            if-keeps Holds (C.contains_finalizer policy cilion_finalizer) _ _ w
              (λ _. update-keeps _ w h) (λ _. h))
          λ _.
            if-keeps Holds (not (C.contains_finalizer policy cilion_finalizer)) _ _ w
              (λ _. update-keeps _ w h) (λ _. compute_paths-keeps w other h)

  ignored-keeps :
      (o : Option Error) (w : C.World) → Holds w → Holds (world (ignored C (some client) o w))
  unfolding ignored
  ignored-keeps none w h = h
  ignored-keeps (some e) w h = h

  reconcile-keeps :
      (req : NamespacedName) (w : C.World)
      → ((policy : ScionPathPolicy)
          → answer (C.get_policy req w) ≡ ok policy
          → (peer : ScionClusterPeer) → k ≢ path_key policy peer)
      → Holds w
      → Holds (world (reconcile C (some client) req w))
  unfolding reconcile
  reconcile-keeps req w other h =
      recover-keeps Holds _ _ (C.get_policy req w) (F.get_frame w req k ∙ h)
        (λ e w₁ h₁. ignored-keeps (C.ignore_not_found e) w₁ h₁)
        λ policy got w₁ h₁. reconcile_policy-keeps policy w₁ (other policy got) h₁

-- If only `CreateOrUpdate` changes stored paths, and only at its key, then a reconcile changes the
-- stored path of no key but those of the policy that it read, whatever the answers of the API
-- server and of the control service, errors and panics included.
pub reconcile_frame :
    (C : Cluster) (client : ScionClient C.World) (V : View C) (F : IsFramed C V client)
    (req k : NamespacedName) (w : C.World)
    → ((policy : ScionPathPolicy)
        → answer (C.get_policy req w) ≡ ok policy
        → (peer : ScionClusterPeer) → k ≢ path_key policy peer)
    → V (world (reconcile C (some client) req w)) k ≡ V w k
reconcile_frame C client V F req k w other = reconcile-keeps C client V F k (V w k) req w other refl
