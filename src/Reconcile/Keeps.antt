-- ===== src/Reconcile/Keeps.antt =====
-- What the loop over the peers keeps, if each call that it makes keeps it.
use cilion.Base.{List, [], ◌∷◌, Bytes, some, Bool, not, ◌&&◌}
use cilion.Effect.{Result, deref, if-keeps, deref-keeps, continue-keeps, world}
use cilion.Api.{NamespacedName, ScionPathPolicy, ScionClusterPeer, ScionComputedPath}
use cilion.Cluster.{Cluster, ScionClient}
use cilion.Reconcile.{publish_path, reconcile_peer, reconcile_peers}

module _ (C : Cluster) (client : ScionClient C.World) (Q : C.World → Type 0) where
  -- Reads, fetches and writes of computed paths keep `Q`.
  pub record IsKept : Type 0 where
    pub get_keeps : (n : NamespacedName) (w : C.World) → Q w → Q (world (C.get_policy n w))
    pub list_keeps : (w : C.World) → Q w → Q (world (C.list_peers w))
    pub fetch_keeps :
        (destination preference : Bytes) (w : C.World)
        → Q w
        → Q (world (client.fetch_path destination preference w))
    pub create_keeps :
        (obj : ScionComputedPath) (f : ScionComputedPath → Result ScionComputedPath) (w : C.World)
        → Q w
        → Q (world (C.create_or_update obj f w))

  module _ (N : IsKept) (policy : ScionPathPolicy) where
    reconcile_peer-keeps :
        (peer : ScionClusterPeer) (w : C.World)
        → Q w
        → Q (world (reconcile_peer C (some client) policy peer w))
    unfolding reconcile_peer publish_path
    reconcile_peer-keeps peer w h =
        continue-keeps Q _ (deref policy.spec.preference w)
          (deref-keeps Q policy.spec.preference w h)
          λ preference _ w₁ h₁.
            continue-keeps Q _ (client.fetch_path peer.spec.remote_as preference w₁)
              (N.fetch_keeps _ _ w₁ h₁)
              λ fetched _ w₂ h₂.
                if-keeps Q (not fetched.is_ready) _ _ w₂ (λ _. h₂)
                  λ _.
                    continue-keeps Q _ (C.create_or_update _ _ w₂) (N.create_keeps _ _ w₂ h₂)
                      (λ _ _ w₃ h₃. h₃)

    pub reconcile_peers-keeps :
        (peers : List ScionClusterPeer) (ready : Bool) (w : C.World)
        → Q w
        → Q (world (reconcile_peers C (some client) policy peers ready w))
    unfolding reconcile_peers
    reconcile_peers-keeps [] ready w h = h
    reconcile_peers-keeps (peer ∷ peers) ready w h =
        continue-keeps Q _ (reconcile_peer C (some client) policy peer w)
          (reconcile_peer-keeps peer w h)
          λ r _ w₁ h₁. reconcile_peers-keeps peers (ready && r) w₁ h₁
