-- ===== src/Watch/Setup/Owned.antt =====
-- The events that wake the reconcilers of the peers and of the computed paths.
use mathlib.Core.List.{Memᴰ}
use cilion.Base.{◌↔◌, inl, inr}
use cilion.Api.{NamespacedName}
use cilion.Watch.Setup.{
  Builder, Event, own_peer, own_path, IsRouting, setup_cluster_peer, setup_computed_path,
}

module _ (R : Builder) (T : IsRouting R) where
  -- The reconciler of the peers is woken for the peer of an event, and for nothing else.
  pub cluster_peer_wakes :
      (e : Event) (r : NamespacedName) → R.Enqueues (setup_cluster_peer R) e r ↔ Memᴰ r (own_peer e)
  unfolding setup_cluster_peer
  cluster_peer_wakes e r = (
    (λ w. elim ((T.for_peers_routes _ e r).0 ((T.named_routes _ _ e r).0 w)) [
      | inl m ↦ m
      | inr n ↦ absurd (T.none_at_first e r n)
    ]),
    λ m. (T.named_routes _ _ e r).1 ((T.for_peers_routes _ e r).1 (inl m)),
  )

  -- The reconciler of the computed paths is woken for the path of an event, and for nothing else.
  pub computed_path_wakes :
      (e : Event) (r : NamespacedName)
      → R.Enqueues (setup_computed_path R) e r ↔ Memᴰ r (own_path e)
  unfolding setup_computed_path
  computed_path_wakes e r = (
    (λ w. elim ((T.for_paths_routes _ e r).0 ((T.named_routes _ _ e r).0 w)) [
      | inl m ↦ m
      | inr n ↦ absurd (T.none_at_first e r n)
    ]),
    λ m. (T.named_routes _ _ e r).1 ((T.for_paths_routes _ e r).1 (inl m)),
  )
