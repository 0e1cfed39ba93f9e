-- ===== src/Reconcile/Ownership.antt =====
-- The stored paths of a policy: who controls them, and which ones a reconcile leaves behind.
use mathlib.Core.List.{Memᴰ}
use cilion.Base.{
  ◌≡◌, ◌≢◌, sym, ◌∙◌, ap, subst, Bytes, List, [], ◌∷◌, some, Bool, true, ◌&&◌, Bool-cases, inl, inr,
}
use cilion.Effect.{continue-ok, world}
use cilion.Api.{NamespacedName, ScionPathPolicy, ScionClusterPeer, key_eq, key_eq-eq, key_eq-ne}
use cilion.Cluster.{Cluster, ScionClient, FetchedPath, View, IsFramed, IsAccepting, Serves}
use cilion.Reconcile.{reconcile_peer, reconcile_peers, reconcile}
use cilion.Reconcile.Names.{path_key, computed_path_name-injective}
use cilion.Reconcile.Peer.{spec_of, owner_of, MayWrite, waiting_step, ready_step}
use cilion.Reconcile.Loop.{or_else, peer-Refines}
use cilion.Reconcile.Destinations.{planned-none}
use cilion.Reconcile.Outcome.{
  IsUp, IsLive, reconcile_live, reconcile_refines, compute_paths-looped, finish_lem,
}

module _ (C : Cluster) (client : ScionClient C.World) (V : View C) (F : IsFramed C V client)
    (A : IsAccepting C V) (answers : Bytes → Bytes → FetchedPath) (S : Serves client answers)
    (policy : ScionPathPolicy) (pref : Bytes) (given : policy.spec.preference ≡ some pref) where
  abbrev told : ScionClusterPeer → FetchedPath
  told peer = answers peer.spec.remote_as pref

  -- The policy controls the path that is stored under a key.
  abbrev Controls : NamespacedName → C.World → Type 0
  Controls k w = owner_of (V w k) ≡ some policy.meta.name

  -- One round, and a key that the policy controls.
  peer-Controls :
      (peer : ScionClusterPeer) (k : NamespacedName) (w : C.World)
      → MayWrite C V policy w
      → Controls k w
      → Controls k (world (reconcile_peer C (some client) policy peer w))
  peer-Controls peer k w own h = elim (Bool-cases (told peer).is_ready) [
    | inl ready ↦
        let (_, _, owner, elsewhere, _) =
          ready_step C client V F A answers S policy pref given peer w ready own in
        elim (Bool-cases (key_eq k (path_key policy peer))) [
          | inl same ↦
              ap (λ j. owner_of (V (world (reconcile_peer C (some client) policy peer w)) j))
                (key_eq-eq k _ same)
              ∙ owner
          | inr other ↦ ap owner_of (elsewhere k (key_eq-ne k _ other)) ∙ h
        ]
    | inr waiting ↦
        ap owner_of ((waiting_step C client V F A answers S policy pref given peer w waiting).1 k)
        ∙ h
  ]

  peers-step :
      (peer : ScionClusterPeer) (peers : List ScionClusterPeer) (ready : Bool) (w : C.World)
      → MayWrite C V policy w
      → reconcile_peers C (some client) policy (peer ∷ peers) ready w
        ≡ reconcile_peers C
            (some client)
            policy
            peers
            (ready && (told peer).is_ready)
            (world (reconcile_peer C (some client) policy peer w))
  unfolding reconcile_peers
  peers-step peer peers ready w own =
      continue-ok (λ r. reconcile_peers C (some client) policy peers (ready && r))
        (reconcile_peer C (some client) policy peer w) _
        (peer-Refines C client V F A answers S policy pref given peer w own).0

  peers-Controls :
      (peers : List ScionClusterPeer) (ready : Bool) (k : NamespacedName) (w : C.World)
      → MayWrite C V policy w
      → Controls k w
      → Controls k (world (reconcile_peers C (some client) policy peers ready w))
  unfolding reconcile_peers
  peers-Controls [] ready k w own h = h
  peers-Controls (peer ∷ peers) ready k w own h =
      subst (λ p. Controls k (world p)) (sym (peers-step peer peers ready w own))
        (peers-Controls peers _ k _
          (peer-Refines C client V F A answers S policy pref given peer w own).2
          (peer-Controls peer k w own h))

  -- The loop makes the policy the controller of the path to each peer that is ready.
  pub ready-Controls :
      (peers : List ScionClusterPeer) (ready : Bool) (peer : ScionClusterPeer) (w : C.World)
      → MayWrite C V policy w
      → Memᴰ peer peers
      → (told peer).is_ready ≡ true
      → Controls
          (path_key policy peer)
          (world (reconcile_peers C (some client) policy peers ready w))
  ready-Controls [] ready peer w own m h = elim m [ ]
  ready-Controls (q ∷ peers) ready peer w own (Memᴰ.head e) h =
      let h' : (told q).is_ready ≡ true = sym (ap (λ p. (told p).is_ready) e) ∙ h in
      let (_, _, owner, _, own') =
        ready_step C client V F A answers S policy pref given q w h' own in
      subst (λ p. Controls (path_key policy peer) (world p)) (sym (peers-step q peers ready w own))
        (peers-Controls peers _ (path_key policy peer) _ own' (
          ap
            (λ p.
              owner_of (V (world (reconcile_peer C (some client) policy q w)) (path_key policy p)))
            e
          ∙ owner))
  ready-Controls (q ∷ peers) ready peer w own (Memᴰ.tail m) h =
      subst (λ p. Controls (path_key policy peer) (world p)) (sym (peers-step q peers ready w own))
        (ready-Controls peers _ peer _
          (peer-Refines C client V F A answers S policy pref given q w own).2 m h)

module _ (C : Cluster) (client : ScionClient C.World) (V : View C)
    (answers : Bytes → Bytes → FetchedPath) (peers : List ScionClusterPeer)
    (U : IsUp C client V answers peers) (policy : ScionPathPolicy) (pref : Bytes)
    (req : NamespacedName) (w : C.World) (L : IsLive C req policy pref w)
    (own : MayWrite C V policy w) where
  -- With a cluster and a control service that are up, and a live policy that has its finalizer and
  -- a preference and may write under each of its names: after a reconcile the policy is the
  -- controller of the stored path to each listed peer whose path is ready.
  pub reconcile-Controls :
      (peer : ScionClusterPeer)
      → Memᴰ peer peers
      → (answers peer.spec.remote_as pref).is_ready ≡ true
      → owner_of (V (world (reconcile C (some client) req w)) (path_key policy peer))
        ≡ some policy.meta.name
  reconcile-Controls peer m h =
      let k = path_key policy peer in
      let w₁ = world (C.get_policy req w) in
      let own₁ : MayWrite C V policy w₁ =
        λ q c at. own q c (sym (U.framed.get_frame w req _) ∙ at) in
      let e =
        reconcile_live C (some client) req policy w L.found L.live L.kept
        ∙ compute_paths-looped C client V answers peers U policy pref w₁ L.given own₁ in
      let own₂ : MayWrite C V policy (world (C.list_peers w₁)) =
        λ q c at. own₁ q c (sym (U.framed.list_frame w₁ _) ∙ at) in
      ap (λ p. owner_of (V (world p) k)) e
      ∙ ap owner_of ((finish_lem C client V answers peers U policy pref _ _).1 k)
      ∙ ready-Controls C client V U.framed U.accepting answers U.serves policy pref L.given peers
          true peer _ own₂ m h

  -- With a cluster and a control service that are up, and a live policy that has its finalizer and
  -- a preference and may write under each of its names: a reconcile leaves the specification of the
  -- stored path to a peer as it was, if each listed peer whose path is ready has another name, so
  -- if the peer is not listed any more or its path is not ready.
  pub reconcile_stale :
      (peer : ScionClusterPeer)
      → ((q : ScionClusterPeer)
          → Memᴰ q peers
          → (answers q.spec.remote_as pref).is_ready ≡ true
          → peer.meta.name ≢ q.meta.name)
      → spec_of (V (world (reconcile C (some client) req w)) (path_key policy peer))
        ≡ spec_of (V w (path_key policy peer))
  reconcile_stale peer other =
      (reconcile_refines C client V answers peers U policy pref req w L own).1
        (path_key policy peer)
      ∙ ap (λ o. or_else o (spec_of (V w (path_key policy peer))))
          (planned-none policy (λ p. answers p.spec.remote_as pref) peers (path_key policy peer)
            λ q m ready same.
              other q m ready
                (computed_path_name-injective _ _ _ (ap (λ (j : NamespacedName). j.name) same)))
