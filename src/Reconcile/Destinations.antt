-- ===== src/Reconcile/Destinations.antt =====
-- What a reconcile means for each destination, and for a repeat of it.
use mathlib.Core.List.{Memᴰ}
use cilion.Base.{
  ◌≡◌, ◌≢◌, refl, sym, ◌∙◌, ap, Bytes, List, [], ◌∷◌, none, some, Bool, true, false, ◌&&◌,
  if◌then◌else◌, Bool-cases, arith, inl, inr, subst,
}
use cilion.Effect.{world}
use cilion.Api.{NamespacedName, ScionPathPolicy, ScionClusterPeer, key_eq, key_eq-eq, key_eq_refl}
use cilion.Cluster.{Cluster, ScionClient, FetchedPath, View}
use cilion.Reconcile.{reconcile}
use cilion.Reconcile.Names.{path_key, computed_path_name-injective}
use cilion.Reconcile.Peer.{path_to, spec_of, MayWrite}
use cilion.Reconcile.Loop.{or_else, or_else_idem, wanted, planned}
use cilion.Reconcile.Outcome.{IsUp, IsLive, reconcile_refines, reconcile-MayWrite}

-- No two peers of the list have the same name.
abbrev pub DistinctNames : List ScionClusterPeer → Type 0
DistinctNames [] = Unit
DistinctNames (p ∷ ps) =
    ((q : ScionClusterPeer) → Memᴰ q ps → p.meta.name ≢ q.meta.name) × DistinctNames ps

neither {ℓ} :
    {A : Type ℓ} (a b : Bool) (x : A)
    → (a ≡ true → b ≡ false)
    → (if a && b then some x else none) ≡ none
neither true b x h = rw (h refl)
neither false b x h = refl

module _ (policy : ScionPathPolicy) (told : ScionClusterPeer → FetchedPath) where
  wanted-none :
      (q : ScionClusterPeer) (k : NamespacedName)
      → ((told q).is_ready ≡ true → k ≢ path_key policy q)
      → wanted policy told q k ≡ none
  wanted-none q k h = neither _ _ _ λ ready. elim (Bool-cases (key_eq k (path_key policy q))) [
    | inl same ↦ absurd (h ready (key_eq-eq _ _ same))
    | inr other ↦ other
  ]

  -- A key that belongs to no listed peer whose path is ready.
  pub planned-none :
      (peers : List ScionClusterPeer) (k : NamespacedName)
      → ((q : ScionClusterPeer) → Memᴰ q peers → (told q).is_ready ≡ true → k ≢ path_key policy q)
      → planned policy told peers k ≡ none
  unfolding planned
  planned-none [] k h = refl
  planned-none (q ∷ qs) k h =
      ap (λ o. or_else o (wanted policy told q k)) (planned-none qs k (λ r m. h r (Memᴰ.tail m)))
      ∙ wanted-none q k (h q (Memᴰ.head refl))

  wanted_self :
      (q : ScionClusterPeer)
      → (told q).is_ready ≡ true
      → wanted policy told q (path_key policy q) ≡ some (path_to policy q (told q))
  wanted_self q h = choose _ _ h (key_eq_refl (path_key policy q))
    where
      choose :
          (a b : Bool)
          → a ≡ true
          → b ≡ true
          → (if a && b then some (path_to policy q (told q)) else none)
            ≡ some (path_to policy q (told q))
      choose a b ha hb = ground arith

  planned_ready :
      (peers : List ScionClusterPeer) (peer : ScionClusterPeer)
      → Memᴰ peer peers
      → DistinctNames peers
      → (told peer).is_ready ≡ true
      → planned policy told peers (path_key policy peer) ≡ some (path_to policy peer (told peer))
  unfolding planned
  planned_ready [] peer m distinct h = elim m [ ]
  planned_ready (q ∷ qs) peer (Memᴰ.head e) (fresh, distinct) h =
      ap (λ o. or_else o (wanted policy told q (path_key policy peer)))
        (planned-none qs (path_key policy peer) (λ r m ready same. fresh r m (
          ap (λ (p : ScionClusterPeer). p.meta.name) (sym e)
          ∙ computed_path_name-injective _ _ _ (ap (λ (j : NamespacedName). j.name) same))))
      ∙ subst (λ p. wanted policy told q (path_key policy p) ≡ some (path_to policy p (told p)))
          (sym e) (wanted_self q (subst (λ p. (told p).is_ready ≡ true) e h))
  planned_ready (q ∷ qs) peer (Memᴰ.tail m) (fresh, distinct) h =
      ap (λ o. or_else o (wanted policy told q (path_key policy peer)))
        (planned_ready qs peer m distinct h)

module _ (C : Cluster) (client : ScionClient C.World) (V : View C)
    (answers : Bytes → Bytes → FetchedPath) (peers : List ScionClusterPeer)
    (U : IsUp C client V answers peers) (policy : ScionPathPolicy) (pref : Bytes)
    (req : NamespacedName) (w : C.World) (L : IsLive C req policy pref w)
    (own : MayWrite C V policy w) where
  -- With a cluster and a control service that are up, a live policy that has its finalizer and a
  -- preference and may write under each of its names, and listed peers of distinct names, each
  -- listed peer whose path is ready has, after a reconcile, a stored path that names the policy,
  -- has the pod CIDR of the peer for its destination, and the next hop and the hop fields of the
  -- answer of the control service.
  pub destination_stored :
      (peer : ScionClusterPeer)
      → Memᴰ peer peers
      → DistinctNames peers
      → (answers peer.spec.remote_as pref).is_ready ≡ true
      → spec_of (V (world (reconcile C (some client) req w)) (path_key policy peer))
        ≡ some (record {
          policy_ref = policy.meta.name;
          destination_cidr = peer.spec.pod_cidr;
          next_hop_ip = (answers peer.spec.remote_as pref).next_hop_ip;
          hop_fields = (answers peer.spec.remote_as pref).raw_hop_fields;
        })
  destination_stored peer m distinct h =
      (reconcile_refines C client V answers peers U policy pref req w L own).1
        (path_key policy peer)
      ∙ ap (λ o. or_else o (spec_of (V w (path_key policy peer))))
          (planned_ready policy (λ p. answers p.spec.remote_as pref) peers peer m distinct h)

  -- With a cluster and a control service that are up, and a policy that is live before and behind a
  -- first reconcile, has its finalizer and a preference and may write under each of its names, a
  -- second reconcile leaves the specification of every stored path as the first left it.
  pub reconcile_twice :
      (k : NamespacedName)
      → IsLive C req policy pref (world (reconcile C (some client) req w))
      → spec_of
          (V (world (reconcile C (some client) req (world (reconcile C (some client) req w)))) k)
        ≡ spec_of (V (world (reconcile C (some client) req w)) k)
  reconcile_twice k L' =
      let told = λ (p : ScionClusterPeer). answers p.spec.remote_as pref in
      let plan = planned policy told peers k in
      let w₁ = world (reconcile C (some client) req w) in
      let once = (reconcile_refines C client V answers peers U policy pref req w L own).1 k in
      let own₁ = reconcile-MayWrite C client V answers peers U policy pref req w L own in
      (reconcile_refines C client V answers peers U policy pref req w₁ L' own₁).1 k
      ∙ ap (or_else plan) once
      ∙ or_else_idem plan (spec_of (V w k))
      ∙ sym once
