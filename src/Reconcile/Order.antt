-- ===== src/Reconcile/Order.antt =====
-- Two policies whose generated names are apart: the order of their reconciles.
use cilion.Base.{
  ◌≡◌, ◌≢◌, refl, sym, ◌∙◌, ap, Bytes, List, [], ◌∷◌, Option, none, some, Bool, false, ◌&&◌,
  if◌then◌else◌, Bool-cases, inl, inr, arith,
}
use cilion.Effect.{ok, ok-injective, world, answer}
use cilion.Api.{
  NamespacedName, ScionPathPolicy, ScionClusterPeer, ScionComputedPathSpec, key_eq, key_eq-eq,
}
use cilion.Cluster.{Cluster, ScionClient, FetchedPath, View}
use cilion.Reconcile.{reconcile}
use cilion.Reconcile.Names.{path_key}
use cilion.Reconcile.Frame.{reconcile_frame}
use cilion.Reconcile.Peer.{path_to, spec_of, MayWrite}
use cilion.Reconcile.Loop.{or_else, planned}
use cilion.Reconcile.Outcome.{IsUp, IsLive, reconcile_refines}
use cilion.Reconcile.Destinations.{planned-none}

-- A plan names paths under keys of its policy only.
planned-key :
    (policy : ScionPathPolicy) (told : ScionClusterPeer → FetchedPath)
    (peers : List ScionClusterPeer) (k : NamespacedName) (s : ScionComputedPathSpec)
    → planned policy told peers k ≡ some s
    → (q : ScionClusterPeer) × (k ≡ path_key policy q)
unfolding planned
planned-key policy told [] k s h = absurd (cc h)
planned-key policy told (q ∷ qs) k s h = elim (Bool-cases (key_eq k (path_key policy q))) [
  | inl same ↦ (q, key_eq-eq k _ same)
  | inr other ↦
      planned-key policy told qs k s
        (sym (earlier (planned policy told qs k) (told q).is_ready _ other) ∙ h)
]
  where
    earlier :
        (o : Option ScionComputedPathSpec) (a b : Bool)
        → b ≡ false
        → or_else o (if a && b then some (path_to policy q (told q)) else none) ≡ o
    earlier (some d) a b h = refl
    earlier none a b h = ground arith

or_else_swap {ℓ} :
    {A : Type ℓ} (a b o : Option A)
    → ((s : A) → a ≡ some s → b ≡ none)
    → or_else b (or_else a o) ≡ or_else a (or_else b o)
or_else_swap none b o h = refl
or_else_swap (some s) b o h = ap (λ c. or_else c (some s)) (h s refl)

-- A policy of a request, with the answers that its reconciles get.
pub record Party (C : Cluster) (V : View C) : Type 0 where
  pub client : ScionClient C.World
  pub answers : Bytes → Bytes → FetchedPath
  pub peers : List ScionClusterPeer
  pub up : IsUp C client V answers peers
  pub req : NamespacedName
  pub policy : ScionPathPolicy
  pub pref : Bytes

module _ (C : Cluster) (V : View C) where
  abbrev pub reconciled : Party C V → C.World → C.World
  reconciled a w = world (reconcile C (some a.client) a.req w)

  abbrev pub IsLiveParty : Party C V → C.World → Type 0
  IsLiveParty a w = IsLive C a.req a.policy a.pref w

  abbrev plan : Party C V → NamespacedName → Option ScionComputedPathSpec
  plan a = planned a.policy (λ p. a.answers p.spec.remote_as a.pref) a.peers

  abbrev pub Apart : Party C V → Party C V → Type 0
  Apart a b = (q r : ScionClusterPeer) → path_key a.policy q ≢ path_key b.policy r

  -- A reconcile of `a` leaves `b` in a position to write.
  other-MayWrite :
      (a b : Party C V) (w : C.World)
      → Apart b a
      → IsLiveParty a w
      → MayWrite C V b.policy w
      → MayWrite C V b.policy (reconciled a w)
  other-MayWrite a b w apart L own q c at =
      own q c (
        sym (reconcile_frame C a.client V a.up.framed a.req (path_key b.policy q) w elsewhere) ∙ at)
    where
      elsewhere :
          (p : ScionPathPolicy)
          → answer (C.get_policy a.req w) ≡ ok p
          → (s : ScionClusterPeer) → path_key b.policy q ≢ path_key p s
      elsewhere p found s e =
          apart q s (e ∙ ap (λ r. path_key r s) (ok-injective p a.policy (sym found ∙ L.found)))

  both :
      (a b : Party C V) (w : C.World)
      → Apart b a
      → IsLiveParty a w
      → IsLiveParty b (reconciled a w)
      → MayWrite C V a.policy w
      → MayWrite C V b.policy w
      → (k : NamespacedName)
      → spec_of (V (reconciled b (reconciled a w)) k)
        ≡ or_else (plan b k) (or_else (plan a k) (spec_of (V w k)))
  both a b w apart La Lb own_a own_b k =
      (reconcile_refines C b.client V b.answers b.peers b.up b.policy b.pref b.req (reconciled a w)
          Lb (other-MayWrite a b w apart La own_b)).1
        k
      ∙ ap (or_else (plan b k)) (
          (reconcile_refines C a.client V a.answers a.peers a.up a.policy a.pref a.req w La own_a).1
            k)

  -- With a cluster and a control service that are up, and two policies whose generated names are
  -- apart, each live before and behind the reconcile of the other, with its finalizer and a
  -- preference, and free to write under each of its names: the reconciles of the two leave the same
  -- specification under every key in either order.
  pub reconcile_commutes :
      (a b : Party C V) (w : C.World)
      → Apart a b
      → IsLiveParty a w
      → IsLiveParty b w
      → IsLiveParty b (reconciled a w)
      → IsLiveParty a (reconciled b w)
      → MayWrite C V a.policy w
      → MayWrite C V b.policy w
      → (k : NamespacedName)
      → spec_of (V (reconciled b (reconciled a w)) k)
        ≡ spec_of (V (reconciled a (reconciled b w)) k)
  reconcile_commutes a b w apart La Lb Lb' La' own_a own_b k =
      both a b w (λ q r e. apart r q (sym e)) La Lb' own_a own_b k
      ∙ or_else_swap (plan a k) (plan b k) (spec_of (V w k)) alone
      ∙ sym (both b a w apart Lb La' own_b own_a k)
    where
      alone : (s : ScionComputedPathSpec) → plan a k ≡ some s → plan b k ≡ none
      alone s h =
          let (q, e) = planned-key a.policy _ a.peers k s h in
          planned-none b.policy _ b.peers k (λ r m ready f. apart q r (sym e ∙ f))
