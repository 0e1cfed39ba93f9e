-- ===== src/Reconcile/Peer.antt =====
-- One round of the loop over the peers, with an API server that accepts writes and a control
-- service that answers.
use cilion.Base.{
  ◌≡◌, ◌≢◌, refl, sym, ◌∙◌, ap, Bytes, Option, none, some, true, false, not, inl, inr,
  if◌then◌else◌, Bool-cases,
}
use cilion.Effect.{
  Result, ok, pure, deref, continue, continue-ok, world, answer, ◌>>=◌, ◌>>◌, map_result,
}
use cilion.Api.{
  NamespacedName, ScionPathPolicy, ScionClusterPeer, ScionComputedPath, ScionComputedPathSpec,
  key_of, key_eq, key_eq-eq, key_eq-ne,
}
use cilion.Cluster.{
  Cluster, ScionClient, FetchedPath, View, IsFramed, IsAccepting, CanOwn, Serves, found_or,
}
use cilion.Reconcile.{new_computed_path, path_spec, mutate, publish_path, reconcile_peer}
use cilion.Reconcile.Names.{path_key}

-- The specification of a stored path, and its controller.
abbrev pub spec_of : Option ScionComputedPath → Option ScionComputedPathSpec
spec_of none = none
spec_of (some c) = some c.spec

abbrev pub owner_of : Option ScionComputedPath → Option Bytes
owner_of none = none
owner_of (some c) = c.meta.controller_owner

-- The path that a policy is to have to a peer: to the peer's pods, with the next hop and the hop
-- fields of the answer of the control service.
abbrev pub path_to : ScionPathPolicy → ScionClusterPeer → FetchedPath → ScionComputedPathSpec
path_to policy peer fetched = record {
  policy_ref = policy.meta.name;
  destination_cidr = peer.spec.pod_cidr;
  next_hop_ip = fetched.next_hop_ip;
  hop_fields = fetched.raw_hop_fields;
}

-- Each name that the policy can generate is free, or its path has no other controller.
abbrev pub MayWrite : (C : Cluster) → View C → ScionPathPolicy → C.World → Type 0
MayWrite C V policy w =
    (peer : ScionClusterPeer) (c : ScionComputedPath)
    → V w (path_key policy peer) ≡ some c
    → CanOwn policy c

module _ (C : Cluster) (client : ScionClient C.World) (V : View C) (F : IsFramed C V client)
    (A : IsAccepting C V) (answers : Bytes → Bytes → FetchedPath) (S : Serves client answers)
    (policy : ScionPathPolicy) (pref : Bytes) (given : policy.spec.preference ≡ some pref) where
  abbrev Owned : C.World → Type 0
  Owned = MayWrite C V policy

  -- The world behind the answer of the control service.
  abbrev fetched : ScionClusterPeer → C.World → C.World
  fetched peer w = world (client.fetch_path peer.spec.remote_as pref w)

  abbrev told : ScionClusterPeer → FetchedPath
  told peer = answers peer.spec.remote_as pref

  abbrev written : ScionClusterPeer → C.World → Result (Unit {0}) × C.World
  written peer w =
      C.create_or_update (new_computed_path policy peer)
        (mutate C (some client) policy peer (told peer)) w

  -- Behind the answer of the control service the round is `publish_path`.
  pub fetch-step :
      (peer : ScionClusterPeer) (w : C.World)
      → reconcile_peer C (some client) policy peer w
        ≡ publish_path C (some client) policy peer (told peer) (fetched peer w)
  unfolding reconcile_peer
  fetch-step peer w =
      ap
        (λ o.
          continue
            (λ preference.
              client.fetch_path peer.spec.remote_as preference
              >>= publish_path C (some client) policy peer)
            (deref o w))
        given
      ∙ continue-ok (publish_path C (some client) policy peer) _ _ (S w peer.spec.remote_as pref)

  -- The callback succeeds on what is stored at the key.
  mutated :
      (peer : ScionClusterPeer) (c : ScionComputedPath)
      → CanOwn policy c
      → (d : ScionComputedPath) × (mutate C (some client) policy peer (told peer) c ≡ ok d)
        × (key_of d.meta ≡ key_of c.meta)
        × (d.meta.controller_owner ≡ some policy.meta.name)
        × (d.spec ≡ path_to policy peer (told peer))
  unfolding mutate path_spec
  mutated peer c can =
      let (d, e, same, owner) = A.references policy c can in
      (record d { spec = path_to policy peer (told peer) }, ap (map_result _) e, same, owner, refl)

  base-CanOwn :
      (peer : ScionClusterPeer) (w : C.World)
      → Owned w
      → (o : Option ScionComputedPath) → V w (path_key policy peer) ≡ o
      → CanOwn policy (found_or (new_computed_path policy peer) o)
        × (key_of (found_or (new_computed_path policy peer) o).meta ≡ path_key policy peer)
  unfolding new_computed_path
  base-CanOwn peer w own none e = (inl refl, refl)
  base-CanOwn peer w own (some c) e = (own peer c e, A.stored_key w _ c e)

  -- A write at the key of a peer stores the path that the policy, the peer and the answer make.
  write-step :
      (peer : ScionClusterPeer) (w : C.World)
      → Owned w
      → (d : ScionComputedPath) × (answer (written peer w) ≡ ok tt)
        × (V (world (written peer w)) (path_key policy peer) ≡ some d)
        × (d.meta.controller_owner ≡ some policy.meta.name)
        × (d.spec ≡ path_to policy peer (told peer))
  unfolding new_computed_path
  write-step peer w own =
      let (can, keyed) = base-CanOwn peer w own (V w (path_key policy peer)) refl in
      let (d, e, same, owner, spec) = mutated peer _ can in
      let (fine, stored) = A.stores w (new_computed_path policy peer) _ d e (same ∙ keyed) in
      (d, fine, stored, owner, spec)

  fetched-Owned : (peer : ScionClusterPeer) (w : C.World) → Owned w → Owned (fetched peer w)
  fetched-Owned peer w own q c e = own q c (sym (F.fetch_frame w _ _ _) ∙ e)

  -- A path that is not ready leaves every stored path as it was.
  pub waiting_step :
      (peer : ScionClusterPeer) (w : C.World)
      → (told peer).is_ready ≡ false
      → (answer (reconcile_peer C (some client) policy peer w) ≡ ok false)
        × ((k : NamespacedName)
            → V (world (reconcile_peer C (some client) policy peer w)) k ≡ V w k)
  unfolding publish_path
  waiting_step peer w h =
      let e : reconcile_peer C (some client) policy peer w ≡ (ok false, fetched peer w) =
        fetch-step peer w ∙ rw (h, publish_path) in
      (ap (λ p. answer p) e, λ k. ap (λ p. V (world p) k) e ∙ F.fetch_frame w _ _ k)

  publish_ready :
      (peer : ScionClusterPeer) (w : C.World)
      → (told peer).is_ready ≡ true
      → answer (written peer w) ≡ ok tt
      → publish_path C (some client) policy peer (told peer) w ≡ (ok true, world (written peer w))
  unfolding publish_path
  publish_ready peer w h fine =
      ap
        (λ ready.
          (if not ready
              then pure false
              else (C.create_or_update (new_computed_path policy peer)
                    (mutate C (some client) policy peer (told peer))
                  >> pure true))
            w)
        h
      ∙ continue-ok (λ _. pure true) (written peer w) tt fine

  -- What is stored at the key now belongs to the policy, and all else is as it was.
  written-Owned :
      (peer : ScionClusterPeer) (w v : C.World) (d : ScionComputedPath)
      → Owned w
      → V v (path_key policy peer) ≡ some d
      → d.meta.controller_owner ≡ some policy.meta.name
      → ((k : NamespacedName) → k ≢ path_key policy peer → V v k ≡ V w k)
      → Owned v
  written-Owned peer w v d own stored owner elsewhere q c at =
      elim (Bool-cases (key_eq (path_key policy q) (path_key policy peer))) [
        | inl same ↦ inr (
            ap owner_of (sym at)
            ∙ ap (λ k. owner_of (V v k)) (key_eq-eq _ _ same)
            ∙ ap owner_of stored
            ∙ owner)
        | inr other ↦ own q c (sym (elsewhere _ (key_eq-ne _ _ other)) ∙ at)
      ]

  -- A path that is ready is stored under its key, and under no other.
  pub ready_step :
      (peer : ScionClusterPeer) (w : C.World)
      → (told peer).is_ready ≡ true
      → Owned w
      → (answer (reconcile_peer C (some client) policy peer w) ≡ ok true)
        × (spec_of (V (world (reconcile_peer C (some client) policy peer w)) (path_key policy peer))
            ≡ some (path_to policy peer (told peer)))
        × (owner_of
              (V (world (reconcile_peer C (some client) policy peer w)) (path_key policy peer))
            ≡ some policy.meta.name)
        × ((k : NamespacedName)
            → k ≢ path_key policy peer
            → V (world (reconcile_peer C (some client) policy peer w)) k ≡ V w k)
        × Owned (world (reconcile_peer C (some client) policy peer w))
  unfolding new_computed_path
  ready_step peer w h own =
      let w₁ = fetched peer w in
      let (d, fine, stored, owner, spec) = write-step peer w₁ (fetched-Owned peer w own) in
      let e : reconcile_peer C (some client) policy peer w ≡ (ok true, world (written peer w₁)) =
        fetch-step peer w ∙ publish_ready peer w₁ h fine in
      let elsewhere : (k : NamespacedName)
          → k ≢ path_key policy peer
          → V (world (written peer w₁)) k ≡ V w k =
        λ k ne. F.create_frame w₁ _ _ k ne ∙ F.fetch_frame w _ _ k in
      (
        ap (λ p. answer p) e,
        ap (λ p. spec_of (V (world p) (path_key policy peer))) e ∙ ap spec_of stored ∙ ap some spec,
        ap (λ p. owner_of (V (world p) (path_key policy peer))) e ∙ ap owner_of stored ∙ owner,
        λ k ne. ap (λ p. V (world p) k) e ∙ elsewhere k ne,
        written-Owned peer w _ d own (ap (λ p. V (world p) (path_key policy peer)) e ∙ stored) owner
            (λ k ne. ap (λ p. V (world p) k) e ∙ elsewhere k ne),
      )
