-- ===== src/Reconcile/Contention.antt =====
-- Two policies that generate one name.
use cilion.Base.{
  ℕ, ◌≡◌, ◌≢◌, ◌∙◌, ap, Bytes, codes, length, length-append, List, ◌∷◌, ◌++◌, append_assoc, some,
  true, false, not, if◌then◌else◌, arith,
}
use cilion.Effect.{
  Error, Result, err, pure, continue, continue-ok, continue-err, map_result, world, answer, ◌>>◌,
}
use cilion.Api.{NamespacedName, ScionPathPolicy, ScionClusterPeer, ScionComputedPath, key_of}
use cilion.Cluster.{Cluster, ScionClient, FetchedPath, View, found_or}
use cilion.Reconcile.{
  computed_path_name, new_computed_path, mutate, publish_path, reconcile_peer, compute_paths,
  finish, reconcile,
}
use cilion.Reconcile.Names.{path_key}
use cilion.Reconcile.Peer.{fetch-step}
use cilion.Reconcile.Outcome.{IsUp, IsLive, reconcile_live}
use cilion.Reconcile.Faults.{reconcile_peers-err}

-- The documented behaviour: `SetControllerReference` refuses an object that another owner controls,
-- and a `CreateOrUpdate` whose callback fails returns its error and writes nothing.
pub record IsRefusing (C : Cluster) (V : View C) : Type 0 where
  pub refuses :
      (p : ScionPathPolicy) (c : ScionComputedPath) (owner : Bytes)
      → c.meta.controller_owner ≡ some owner
      → owner ≢ p.meta.name
      → (e : Error) × (C.set_controller_reference p c ≡ err e)
  pub callback_fails :
      (w : C.World) (obj : ScionComputedPath) (f : ScionComputedPath → Result ScionComputedPath)
      (e : Error)
      → f (found_or obj (V w (key_of obj.meta))) ≡ err e
      → (answer (C.create_or_update obj f w) ≡ err e)
        × ((k : NamespacedName) → V (world (C.create_or_update obj f w)) k ≡ V w k)

longer : (a b : Bytes) (c : ℕ) → a ≢ a ++ (c ∷ b)
longer a b c h = absurd (omega (arith, ap length h, length-append a (c ∷ b)))

module _ (C : Cluster) (client : ScionClient C.World) (V : View C) (R : IsRefusing C V)
    (answers : Bytes → Bytes → FetchedPath) (peer : ScionClusterPeer)
    (peers : List ScionClusterPeer) (U : IsUp C client V answers (peer ∷ peers))
    (policy : ScionPathPolicy) (pref : Bytes) where
  -- The round of a ready path whose key another owner controls.
  peer-refused :
      (w : C.World) (c : ScionComputedPath) (owner : Bytes)
      → policy.spec.preference ≡ some pref
      → (answers peer.spec.remote_as pref).is_ready ≡ true
      → V w (path_key policy peer) ≡ some c
      → c.meta.controller_owner ≡ some owner
      → owner ≢ policy.meta.name
      → (e : Error) × (answer (reconcile_peer C (some client) policy peer w) ≡ err e)
        × ((k : NamespacedName)
            → V (world (reconcile_peer C (some client) policy peer w)) k ≡ V w k)
  unfolding publish_path mutate new_computed_path
  peer-refused w c owner given ready at owned other =
      let told = answers peer.spec.remote_as pref in
      let w₁ = world (client.fetch_path peer.spec.remote_as pref w) in
      let obj = new_computed_path policy peer in
      let f = mutate C (some client) policy peer told in
      let (e, refused) = R.refuses policy c owner owned other in
      let at₁ : V w₁ (path_key policy peer) ≡ some c = U.framed.fetch_frame w _ _ _ ∙ at in
      let failed : f (found_or obj (V w₁ (path_key policy peer))) ≡ err e =
        ap (λ o. f (found_or obj o)) at₁ ∙ ap (map_result _) refused in
      let (answered, same) = R.callback_fails w₁ obj f e failed in
      let run : reconcile_peer C (some client) policy peer w
          ≡ (err e, world (C.create_or_update obj f w₁)) =
        fetch-step C client V U.framed U.accepting answers U.serves policy pref given peer w
        ∙ ap (λ b. (if not b then pure false else (C.create_or_update obj f >> pure true)) w₁) ready
        ∙ continue-err (λ _. pure true) (C.create_or_update obj f w₁) e answered in
      (
        e,
        ap (λ p. answer p) run,
        λ k. ap (λ p. V (world p) k) run ∙ same k ∙ U.framed.fetch_frame w _ _ k,
      )

  -- With a cluster and a control service that are up, where a controller is not replaced: if the
  -- path of a policy `a` to a peer `b-to-c` is stored and has `a` for its controller, then a
  -- reconcile of a live policy `a-to-b` of the same namespace that has its finalizer and a
  -- preference, with a peer `c` first in the list and its path ready, fails, and leaves every
  -- stored path as it was.
  pub reconcile-contends :
      (first middle : Bytes) (c : ScionComputedPath) (req : NamespacedName) (w : C.World)
      → IsLive C req policy pref w
      → policy.meta.name ≡ first ++ (codes "-to-" ++ middle)
      → (answers peer.spec.remote_as pref).is_ready ≡ true
      → V w (record {
        namespace = policy.meta.namespace;
        name = first ++ (codes "-to-" ++ (middle ++ (codes "-to-" ++ peer.meta.name)));
      })
        ≡ some c
      → c.meta.controller_owner ≡ some first
      → (e : Error) × (answer (reconcile C (some client) req w) ≡ err e)
        × ((k : NamespacedName) → V (world (reconcile C (some client) req w)) k ≡ V w k)
  unfolding computed_path_name compute_paths
  reconcile-contends first middle c req w L named ready at owned =
      let w₁ = world (C.get_policy req w) in
      let w₂ = world (C.list_peers w₁) in
      let keyed : path_key policy peer ≡ record {
        namespace = policy.meta.namespace;
        name = first ++ (codes "-to-" ++ (middle ++ (codes "-to-" ++ peer.meta.name)));
      } =
        ap (λ n. record { namespace = policy.meta.namespace; name = n })
          (ap (λ n. n ++ (codes "-to-" ++ peer.meta.name)) named
            ∙ append_assoc first (codes "-to-" ++ middle) (codes "-to-" ++ peer.meta.name)) in
      let still = λ (k : NamespacedName). U.framed.list_frame w₁ k ∙ U.framed.get_frame w req k in
      let (e, failed, same) =
        peer-refused w₂ c first L.given ready (ap (V w₂) keyed ∙ still _ ∙ at) owned
          (λ h. longer first _ _ (h ∙ named)) in
      let run : reconcile C (some client) req w
          ≡ (err e, world (reconcile_peer C (some client) policy peer w₂)) =
        reconcile_live C (some client) req policy w L.found L.live L.kept
        ∙ continue-ok _ (C.list_peers w₁) _ (U.lists w₁)
        ∙ ap (continue (finish C (some client) policy (peer ∷ peers)))
            (reconcile_peers-err C (some client) policy peer peers true w₂ e failed) in
      (e, ap (λ p. answer p) run, λ k. ap (λ p. V (world p) k) run ∙ same k ∙ still k)
