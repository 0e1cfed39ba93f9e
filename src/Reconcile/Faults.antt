-- ===== src/Reconcile/Faults.antt =====
-- How the loop ends early: at the first error, and at the two pointers that the code follows
-- without a test, the policy's optional preference and the reconciler's SCION client.
use cilion.Base.{
  ◌≡◌, refl, sym, ◌∙◌, ap, Bytes, List, [], ◌∷◌, ◌++◌, Option, none, some, Bool, true, false, ◌&&◌,
}
use cilion.Effect.{
  Error, Result, ok, err, panic, exit, nil_dereference, Fault, Exec, deref, continue, continue-ok,
  continue-err, world, answer, ◌>>=◌,
}
use cilion.Api.{NamespacedName, ScionPathPolicy, ScionClusterPeer}
use cilion.Cluster.{Cluster, ScionClient}
use cilion.Reconcile.{
  cilion_finalizer, is_deleted, publish_path, reconcile_peer, reconcile_peers, compute_paths,
  finish, reconcile,
}
use cilion.Reconcile.Outcome.{reconcile_live}

continue_assoc {ℓ} :
    {W A B D : Type ℓ} (f : A → Exec W B) (g : B → Exec W D) (p : Result A × W)
    → continue g (continue f p) ≡ continue (λ a w. continue g (f a w)) p
continue_assoc f g (ok a, w) = refl
continue_assoc f g (err e, w) = refl
continue_assoc f g (panic p, w) = refl
continue_assoc f g (exit n, w) = refl

module _ (C : Cluster) (scion : Option (ScionClient C.World)) (policy : ScionPathPolicy) where
  reconcile_peers-append :
      (front back : List ScionClusterPeer) (ready : Bool) (w : C.World)
      → reconcile_peers C scion policy (front ++ back) ready w
        ≡ continue
            (reconcile_peers C scion policy back)
            (reconcile_peers C scion policy front ready w)
  unfolding reconcile_peers
  reconcile_peers-append [] back ready w = refl
  reconcile_peers-append (peer ∷ front) back ready w =
      ap (λ f. continue f (reconcile_peer C scion policy peer w))
        (λ i r w₁. reconcile_peers-append front back (ready && r) w₁ i)
      ∙ sym (
          continue_assoc (λ r. reconcile_peers C scion policy front (ready && r))
            (reconcile_peers C scion policy back) (reconcile_peer C scion policy peer w))

  -- A failing list of peers is the first part of a longer one.
  pub reconcile_peers-err :
      (peer : ScionClusterPeer) (back : List ScionClusterPeer) (ready : Bool) (w : C.World)
      (e : Error)
      → answer (reconcile_peer C scion policy peer w) ≡ err e
      → reconcile_peers C scion policy (peer ∷ back) ready w
        ≡ (err e, world (reconcile_peer C scion policy peer w))
  unfolding reconcile_peers
  reconcile_peers-err peer back ready w e h =
      continue-err _ (reconcile_peer C scion policy peer w) e h

  -- The code behind the `Get` of a live policy reaches the loop.
  compute_paths_panics :
      (peer : ScionClusterPeer) (peers : List ScionClusterPeer) (w : C.World) (f : Fault)
      → answer (C.list_peers w) ≡ ok (peer ∷ peers)
      → ((v : C.World) → answer (reconcile_peer C scion policy peer v) ≡ panic f)
      → answer (compute_paths C scion policy w) ≡ panic f
  unfolding compute_paths reconcile_peers
  compute_paths_panics peer peers w f listed faults =
      ap (λ p. answer p) (continue-ok _ (C.list_peers w) _ listed)
      ∙ ap
          (λ r. answer (
            continue (finish C scion policy (peer ∷ peers)) (
              continue (λ ready. reconcile_peers C scion policy peers (true && ready))
                (r, world (reconcile_peer C scion policy peer (world (C.list_peers w)))))))
          (faults (world (C.list_peers w)))

module _ (C : Cluster) (client : ScionClient C.World) (policy : ScionPathPolicy)
    (pref : Bytes) where
  fetch_err :
      (peer : ScionClusterPeer) (w : C.World) (e : Error)
      → policy.spec.preference ≡ some pref
      → answer (client.fetch_path peer.spec.remote_as pref w) ≡ err e
      → reconcile_peer C (some client) policy peer w
        ≡ (err e, world (client.fetch_path peer.spec.remote_as pref w))
  unfolding reconcile_peer
  fetch_err peer w e given h =
      ap
        (λ o.
          continue
            (λ preference.
              client.fetch_path peer.spec.remote_as preference
              >>= publish_path C (some client) policy peer)
            (deref o w))
        given
      ∙ continue-err (publish_path C (some client) policy peer) _ e h

  -- When the peers in front have been served and the control service fails for the next one, the
  -- loop ends there with its error, in the world that the failed call left.
  pub fetch_error_stops :
      (front back : List ScionClusterPeer) (peer : ScionClusterPeer) (ready r : Bool) (w : C.World)
      (e : Error)
      → policy.spec.preference ≡ some pref
      → answer (reconcile_peers C (some client) policy front ready w) ≡ ok r
      → answer (
          client.fetch_path peer.spec.remote_as pref
            (world (reconcile_peers C (some client) policy front ready w)))
        ≡ err e
      → reconcile_peers C (some client) policy (front ++ peer ∷ back) ready w ≡ (
        err e,
        world (
            client.fetch_path peer.spec.remote_as pref
              (world (reconcile_peers C (some client) policy front ready w))),
      )
  fetch_error_stops front back peer ready r w e given served failed =
      let w₁ = world (reconcile_peers C (some client) policy front ready w) in
      let stop = fetch_err peer w₁ e given failed in
      reconcile_peers-append C (some client) policy front (peer ∷ back) ready w
      ∙ continue-ok (reconcile_peers C (some client) policy (peer ∷ back)) _ r served
      ∙ reconcile_peers-err C (some client) policy peer back r w₁ e (ap (λ p. answer p) stop)
      ∙ ap (λ (p : Result Bool × C.World). (err e, world p)) stop

module _ (C : Cluster) (req : NamespacedName) (policy : ScionPathPolicy) (peer : ScionClusterPeer)
    (peers : List ScionClusterPeer) (w : C.World) where
  no_client_peer :
      (v : C.World) → answer (reconcile_peer C none policy peer v) ≡ panic nil_dereference
  unfolding reconcile_peer
  no_client_peer v = refl

  no_preference_peer :
      (scion : Option (ScionClient C.World)) (v : C.World)
      → policy.spec.preference ≡ none
      → answer (reconcile_peer C scion policy peer v) ≡ panic nil_dereference
  unfolding reconcile_peer
  no_preference_peer none v h = refl
  no_preference_peer (some client) v h =
      ap
        (λ o. answer (
          continue
            (λ preference.
              client.fetch_path peer.spec.remote_as preference
              >>= publish_path C (some client) policy peer)
            (deref o v)))
        h

  -- Without a SCION client, a reconcile that reads a live policy with its finalizer and a list with
  -- a peer panics.
  pub no_client_panics :
      answer (C.get_policy req w) ≡ ok policy
      → is_deleted policy ≡ false
      → C.contains_finalizer policy cilion_finalizer ≡ true
      → answer (C.list_peers (world (C.get_policy req w))) ≡ ok (peer ∷ peers)
      → answer (reconcile C none req w) ≡ panic nil_dereference
  no_client_panics found live kept listed =
      ap (λ p. answer p) (reconcile_live C none req policy w found live kept)
      ∙ compute_paths_panics C none policy peer peers _ nil_dereference listed no_client_peer

  -- A reconcile that reads a live policy with its finalizer and without the optional preference,
  -- and a list with a peer, panics, whatever the SCION client.
  pub no_preference_panics :
      (scion : Option (ScionClient C.World))
      → answer (C.get_policy req w) ≡ ok policy
      → is_deleted policy ≡ false
      → C.contains_finalizer policy cilion_finalizer ≡ true
      → answer (C.list_peers (world (C.get_policy req w))) ≡ ok (peer ∷ peers)
      → policy.spec.preference ≡ none
      → answer (reconcile C scion req w) ≡ panic nil_dereference
  no_preference_panics scion found live kept listed unset =
      ap (λ p. answer p) (reconcile_live C scion req policy w found live kept)
      ∙ compute_paths_panics C scion policy peer peers _ nil_dereference listed
          (λ v. no_preference_peer scion v unset)
