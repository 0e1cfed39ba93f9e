-- ===== src/Reconcile/Outcome.antt =====
-- `Reconcile` of a live policy with its finalizer: the paths that it leaves, what it answers, and
-- that a repeat changes nothing.
use cilion.Base.{
  ◌≡◌, refl, sym, ◌∙◌, ap, subst, Bytes, List, Option, some, Bool, true, false, if◌then◌else◌,
}
use cilion.Effect.{Result, ok, pure, continue-ok, recover-ok, world, answer}
use cilion.Api.{NamespacedName, ScionPathPolicy, ScionClusterPeer}
use cilion.Cluster.{Cluster, ScionClient, FetchedPath, View, IsFramed, IsAccepting, Serves}
use cilion.Reconcile.{
  cilion_finalizer, reconcile_peers, compute_paths, reconcile_policy, reconcile, is_deleted,
  with_active, finish, done, requeue, CtrlResult,
}
use cilion.Reconcile.Peer.{spec_of, MayWrite}
use cilion.Reconcile.Loop.{or_else, planned, all_ready, reconcile_peers-Refines}

-- The services are up: writes are accepted, the control service answers, the list of peers is
-- `peers` throughout.
pub record IsUp (C : Cluster) (client : ScionClient C.World) (V : View C)
    (answers : Bytes → Bytes → FetchedPath) (peers : List ScionClusterPeer) : Type 0 where
  pub framed : IsFramed C V client
  pub accepting : IsAccepting C V
  pub serves : Serves client answers
  pub lists : (w : C.World) → answer (C.list_peers w) ≡ ok peers
  pub status_accepted :
      (w : C.World) (p : ScionPathPolicy) → answer (C.update_policy_status p w) ≡ ok tt

-- The request names a live policy that carries the finalizer and a preference.
pub record IsLive (C : Cluster) (req : NamespacedName) (policy : ScionPathPolicy) (pref : Bytes)
    (w : C.World) : Type 0 where
  pub found : answer (C.get_policy req w) ≡ ok policy
  pub live : is_deleted policy ≡ false
  pub kept : C.contains_finalizer policy cilion_finalizer ≡ true
  pub given : policy.spec.preference ≡ some pref

module _ (C : Cluster) (scion : Option (ScionClient C.World)) (req : NamespacedName)
    (policy : ScionPathPolicy) where
  reconcile_policy_live :
      (w : C.World)
      → is_deleted policy ≡ false
      → C.contains_finalizer policy cilion_finalizer ≡ true
      → reconcile_policy C scion policy w ≡ compute_paths C scion policy w
  unfolding reconcile_policy
  reconcile_policy_live w live kept = rw (live, kept)

  -- Behind the reads of a live policy the reconcile is `compute_paths`.
  pub reconcile_live :
      (w : C.World)
      → answer (C.get_policy req w) ≡ ok policy
      → is_deleted policy ≡ false
      → C.contains_finalizer policy cilion_finalizer ≡ true
      → reconcile C scion req w ≡ compute_paths C scion policy (world (C.get_policy req w))
  unfolding reconcile
  reconcile_live w found live kept =
      recover-ok _ (reconcile_policy C scion) (C.get_policy req w) policy found
      ∙ reconcile_policy_live _ live kept

module _ (C : Cluster) (client : ScionClient C.World) (V : View C)
    (answers : Bytes → Bytes → FetchedPath) (peers : List ScionClusterPeer)
    (U : IsUp C client V answers peers) (policy : ScionPathPolicy) (pref : Bytes) where
  abbrev told : ScionClusterPeer → FetchedPath
  told peer = answers peer.spec.remote_as pref

  pub finish_lem :
      (ready : Bool) (w : C.World)
      → (answer (finish C (some client) policy peers ready w)
          ≡ ok (if ready then done else requeue))
        × ((k : NamespacedName) → V (world (finish C (some client) policy peers ready w)) k ≡ V w k)
  unfolding finish
  finish_lem false w = (refl, λ k. refl)
  finish_lem true w =
      let e =
        continue-ok (λ _. pure done)
          (C.update_policy_status (with_active C (some client) policy peers) w) tt
          (U.status_accepted w _) in
      (ap (λ p. answer p) e, λ k. ap (λ p. V (world p) k) e ∙ U.framed.status_frame w _ k)

  abbrev pub looped : C.World → Result Bool × C.World
  looped w = reconcile_peers C (some client) policy peers true (world (C.list_peers w))

  listed-MayWrite :
      (w : C.World) → MayWrite C V policy w → MayWrite C V policy (world (C.list_peers w))
  listed-MayWrite w own q c e = own q c (sym (U.framed.list_frame w _) ∙ e)

  loop_lem :
      (w : C.World)
      → policy.spec.preference ≡ some pref
      → MayWrite C V policy w
      → (answer (looped w) ≡ ok (all_ready policy told peers))
        × ((k : NamespacedName)
            → spec_of (V (world (looped w)) k)
              ≡ or_else (planned policy told peers k) (spec_of (V w k)))
        × MayWrite C V policy (world (looped w))
  loop_lem w given own =
      let (fine, specs, own') =
        reconcile_peers-Refines C client V U.framed U.accepting answers U.serves policy pref given
          peers true (world (C.list_peers w)) (listed-MayWrite w own) in
      (
        fine,
        λ k.
            specs k
            ∙ ap (λ o. or_else (planned policy told peers k) (spec_of o)) (U.framed.list_frame w k),
        own',
      )

  pub compute_paths-looped :
      (w : C.World)
      → policy.spec.preference ≡ some pref
      → MayWrite C V policy w
      → compute_paths C (some client) policy w
        ≡ finish C (some client) policy peers (all_ready policy told peers) (world (looped w))
  unfolding compute_paths
  compute_paths-looped w given own =
      continue-ok _ (C.list_peers w) peers (U.lists w)
      ∙ continue-ok _ (looped w) _ (loop_lem w given own).0

  abbrev Settles : C.World → Result CtrlResult × C.World → Type 0
  Settles w p =
      (answer p ≡ ok (if all_ready policy told peers then done else requeue))
      × ((k : NamespacedName)
          → spec_of (V (world p) k) ≡ or_else (planned policy told peers k) (spec_of (V w k)))

  compute_paths-Settles :
      (w : C.World)
      → policy.spec.preference ≡ some pref
      → MayWrite C V policy w
      → Settles w (compute_paths C (some client) policy w)
  compute_paths-Settles w given own =
      let (fine, same) = finish_lem (all_ready policy told peers) (world (looped w)) in
      let e = compute_paths-looped w given own in
      (
        ap (λ p. answer p) e ∙ fine,
        λ k. ap (λ p. spec_of (V (world p) k)) e ∙ ap spec_of (same k) ∙ (loop_lem w given own).1 k,
      )

  -- With a cluster and a control service that are up, a reconcile of a live policy that has its
  -- finalizer and a preference, and may write under each of its names, returns without an error,
  -- and leaves under each key the path that `planned` names, or what was there. It asks for a
  -- requeue exactly when the path to some listed peer is not ready.
  pub reconcile_refines :
      (req : NamespacedName) (w : C.World)
      → IsLive C req policy pref w
      → MayWrite C V policy w
      → Settles w (reconcile C (some client) req w)
  reconcile_refines req w L own =
      let e = reconcile_live C (some client) req policy w L.found L.live L.kept in
      let w₁ = world (C.get_policy req w) in
      let (fine, specs) =
        compute_paths-Settles w₁ L.given
          (λ q c at. own q c (sym (U.framed.get_frame w req _) ∙ at)) in
      (
        ap (λ p. answer p) e ∙ fine,
        λ k.
            ap (λ p. spec_of (V (world p) k)) e
            ∙ specs k
            ∙ ap (λ o. or_else (planned policy told peers k) (spec_of o))
                (U.framed.get_frame w req k),
      )

  finish-MayWrite :
      (ready : Bool) (w : C.World)
      → MayWrite C V policy w
      → MayWrite C V policy (world (finish C (some client) policy peers ready w))
  finish-MayWrite ready w own q c at = own q c (sym ((finish_lem ready w).1 _) ∙ at)

  -- A reconcile leaves the policy in a position to write again.
  pub reconcile-MayWrite :
      (req : NamespacedName) (w : C.World)
      → IsLive C req policy pref w
      → MayWrite C V policy w
      → MayWrite C V policy (world (reconcile C (some client) req w))
  reconcile-MayWrite req w L own =
      let own₁ : MayWrite C V policy (world (C.get_policy req w)) =
        λ q c at. own q c (sym (U.framed.get_frame w req _) ∙ at) in
      let e =
        reconcile_live C (some client) req policy w L.found L.live L.kept
        ∙ compute_paths-looped _ L.given own₁ in
      subst (λ p. MayWrite C V policy (world p)) (sym e)
        (finish-MayWrite _ _ (loop_lem _ L.given own₁).2)
