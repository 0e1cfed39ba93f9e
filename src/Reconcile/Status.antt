-- ===== src/Reconcile/Status.antt =====
-- What a reconcile makes of the stored policy itself: its status.
use cilion.Base.{
  ◌≡◌, ◌⊎◌, inl, inr, Bool-cases, refl, sym, ◌∙◌, ap, subst, Bytes, codes, str_eq, decimal, length,
  List, [], ◌∷◌, ◌++◌, Option, none, some, Bool, true, false, if◌then◌else◌,
}
use cilion.Effect.{pure, continue-ok, world}
use cilion.Api.{NamespacedName, Condition, ScionPathPolicy, ScionClusterPeer, key_of}
use cilion.Cluster.{Cluster, ScionClient, FetchedPath, View}
use cilion.Reconcile.{active_condition, with_active, finish, reconcile, done}
use cilion.Reconcile.Peer.{MayWrite}
use cilion.Reconcile.Loop.{all_ready}
use cilion.Reconcile.Keeps.{IsKept, reconcile_peers-keeps}
use cilion.Reconcile.Outcome.{IsUp, IsLive, reconcile_live, compute_paths-looped}

-- The documented behaviour of the status subresource: an update of the status of a stored policy
-- stores the status and nothing else.
abbrev pub IsStatusStoring :
    (C : Cluster) → (C.World → NamespacedName → Option ScionPathPolicy) → Type 0
IsStatusStoring C P =
    (w : C.World) (old p : ScionPathPolicy)
    → P w (key_of p.meta) ≡ some old
    → P (world (C.update_policy_status p w)) (key_of p.meta)
      ≡ some (record old { status = p.status })

-- `meta.FindStatusCondition`: the first condition of a kind.
unfoldable pub condition_of : Bytes → List Condition → Option Condition
condition_of kind [] = none
condition_of kind (c ∷ l) = if str_eq kind c.kind then some c else condition_of kind l

-- The documented behaviour of `meta.SetStatusCondition`: the condition of its kind is the new one,
-- and those of the other kinds are as they were.
abbrev pub IsConditions : Cluster → Type 0
IsConditions C =
    (l : List Condition) (c : Condition) (kind : Bytes)
    → condition_of kind (C.set_status_condition l c)
      ≡ (if str_eq kind c.kind then some c else condition_of kind l)

module _ (C : Cluster) (client : ScionClient C.World) (V : View C)
    (P : C.World → NamespacedName → Option ScionPathPolicy) (T : IsStatusStoring C P)
    (answers : Bytes → Bytes → FetchedPath) (peers : List ScionClusterPeer)
    (U : IsUp C client V answers peers) (policy : ScionPathPolicy) (pref : Bytes) where
  abbrev told : ScionClusterPeer → FetchedPath
  told peer = answers peer.spec.remote_as pref

  abbrev Stored : C.World → Type 0
  Stored w = P w (key_of policy.meta) ≡ some policy

  finish_status :
      (ready : Bool) (w : C.World)
      → Stored w
      → P (world (finish C (some client) policy peers ready w)) (key_of policy.meta)
        ≡ some (if ready then with_active C (some client) policy peers else policy)
  unfolding finish with_active
  finish_status false w h = h
  finish_status true w h =
      let p = with_active C (some client) policy peers in
      ap (λ q. P (world q) (key_of policy.meta))
        (continue-ok (λ _. pure done) (C.update_policy_status p w) tt (U.status_accepted w p))
      ∙ T w policy p h

  status_lem :
      (req : NamespacedName) (w : C.World)
      → IsLive C req policy pref w
      → MayWrite C V policy w
      → IsKept C client Stored
      → Stored w
      → P (world (reconcile C (some client) req w)) (key_of policy.meta)
        ≡ some (
            if all_ready policy told peers
            then with_active C (some client) policy peers
            else policy)
  status_lem req w L own N h =
      let w₁ = world (C.get_policy req w) in
      let own₁ : MayWrite C V policy w₁ =
        λ q c at. own q c (sym (U.framed.get_frame w req _) ∙ at) in
      let e =
        reconcile_live C (some client) req policy w L.found L.live L.kept
        ∙ compute_paths-looped C client V answers peers U policy pref w₁ L.given own₁ in
      ap (λ p. P (world p) (key_of policy.meta)) e
      ∙ finish_status (all_ready policy told peers) _ (
          reconcile_peers-keeps C client Stored N policy peers true _
            (N.list_keeps w₁ (N.get_keeps req w h)))

  -- What a full success is to say in the status.
  abbrev active : Condition
  active = record {
    kind = codes "Active";
    status = codes "True";
    reason = codes "PathsComputed";
    message = codes "Computed paths for " ++ (decimal (length peers) ++ codes " destinations");
    observed_generation = policy.meta.generation;
  }

  -- A stored policy with the condition `active`, and else that of the reconcile.
  abbrev pub IsActive : Option ScionPathPolicy → Type 0
  IsActive o =
      (q : ScionPathPolicy) × (o ≡ some q)
      × (q.meta ≡ policy.meta)
      × (q.spec ≡ policy.spec)
      × ((kind : Bytes)
          → condition_of kind q.status.conditions ≡ (
              if str_eq kind (codes "Active")
              then some active
              else condition_of kind policy.status.conditions))

  with_active-IsActive : IsConditions C → IsActive (some (with_active C (some client) policy peers))
  unfolding with_active active_condition
  with_active-IsActive set = (
    with_active C (some client) policy peers,
    refl,
    refl,
    refl,
    λ kind. set policy.status.conditions active kind,
  )

  -- With a cluster and a control service that are up, a status and conditions that are set as
  -- documented, and calls that keep the policy but for updates of it: a reconcile of a stored live
  -- policy that has its finalizer and a preference, and may write under each of its names, sets the
  -- condition `Active` to "True", with the generation and the number of listed peers, if the path
  -- to every listed peer is ready, also if no peer is listed, and keeps the other conditions, the
  -- metadata and the specification. It leaves the stored policy as it was if one path is not ready,
  -- an earlier `Active` condition included.
  pub reconcile_status :
      (req : NamespacedName) (w : C.World)
      → IsConditions C
      → IsLive C req policy pref w
      → MayWrite C V policy w
      → IsKept C client Stored
      → Stored w
      → let o = P (world (reconcile C (some client) req w)) (key_of policy.meta) in
        ((all_ready policy told peers ≡ true) × IsActive o)
        ⊎ ((all_ready policy told peers ≡ false) × (o ≡ some policy))
  reconcile_status req w set L own N h =
      let e = status_lem req w L own N h in
      let p = with_active C (some client) policy peers in
      elim (Bool-cases (all_ready policy told peers)) [
        | inl ready ↦ inl (
          ready,
          subst IsActive (sym (e ∙ ap (λ b. some (if b then p else policy)) ready))
              (with_active-IsActive set),
        )
        | inr waiting ↦ inr (waiting, e ∙ ap (λ b. some (if b then p else policy)) waiting)
      ]
