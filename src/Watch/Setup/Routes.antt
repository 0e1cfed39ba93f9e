-- ===== src/Watch/Setup/Routes.antt =====
-- The events that wake the policy reconciler, and one that does not.
use mathlib.Core.List.{Memᴰ}
use cilion.Base.{
  Option, some, ◌≡◌, ◌⊎◌, inl, inr, ◌↔◌, sym, subst, str_eq, ◌&&◌, ◌∙◌, Bytes, List, [], ◌++◌, true,
  false, not, ◌==◌, arith,
}
use cilion.Effect.{Result, ok, world, answer}
use cilion.Api.{NamespacedName, ScionPathPolicy, ScionComputedPath, key_of}
use cilion.Cluster.{Cluster, ScionClient}
use cilion.Reconcile.{cilion_finalizer, is_deleted, reconcile, done}
use cilion.Reconcile.Lifecycle.{IsStoring, finalizer_first}
use cilion.Watch.{
  Pod, pod, has_ip, Selectors, items, update_func, create_func, pod_to_policy, peer_to_policies,
}
use cilion.Watch.Requests.{selected, or_default, pod_to_policy_lem}
use cilion.Watch.Setup.{
  Builder, Event, policy_updated, pod_updated, path_changed, own_key, pod_requests,
  peer_event_requests, IsRouting, setup_with_manager,
}

module _ (R : Builder) (T : IsRouting R) (S : Selectors)
    (list : Bytes → Result (List ScionPathPolicy)) (all : Result (List ScionPathPolicy)) where
  abbrev Wakes : Event → NamespacedName → Type 0
  Wakes e r = R.Enqueues (setup_with_manager R S list all) e r

  -- The watch that a request came from.
  abbrev Routed : Event → NamespacedName → Type 0
  Routed e r =
      Memᴰ r (peer_event_requests (peer_to_policies all) e)
      ⊎ (((R.passes (R.funcs update_func create_func) e ≡ true)
            × Memᴰ r (pod_requests (pod_to_policy S list) e))
          ⊎ ((R.passes R.generation_changed e ≡ true) × Memᴰ r (own_key e)))

  Wakes-Routed : (e : Event) (r : NamespacedName) → Wakes e r → Routed e r
  unfolding setup_with_manager
  Wakes-Routed e r wakes = elim ((T.peers_route _ _ _ r).0 ((T.named_routes _ _ _ r).0 wakes)) [
    | inl m ↦ inl m
    | inr b ↦ elim ((T.pods_route _ _ _ _ r).0 b) [
      | inl m ↦ inr (inl m)
      | inr c ↦ elim ((T.for_routes _ _ _ r).0 c) [
        | inl m ↦ inr (inr m)
        | inr d ↦ absurd (T.none_at_first _ r d)
      ]
    ]
  ]

  -- An event of a computed path wakes nobody.
  pub path_unwatched : (c : ScionComputedPath) (r : NamespacedName) → ¬ Wakes (path_changed c) r
  path_unwatched c r wakes = elim (Wakes-Routed (path_changed c) r wakes) [
    | inl m ↦ elim m [ ]
    | inr o ↦ elim o [ inl m ↦ elim m.1 [ ] | inr m ↦ elim m.1 [ ] ]
  ]

  -- An update of a policy that keeps its generation wakes nobody.
  pub same_generation :
      (old p : ScionPathPolicy) (r : NamespacedName)
      → old.meta.generation ≡ p.meta.generation
      → Wakes (policy_updated old p) r
      → ⊥
  same_generation old p r same wakes = elim (Wakes-Routed (policy_updated old p) r wakes) [
    | inl m ↦ elim m [ ]
    | inr o ↦ elim o [
      | inl m ↦ elim m.1 [ ]
      | inr m ↦ unchanged (sym (T.generation_update old p) ∙ m.0)
    ]
  ]
    where
      unchanged : not (old.meta.generation == p.meta.generation) ≡ true → ⊥
      unchanged h = ground arith

  -- What the pods of an update ask for.
  abbrev asked : Pod → Pod → List NamespacedName
  asked old obj =
      or_default (selected S old (items (list old.namespace)))
      ++ or_default (selected S obj (items (list obj.namespace)))

  pod_requests_lem :
      (old obj : Pod)
      → pod_to_policy S list (pod old) ++ pod_to_policy S list (pod obj) ≡ asked old obj
  pod_requests_lem old obj = rw (pod_to_policy_lem S old list, pod_to_policy_lem S obj list)

  -- With a runtime that routes events as documented: an update of a pod enqueues a request exactly
  -- if the pod had no address and has one now, and the request is for a listed policy of its
  -- namespace that selects it, as it was or as it is, or for the default policy where there is
  -- none.
  pub pod_updated_lem :
      (old obj : Pod) (r : NamespacedName)
      → Wakes (pod_updated (pod old) (pod obj)) r
        ↔ (((str_eq old.pod_ip [] && has_ip obj) ≡ true) × Memᴰ r (asked old obj))
  unfolding setup_with_manager update_func
  pod_updated_lem old obj r = (
    (λ wakes. elim (Wakes-Routed (pod_updated (pod old) (pod obj)) r wakes) [
      | inl m ↦ elim m [ ]
      | inr o ↦ elim o [
        | inl m ↦ (
          sym (T.funcs_update update_func create_func (pod old) (pod obj)) ∙ m.0,
          subst (λ l. Memᴰ r l) (pod_requests_lem old obj) m.1,
        )
        | inr m ↦ elim m.1 [ ]
      ]
    ]),
    λ h. (T.named_routes _ _ _ r).1 (
        (T.peers_route _ _ _ r).1 (
          inr (
            (T.pods_route _ _ _ _ r).1 (
              inl (
                T.funcs_update update_func create_func (pod old) (pod obj) ∙ h.0,
                subst (λ l. Memᴰ r l) (sym (pod_requests_lem old obj)) h.1,
              ))))),
  )

  -- With a runtime that routes events and an API server that stores policies as documented, and a
  -- finalizer whose addition keeps the generation and is accepted: the first reconcile of a live policy without the
  -- finalizer stores the policy with it and asks for no requeue, and the event of that update
  -- enqueues no request.
  pub finalizer_unnoticed :
      (C : Cluster) (scion : Option (ScionClient C.World))
      (P : C.World → NamespacedName → Option ScionPathPolicy)
      → IsStoring C P
      → (w : C.World) (p : ScionPathPolicy) → P w (key_of p.meta) ≡ some p
      → is_deleted p ≡ false
      → C.contains_finalizer p cilion_finalizer ≡ false
      → (C.add_finalizer p cilion_finalizer).meta.generation ≡ p.meta.generation
      → answer (C.update_policy (C.add_finalizer p cilion_finalizer) w) ≡ ok tt
      → let p₁ = C.add_finalizer p cilion_finalizer in
        let w₁ = world (C.update_policy p₁ w) in
        (reconcile C scion (key_of p.meta) w ≡ (ok done, w₁))
        × (P w₁ (key_of p.meta) ≡ some p₁)
        × ((r : NamespacedName) → ¬ Wakes (policy_updated p p₁) r)
  finalizer_unnoticed C scion P storing w p stored live bare same fine =
      let (run, kept, _) = finalizer_first C scion P storing w p stored live bare fine in
      (run, kept, λ r. same_generation p (C.add_finalizer p cilion_finalizer) r (sym same))
