-- ===== src/Tests/Routes.antt =====
-- A builder in memory, and the events of a policy and of a pod.
use mathlib.Core.List.{Memᴰ}
use cilion.Base.{
  ◌≡◌, ◌↔◌, ◌⊎◌, inl, inr, refl, codes, str_eq, List, [], ◌∷◌, ◌++◌, some, Bool, true, false, not,
  ◌&&◌, ◌==◌, if◌then◌else◌,
}
use cilion.Effect.{ok, world}
use cilion.Api.{NamespacedName, key_of, key_eq}
use cilion.Reconcile.{reconcile, done, is_deleted}
use cilion.Watch.{pod, has_ip, Object}
use cilion.Watch.Setup.{
  Event, policy_updated, pod_created, pod_updated, Builder, own_key, own_peer, own_path,
  pod_requests, peer_event_requests, IsRouting, setup_with_manager,
}
use cilion.Watch.Requests.{selected, or_default}
use cilion.Watch.Setup.Routes.{pod_updated_lem, finalizer_unnoticed}
use cilion.Tests.Store.{store-IsStoring}
use cilion.Tests.Reconciles.{policy, fresh_policy, holding, peers, client, cluster}
use cilion.Tests.Watches.{web, all_pods, gold}

abbrev generation_test : Event → Bool
generation_test (policy_updated old p) = not (old.meta.generation == p.meta.generation)
generation_test e = true

abbrev funcs_test : (Object → Object → Bool) → (Object → Bool) → Event → Bool
funcs_test u c (pod_updated old obj) = u old obj
funcs_test u c (pod_created obj) = c obj
funcs_test u c e = true

-- A controller is the requests that it enqueues for each event.
abbrev pub memory_builder : Builder
memory_builder = record {
  B = Event → List NamespacedName;
  Predicate = Event → Bool;
  generation_changed = generation_test;
  funcs = funcs_test;
  passes = λ q e. q e;
  managed_by = λ e. [];
  for_policies = λ q b e. (if q e then own_key e else []) ++ b e;
  for_peers = λ b e. own_peer e ++ b e;
  for_paths = λ b e. own_path e ++ b e;
  watches_pods = λ f q b e. (if q e then pod_requests f e else []) ++ b e;
  watches_peers = λ l b e. peer_event_requests l e ++ b e;
  named = λ n b. b;
  Enqueues = λ b e r. Memᴰ r (b e);
}

append_split {ℓ} : {A : Type ℓ} (r : A) (l m : List A) → Memᴰ r (l ++ m) → Memᴰ r l ⊎ Memᴰ r m
append_split r [] m h = inr h
append_split r (k ∷ l) m (Memᴰ.head e) = inl (Memᴰ.head e)
append_split r (k ∷ l) m (Memᴰ.tail t) = elim (append_split r l m t) [
  | inl h ↦ inl (Memᴰ.tail h)
  | inr h ↦ inr h
]

pub append_join {ℓ} : {A : Type ℓ} (r : A) (l m : List A) → Memᴰ r l ⊎ Memᴰ r m → Memᴰ r (l ++ m)
append_join r [] m (inl h) = elim h [ ]
append_join r [] m (inr h) = h
append_join r (k ∷ l) m (inl (Memᴰ.head e)) = Memᴰ.head e
append_join r (k ∷ l) m (inl (Memᴰ.tail t)) = Memᴰ.tail (append_join r l m (inl t))
append_join r (k ∷ l) m (inr h) = Memᴰ.tail (append_join r l m (inr h))

guarded :
    (r : NamespacedName) (c : Bool) (l m : List NamespacedName)
    → Memᴰ r ((if c then l else []) ++ m) ↔ ((c ≡ true) × Memᴰ r l) ⊎ Memᴰ r m
guarded r true l m = (
  (λ h. elim (append_split r l m h) [ inl a ↦ inl (refl, a) | inr b ↦ inr b ]),
  λ h. append_join r l m (elim h [ inl a ↦ inl a.1 | inr b ↦ inr b ]),
)
guarded r false l m = (inr, λ h. elim h [ inl a ↦ absurd (cc (a.0)) | inr b ↦ b ])

pub routing : IsRouting memory_builder
routing = record {
  none_at_first = λ e r h. elim h [ ];
  for_routes = λ q b e r. guarded r (q e) (own_key e) (b e);
  for_peers_routes = λ b e r. (append_split r (own_peer e) (b e), append_join r (own_peer e) (b e));
  for_paths_routes = λ b e r. (append_split r (own_path e) (b e), append_join r (own_path e) (b e));
  pods_route = λ f q b e r. guarded r (q e) (pod_requests f e) (b e);
  peers_route = λ l b e r. (
    append_split r (peer_event_requests l e) (b e),
    append_join r (peer_event_requests l e) (b e),
  );
  named_routes = λ n b e r. ((λ h. h), λ h. h);
  generation_update = λ old p. refl;
  funcs_update = λ u c old obj. refl;
}

finalizer_unnoticed_example :
    let w₁ = world (cluster.update_policy policy (holding fresh_policy)) in
    (reconcile cluster (some client) (key_of policy.meta) (holding fresh_policy) ≡ (ok done, w₁))
    × (w₁.policies (key_of policy.meta) ≡ some policy)
    × ((r : NamespacedName)
        → ¬ memory_builder.Enqueues
            (setup_with_manager memory_builder all_pods (λ n. ok []) (ok []))
            (policy_updated fresh_policy policy)
            r)
unfolding key_eq str_eq is_deleted
finalizer_unnoticed_example =
    finalizer_unnoticed memory_builder routing all_pods (λ n. ok []) (ok []) cluster (some client)
      (λ w. w.policies) (store-IsStoring peers) (holding fresh_policy) fresh_policy refl refl refl
      refl refl

pod_updated_lem_example :
    memory_builder.Enqueues
      (setup_with_manager memory_builder all_pods (λ n. ok (gold ∷ [])) (ok []))
      (pod_updated (pod (web [])) (pod (web (codes "10.0.0.7"))))
      (key_of gold.meta)
    ↔ (((str_eq [] [] && has_ip (web (codes "10.0.0.7"))) ≡ true)
        × Memᴰ (key_of gold.meta) (
            or_default (selected all_pods (web []) (gold ∷ []))
            ++ or_default (selected all_pods (web (codes "10.0.0.7")) (gold ∷ []))))
pod_updated_lem_example =
    pod_updated_lem memory_builder routing all_pods (λ n. ok (gold ∷ [])) (ok []) (web [])
      (web (codes "10.0.0.7")) (key_of gold.meta)
