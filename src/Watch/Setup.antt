-- ===== src/Watch/Setup.antt =====
-- What the methods `SetupWithManager` of internal/controller hand to the builder of
-- controller-runtime, and which events reach the reconcilers.
pub mod Routes
pub mod Owned
use mathlib.Core.List.{Memᴰ}
use cilion.Base.{ℕ, ◌≡◌, ◌↔◌, ◌⊎◌, Bytes, codes, List, [], ◌∷◌, ◌++◌, Bool, true, false, not, ◌==◌}
use cilion.Effect.{Result}
use cilion.Api.{NamespacedName, ScionPathPolicy, ScionClusterPeer, ScionComputedPath, key_of}
use cilion.Watch.{Object, Selectors, update_func, create_func, pod_to_policy, peer_to_policies}

-- The events of the watches; a peer or a computed path is created, updated or deleted alike.
pub data Event : Type 0 where
  policy_created policy_deleted : ScionPathPolicy → Event
  policy_updated : ScionPathPolicy → ScionPathPolicy → Event
  pod_created pod_deleted : Object → Event
  pod_updated : Object → Object → Event
  peer_changed : ScionClusterPeer → Event
  path_changed : ScionComputedPath → Event

-- The calls of the builder (`ctrl.NewControllerManagedBy`, `For`, `Watches`, `Named`) and of its
-- predicates, with the requests that a finished controller enqueues for an event.
pub record Builder : Type 1 where
  pub B : Type 0
  pub Predicate : Type 0
  pub generation_changed : Predicate
  pub funcs : (Object → Object → Bool) → (Object → Bool) → Predicate
  pub passes : Predicate → Event → Bool
  pub managed_by : B
  pub for_policies : Predicate → B → B
  pub for_peers : B → B
  pub for_paths : B → B
  pub watches_pods : (Object → List NamespacedName) → Predicate → B → B
  pub watches_peers : List NamespacedName → B → B
  pub named : Bytes → B → B
  pub Enqueues : B → Event → NamespacedName → Type 0

-- The request of `For`: the object itself, for the policies, the peers and the computed paths.
abbrev pub own_key : Event → List NamespacedName
own_key (policy_created p) = key_of p.meta ∷ []
own_key (policy_deleted p) = key_of p.meta ∷ []
own_key (policy_updated old p) = key_of p.meta ∷ []
own_key (pod_created obj) = []
own_key (pod_deleted obj) = []
own_key (pod_updated old obj) = []
own_key (peer_changed p) = []
own_key (path_changed c) = []

abbrev pub own_peer : Event → List NamespacedName
own_peer (policy_created p) = []
own_peer (policy_deleted p) = []
own_peer (policy_updated old p) = []
own_peer (pod_created obj) = []
own_peer (pod_deleted obj) = []
own_peer (pod_updated old obj) = []
own_peer (peer_changed p) = key_of p.meta ∷ []
own_peer (path_changed c) = []

abbrev pub own_path : Event → List NamespacedName
own_path (policy_created p) = []
own_path (policy_deleted p) = []
own_path (policy_updated old p) = []
own_path (pod_created obj) = []
own_path (pod_deleted obj) = []
own_path (pod_updated old obj) = []
own_path (peer_changed p) = []
own_path (path_changed c) = key_of c.meta ∷ []

-- The requests of a map function over the pods of an event: both objects of an update.
abbrev pub pod_requests : (Object → List NamespacedName) → Event → List NamespacedName
pod_requests f (policy_created p) = []
pod_requests f (policy_deleted p) = []
pod_requests f (policy_updated old p) = []
pod_requests f (pod_created obj) = f obj
pod_requests f (pod_deleted obj) = f obj
pod_requests f (pod_updated old obj) = f old ++ f obj
pod_requests f (peer_changed p) = []
pod_requests f (path_changed c) = []

abbrev pub peer_event_requests : List NamespacedName → Event → List NamespacedName
peer_event_requests l (peer_changed p) = l
peer_event_requests l (path_changed c) = []
peer_event_requests l (policy_created p) = []
peer_event_requests l (policy_deleted p) = []
peer_event_requests l (policy_updated old p) = []
peer_event_requests l (pod_created obj) = []
peer_event_requests l (pod_deleted obj) = []
peer_event_requests l (pod_updated old obj) = []

-- The documented behaviour: each watch adds the requests of its handler for the events that its
-- predicate passes; a function that `predicate.Funcs` leaves nil passes every event;
-- `GenerationChangedPredicate` passes the updates that change the generation.
pub record IsRouting (R : Builder) : Type 0 where
  pub none_at_first : (e : Event) (r : NamespacedName) → R.Enqueues R.managed_by e r → ⊥
  pub for_routes :
      (q : R.Predicate) (b : R.B) (e : Event) (r : NamespacedName)
      → R.Enqueues (R.for_policies q b) e r
        ↔ ((R.passes q e ≡ true) × Memᴰ r (own_key e)) ⊎ R.Enqueues b e r
  pub for_peers_routes :
      (b : R.B) (e : Event) (r : NamespacedName)
      → R.Enqueues (R.for_peers b) e r ↔ Memᴰ r (own_peer e) ⊎ R.Enqueues b e r
  pub for_paths_routes :
      (b : R.B) (e : Event) (r : NamespacedName)
      → R.Enqueues (R.for_paths b) e r ↔ Memᴰ r (own_path e) ⊎ R.Enqueues b e r
  pub pods_route :
      (f : Object → List NamespacedName) (q : R.Predicate) (b : R.B) (e : Event)
      (r : NamespacedName)
      → R.Enqueues (R.watches_pods f q b) e r
        ↔ ((R.passes q e ≡ true) × Memᴰ r (pod_requests f e)) ⊎ R.Enqueues b e r
  pub peers_route :
      (l : List NamespacedName) (b : R.B) (e : Event) (r : NamespacedName)
      → R.Enqueues (R.watches_peers l b) e r ↔ Memᴰ r (peer_event_requests l e) ⊎ R.Enqueues b e r
  pub named_routes :
      (n : Bytes) (b : R.B) (e : Event) (r : NamespacedName)
      → R.Enqueues (R.named n b) e r ↔ R.Enqueues b e r
  pub generation_update :
      (old p : ScionPathPolicy)
      → R.passes R.generation_changed (policy_updated old p)
        ≡ not (old.meta.generation == p.meta.generation)
  pub funcs_update :
      (u : Object → Object → Bool) (c : Object → Bool) (old obj : Object)
      → R.passes (R.funcs u c) (pod_updated old obj) ≡ u old obj

-- `SetupWithManager` up to `Complete`: `list` and `all` are the answers of the client to the two
-- mappers.
module _ (R : Builder) (S : Selectors) (list : Bytes → Result (List ScionPathPolicy))
    (all : Result (List ScionPathPolicy)) where
  unfoldable pub setup_with_manager : R.B
  setup_with_manager = R.named (codes "global-scion-policy-controller") (
      R.watches_peers (peer_to_policies all) (
        R.watches_pods (pod_to_policy S list) (R.funcs update_func create_func)
          (R.for_policies R.generation_changed R.managed_by)))

-- `SetupWithManager` of the other two reconcilers, up to `Complete`.
module _ (R : Builder) where
  unfoldable pub setup_cluster_peer : R.B
  setup_cluster_peer = R.named (codes "scionclusterpeer") (R.for_peers R.managed_by)

  unfoldable pub setup_computed_path : R.B
  setup_computed_path = R.named (codes "scioncomputedpath") (R.for_paths R.managed_by)
