-- ===== src/Cluster.antt =====
-- What the policy reconciler calls: the Kubernetes client and its helpers (controller-runtime,
-- apimachinery), and the SCION control service behind the interface `ScionClient`
-- (internal/controller/scionpathpolicy_controller.go). None of it is in the repository, so it is a
-- parameter, with what the code relies on as the laws below.
use cilion.Base.{Bytes, List, Option, none, some, Bool, ◌≡◌, ◌≢◌, ◌⊎◌}
use cilion.Effect.{Error, Result, ok, Exec, world, answer}
use cilion.Api.{
  NamespacedName, Condition, ScionPathPolicy, ScionClusterPeer, ScionComputedPath, key_of,
}

-- What `FetchPath` returns beside its error.
pub record FetchedPath : Type 0 where
  pub is_ready : Bool
  pub raw_hop_fields : Bytes
  pub next_hop_ip : Bytes

-- The interface `ScionClient`, over the state of the world `W`.
pub record ScionClient (W : Type 0) : Type 0 where
  pub fetch_path : Bytes → Bytes → Exec W FetchedPath

-- The client, the API server behind it, and the pure helpers. A mutate callback of
-- `CreateOrUpdate` returns the object that it leaves behind, or its error.
pub record Cluster : Type 1 where
  pub World : Type 0
  pub get_policy : NamespacedName → Exec World ScionPathPolicy
  pub update_policy : ScionPathPolicy → Exec World (Unit {0})
  pub update_policy_status : ScionPathPolicy → Exec World (Unit {0})
  pub list_peers : Exec World (List ScionClusterPeer)
  pub create_or_update :
      ScionComputedPath → (ScionComputedPath → Result ScionComputedPath) → Exec World (Unit {0})
  -- `client.IgnoreNotFound` of an error that is not nil.
  pub ignore_not_found : Error → Option Error
  pub contains_finalizer : ScionPathPolicy → Bytes → Bool
  pub add_finalizer : ScionPathPolicy → Bytes → ScionPathPolicy
  pub remove_finalizer : ScionPathPolicy → Bytes → ScionPathPolicy
  pub set_controller_reference : ScionPathPolicy → ScionComputedPath → Result ScionComputedPath
  pub set_status_condition : List Condition → Condition → List Condition

-- A view of the stored computed paths.
abbrev pub View : Cluster → Type 0
View C = C.World → NamespacedName → Option ScionComputedPath

-- What `CreateOrUpdate` hands to its callback: the stored object if there is one.
abbrev pub found_or : ScionComputedPath → Option ScionComputedPath → ScionComputedPath
found_or obj none = obj
found_or obj (some c) = c

-- `SetControllerReference` refuses an object that another controller owns.
abbrev pub CanOwn : ScionPathPolicy → ScionComputedPath → Type 0
CanOwn p c = (c.meta.controller_owner ≡ none) ⊎ (c.meta.controller_owner ≡ some p.meta.name)

-- No call but `CreateOrUpdate` at the key itself changes the stored path of a key.
pub record IsFramed (C : Cluster) (V : View C) (client : ScionClient C.World) : Type 0 where
  pub create_frame :
      (w : C.World) (obj : ScionComputedPath) (f : ScionComputedPath → Result ScionComputedPath)
      (k : NamespacedName)
      → k ≢ key_of obj.meta
      → V (world (C.create_or_update obj f w)) k ≡ V w k
  pub fetch_frame :
      (w : C.World) (destination preference : Bytes) (k : NamespacedName)
      → V (world (client.fetch_path destination preference w)) k ≡ V w k
  pub get_frame : (w : C.World) (n k : NamespacedName) → V (world (C.get_policy n w)) k ≡ V w k
  pub list_frame : (w : C.World) (k : NamespacedName) → V (world (C.list_peers w)) k ≡ V w k
  pub update_frame :
      (w : C.World) (p : ScionPathPolicy) (k : NamespacedName)
      → V (world (C.update_policy p w)) k ≡ V w k
  pub status_frame :
      (w : C.World) (p : ScionPathPolicy) (k : NamespacedName)
      → V (world (C.update_policy_status p w)) k ≡ V w k

-- The API server accepts writes: `CreateOrUpdate` stores what its callback makes of the stored
-- object, unless the callback fails or changes the key.
pub record IsAccepting (C : Cluster) (V : View C) : Type 0 where
  pub stored_key :
      (w : C.World) (k : NamespacedName) (c : ScionComputedPath)
      → V w k ≡ some c
      → key_of c.meta ≡ k
  pub references :
      (p : ScionPathPolicy) (c : ScionComputedPath)
      → CanOwn p c
      → (d : ScionComputedPath) × (C.set_controller_reference p c ≡ ok d)
        × (key_of d.meta ≡ key_of c.meta)
        × (d.meta.controller_owner ≡ some p.meta.name)
  pub stores :
      (w : C.World) (obj : ScionComputedPath) (f : ScionComputedPath → Result ScionComputedPath)
      (c : ScionComputedPath)
      → f (found_or obj (V w (key_of obj.meta))) ≡ ok c
      → key_of c.meta ≡ key_of obj.meta
      → (answer (C.create_or_update obj f w) ≡ ok tt)
        × (V (world (C.create_or_update obj f w)) (key_of obj.meta) ≡ some c)

-- The control service is up and gives the same answers throughout.
abbrev pub Serves : {W : Type 0} → ScionClient W → (Bytes → Bytes → FetchedPath) → Type 0
Serves {W} client answers =
    (w : W) (destination preference : Bytes)
    → answer (client.fetch_path destination preference w) ≡ ok (answers destination preference)
