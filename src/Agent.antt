-- ===== src/Agent.antt =====
-- The agent of a node: the loader of internal/bpf together with the kernel programs of bpf, which
-- look up the maps that the loader fills.
pub mod Configured
pub mod Isolated
pub mod Undelivered
use cilion.Base.{ℕ, ◌≡◌, Bytes, Option, none, some, Bool, ◌==◌, if◌then◌else◌}
use cilion.Effect.{ok, Exec, world, answer}
use cilion.Bpf.Types.{ScionPathEntry, Endian}
use cilion.Bpf.Kernel.{Kernel, Objects}
use cilion.Bpf.Loader.{
  Host, attach_tc, detach_tc, attach_xdp, update_pod_policy, delete_pod_policy, update_scion_path,
  delete_scion_path, close,
}
use cilion.Bpf.Loader.Policies.{IsPolicyMap}
use cilion.Datapath.Egress.{Maps}

-- A view of the maps of a kernel by their handles: the policy map by the bytes of a key, the path
-- cache by its policy.
pub record MapView (K : Kernel) : Type 0 where
  pub policy_at : K.World → Option ℕ → Bytes → Option ℕ
  pub path_at : K.World → Option ℕ → ℕ → Option ScionPathEntry

module _ (K : Kernel) (V : MapView K) where
  -- The maps of one collection, as its program sees them.
  unfoldable pub maps_of : Objects → K.World → Maps
  maps_of o w = record {
    pod_policy_map = V.policy_at w o.pod_policy_map;
    scion_path_cache = V.path_at w o.scion_path_cache;
  }

  -- The documented behaviour of the puts, beside that of the policy map: a put that succeeds
  -- stores under its key, and a put in one map leaves the other.
  pub record IsPathCache (order : Endian) : Type 0 where
    pub policies : IsPolicyMap K order V.policy_at
    pub path_put_ok :
        (m : Option ℕ) (policy : ℕ) (entry : ScionPathEntry) (w : K.World)
        → answer (K.map_put_path m policy entry w) ≡ ok tt
        → (j : ℕ)
        → V.path_at (world (K.map_put_path m policy entry w)) m j
          ≡ (if j == policy then some entry else V.path_at w m j)
    pub path_put_frame :
        (m n : Option ℕ) (policy : ℕ) (entry : ScionPathEntry) (w : K.World) (b : Bytes)
        → V.policy_at (world (K.map_put_path m policy entry w)) n b ≡ V.policy_at w n b

-- A call of a method of the loader after `Load`, whatever its outcome.
pub data Step (K : Kernel) (order : Endian) : Host K → Host K → Type 0 where
  attaching_tc : (name : Bytes) (s : Host K) → Step K order s (world (attach_tc K name s))
  detaching_tc : (name : Bytes) (s : Host K) → Step K order s (world (detach_tc K name s))
  attaching_xdp : (name : Bytes) (s : Host K) → Step K order s (world (attach_xdp K name s))
  updating_pod_policy :
      (ip : Bytes) (policy : ℕ) (s : Host K)
      → Step K order s (world (update_pod_policy K order ip policy s))
  deleting_pod_policy :
      (ip : Bytes) (s : Host K) → Step K order s (world (delete_pod_policy K order ip s))
  updating_scion_path :
      (policy : ℕ) (entry : ScionPathEntry) (s : Host K)
      → Step K order s (world (update_scion_path K policy entry s))
  deleting_scion_path :
      (policy : ℕ) (s : Host K) → Step K order s (world (delete_scion_path K policy s))
  closing : (s : Host K) → Step K order s (world (close K s))

-- The states that calls of these methods lead to from `start`.
pub data Reach (K : Kernel) (order : Endian) (start : Host K) : Host K → Type 0 where
  here : Reach K order start start
  later : {s t : Host K} → Reach K order start s → Step K order s t → Reach K order start t
