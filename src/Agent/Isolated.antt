-- ===== src/Agent/Isolated.antt =====
-- The ingress program sees maps of its own, which no method of the loader writes.
pub mod Keeps
pub mod Calls
pub mod Load
pub mod Verdict
use cilion.Base.{ℕ, ◌≡◌, ◌≢◌, Bytes, Option, none}
use cilion.Effect.{world}
use cilion.Bpf.Types.{ScionPathEntry}
use cilion.Bpf.Kernel.{Kernel, Objects, Qdisc, BpfFilter}
use cilion.Bpf.Loader.{Host}
use cilion.Agent.{MapView}

module _ (K : Kernel) (V : MapView K) where
  -- No path is stored in the cache of a handle.
  abbrev pub IsEmpty : Option ℕ → K.World → Type 0
  IsEmpty m w = (policy : ℕ) → V.path_at w m policy ≡ none

  -- What the calls do to an empty cache: only a put at its own handle fills it.
  pub record IsFilledByPuts : Type 0 where
    pub close_keeps :
        (m c : Option ℕ) (w : K.World) → IsEmpty m w → IsEmpty m (world (K.close_handle c w))
    pub fd_keeps :
        (m c : Option ℕ) (w : K.World) → IsEmpty m w → IsEmpty m (world (K.program_fd c w))
    pub policy_keeps :
        (m n : Option ℕ) (key value : ℕ) (w : K.World)
        → IsEmpty m w
        → IsEmpty m (world (K.map_put_policy n key value w))
    pub path_keeps :
        (m n : Option ℕ) (policy : ℕ) (entry : ScionPathEntry) (w : K.World)
        → n ≢ m
        → IsEmpty m w
        → IsEmpty m (world (K.map_put_path n policy entry w))
    pub delete_keeps :
        (m n : Option ℕ) (key : ℕ) (w : K.World)
        → IsEmpty m w
        → IsEmpty m (world (K.map_delete n key w))
    pub link_keeps :
        (m : Option ℕ) (name : Bytes) (w : K.World)
        → IsEmpty m w
        → IsEmpty m (world (K.link_by_name name w))
    pub qdisc_keeps :
        (m : Option ℕ) (q : Qdisc) (w : K.World) → IsEmpty m w → IsEmpty m (world (K.qdisc_add q w))
    pub filter_keeps :
        (m : Option ℕ) (f : BpfFilter) (w : K.World)
        → IsEmpty m w
        → IsEmpty m (world (K.filter_add f w))
    pub list_keeps :
        (m : Option ℕ) (index parent : ℕ) (w : K.World)
        → IsEmpty m w
        → IsEmpty m (world (K.filter_list index parent w))
    pub filter_del_keeps :
        (m : Option ℕ) (f : BpfFilter) (w : K.World)
        → IsEmpty m w
        → IsEmpty m (world (K.filter_del f w))
    pub attach_keeps :
        (m c : Option ℕ) (index : ℕ) (w : K.World)
        → IsEmpty m w
        → IsEmpty m (world (K.attach_xdp c index w))

  module _ (tc xdp : Objects) where
    -- The loader holds these collections, and the cache of the second is empty.
    pub record Isolated (s : Host K) : Type 0 where
      pub tc_held : s.loader.tc_objs ≡ tc
      pub xdp_held : s.loader.xdp_objs ≡ xdp
      pub empty : IsEmpty xdp.scion_path_cache s.kernel
