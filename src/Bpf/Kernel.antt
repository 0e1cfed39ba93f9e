-- ===== src/Bpf/Kernel.antt =====
-- What the loader calls: the eBPF library (cilium/ebpf), netlink, and the kernel behind them. A
-- handle is the number of the descriptor that it stands for; a nil handle is `none`. The compiled
-- programs are a parameter too: the repository's stubs embed none.
use cilion.Base.{ℕ, Bytes, List, Option}
use cilion.Effect.{Error, errno, errorf, wrap, Exec}
use cilion.Bpf.Types.{ScionPathEntry}
use cilion.Base.{Bool, false, ◌==◌}

-- The program and the two maps of one ELF object (`TcEgressObjects`, `XdpIngressObjects`).
pub record Objects : Type 0 where
  pub program : Option ℕ
  pub pod_policy_map : Option ℕ
  pub scion_path_cache : Option ℕ

-- The two collections, which have one shape.
abbrev pub TcEgressObjects : Type 0
TcEgressObjects = Objects

abbrev pub XdpIngressObjects : Type 0
XdpIngressObjects = Objects

pub record Qdisc : Type 0 where
  pub link_index : ℕ
  pub handle : ℕ
  pub parent : ℕ
  pub qdisc_type : Bytes

-- A `*netlink.BpfFilter`.
pub record BpfFilter : Type 0 where
  pub link_index : ℕ
  pub parent : ℕ
  pub handle : ℕ
  pub protocol : ℕ
  pub priority : ℕ
  pub fd : ℕ
  pub name : Bytes
  pub direct_action : Bool

-- A listed filter: the type assertion tells a BPF filter from the rest.
pub data Filter : Type 0 where
  bpf_filter : BpfFilter → Filter
  other_filter : ℕ → Filter

pub record Kernel : Type 1 where
  pub World : Type 0
  pub Spec : Type 0
  pub tc_egress_bytes : Bytes
  pub xdp_ingress_bytes : Bytes
  -- `ebpf.LoadCollectionSpecFromReader` and `spec.LoadAndAssign`.
  pub load_spec : Bytes → Exec World Spec
  pub load_and_assign : Spec → Exec World Objects
  -- `Close` of a program, a map or a link, nil or not, and `FD` of a program.
  pub close_handle : Option ℕ → Exec World (Unit {0})
  pub program_fd : Option ℕ → Exec World ℕ
  pub map_put_policy : Option ℕ → ℕ → ℕ → Exec World (Unit {0})
  pub map_put_path : Option ℕ → ℕ → ScionPathEntry → Exec World (Unit {0})
  pub map_delete : Option ℕ → ℕ → Exec World (Unit {0})
  pub link_by_name : Bytes → Exec World ℕ
  pub qdisc_add : Qdisc → Exec World (Unit {0})
  pub filter_add : BpfFilter → Exec World (Unit {0})
  pub filter_list : ℕ → ℕ → Exec World (List Filter)
  pub filter_del : BpfFilter → Exec World (Unit {0})
  pub attach_xdp : Option ℕ → ℕ → Exec World ℕ

-- `errors.Is` against an errno: through the wrapped errors.
unfoldable pub errors_is : Error → ℕ → Bool
errors_is (errno n) target = n == target
errors_is (errorf f args) target = false
errors_is (wrap f args e) target = errors_is e target

-- Constants of unix and netlink.
abbrev pub eexist : ℕ
eexist = 17

abbrev pub eth_p_all : ℕ
eth_p_all = 0x0003

abbrev pub handle_clsact : ℕ
handle_clsact = 0xfffffff1

abbrev pub handle_min_egress : ℕ
handle_min_egress = 0xfffffff3
