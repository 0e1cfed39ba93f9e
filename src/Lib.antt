-- ===== src/Lib.antt =====
-- CilION: the control plane that computes SCION paths for Kubernetes pods, and its eBPF datapath
-- with the loader.
--
-- The operator (cmd/main.go) runs the policy reconciler: it reads a ScionPathPolicy, asks the SCION
-- control service for a path to each ScionClusterPeer, and writes the answers as ScionComputedPath
-- objects. Pod and peer events enqueue policies for it. The agent on each node is to consume the
-- computed paths, but its reconciler is still empty; the loader fills the eBPF maps by which the
-- kernel programs pick the paths of packets. pkg/scion asks the local SCION daemon for paths and
-- caches them.
--
-- Files:
--   Base        native numbers, bytes, lists, Boolean tests.
--   Effect      Go's results: a value, an error, a panic or an exit, and the state left behind. A
--               function with an error result is an `Exec`; `if err != nil` is `catch`.
--   Api         api/v1alpha1: the custom resources.
--   Scheme      api/v1alpha1/groupversion_info.go, the init functions beside it, and that of
--               cmd/main.go: which types the scheme of the program knows.
--   Copies      api/v1alpha1/zz_generated.deepcopy.go: the objects as structs in a heap of
--               addresses, and their deep copies, a file for each kind. A pointer receiver is the
--               struct behind it.
--   Cluster     what the reconciler calls: controller-runtime's client and helpers, ScionClient.
--   Reconcile   internal/controller/scionpathpolicy_controller.go, Reconcile: `reconcile` is the
--               handler, `reconcile_policy` what follows the Get, `compute_paths` its steps 3 to 7,
--               `reconcile_peers` the loop, `reconcile_peer`, `publish_path` and `mutate` its body.
--   Watch       the same file, SetupWithManager: the pod predicate, the two mappers; Setup: what
--               this method and those of the other two reconcilers hand to controller-runtime's
--               builder.
--   Scion       Paths: pkg/scion/paths.go; Host: pkg/scion/host.go; Cache: pkg/scion/path_cache.go.
--   Bpf         Types: internal/bpf/types.go; Kernel: what the loader calls; Loader:
--               internal/bpf/loader.go with the stubs tc_egress_bpfel.go and
--               xdp_ingress_bpfel.go. Its functions have the names of the methods.
--   Datapath    Egress: bpf/tc_egress.c; Ingress: bpf/xdp_ingress.c with bpf/scion_mac.h; Packet:
--               loads and stores between data and data_end, and the sizes of bpf/headers/scion.h;
--               Safe: code that stays inside its packet. A test against data_end is `within`, and
--               an access outside the packet is `out_of_bounds`.
--   Agent       the loader and the kernel programs together: the maps that a program looks up are
--               those of the collection that the loader holds for it (`maps_of`), and the calls of
--               the loader are the steps of a relation; Undelivered: a packet between two agents.
--   Manager     cmd/main.go, and the two reconcilers whose Reconcile does nothing yet. `main` sets
--               up each reconciler with what Watch/Setup builds for it.
--   Utils       test/utils/utils.go: Lines and Uncomment: the text that UncommentCode writes;
--               Commands: the commands that the end-to-end tests run.
--   Tests       small instances of the parameters, and runs at concrete inputs.
--
-- State: the cluster, the kernel, the SCION stack, the scheme and the runtime of the manager are
-- records of calls over a state type of their own; the loader, the process and the path cache add
-- the program's state to it. Laws that the code relies on are records named for what they say
-- (IsFramed, IsAccepting, IsStoring, IsSort, IsKernel, IsVendor, IsStatusStoring, IsConditions,
-- IsRefusing, IsAttaching, IsScheme, IsPolicyMap, IsFilters, IsAddressing, IsRegistry, KeepsPolicy,
-- IsKept, IsRouting, IsHead, IsPathCache, CreatesCaches, IsFilledByPuts, IsRoom), and Tests has an
-- instance of each. Machine words: the path hash is taken modulo 2 ^ 64, the length of an
-- encapsulation modulo 2 ^ 32, header fields modulo 2 ^ 16; map keys are 32-bit numbers read from
-- four bytes in the host's order. Every loop is a recursion on a list, so no fuel is used;
-- controller-runtime's retries are a recursion on the list of rounds that the control service
-- answers (Reconcile/Retry). Packets are linear byte lists, and bit-fields lie as a little-endian
-- compiler lays them out.
--
-- Not modelled: log lines, contexts and timeouts; step 5 of write_scion_headers, which names
-- variables that are not declared and whose reads of the path header and write of the MAC have no
-- test against data_end, so that the bounds of the egress program are those of its other steps; the
-- MSS clamp, which does nothing; what the helpers of the tests print; the tests; the manifests.
pub mod Base
pub mod Effect
pub mod Api
pub mod Scheme
pub mod Copies
pub mod Cluster
pub mod Reconcile
pub mod Watch
pub mod Scion
pub mod Bpf
pub mod Datapath
pub mod Agent
pub mod Manager
pub mod Utils
pub mod Tests
