-- ===== src/Manager.antt =====
-- cmd/main.go: the flags, the options of the manager, and the registration of the controllers by
-- mode. The manager (controller-runtime) is the parameter `Runtime`. Log lines are left out.
pub mod Start
pub mod Wakes
use cilion.Base.{
  Bytes, codes, str_eq, List, [], ◌∷◌, Option, none, some, Bool, true, false, not, if◌then◌else◌,
}
use cilion.Effect.{Error, exit, Result, Exec, pure, catch, ◌>>=◌}
use cilion.Api.{NamespacedName, ScionPathPolicy}
use cilion.Cluster.{ScionClient}
use cilion.Reconcile.{CtrlResult, done}
use cilion.Watch.{Selectors}
use cilion.Watch.Setup.{Builder, setup_with_manager, setup_cluster_peer, setup_computed_path}

pub record Flags : Type 0 where
  pub metrics_addr : Bytes
  pub probe_addr : Bytes
  pub enable_leader_election : Bool
  pub secure_metrics : Bool
  pub enable_http2 : Bool
  pub mode : Bytes

-- The flags of an empty command line.
abbrev pub default_flags : Flags
default_flags = record {
  metrics_addr = codes "0";
  probe_addr = codes ":8081";
  enable_leader_election = false;
  secure_metrics = true;
  enable_http2 = false;
  mode = codes "operator";
}

abbrev pub is_agent : Flags → Bool
is_agent flags = str_eq flags.mode (codes "agent")

abbrev pub is_operator : Flags → Bool
is_operator flags = str_eq flags.mode (codes "operator")

-- `tls.Config`, as far as the program sets it, and the option that turns HTTP/2 off.
pub record TlsConfig : Type 0 where
  pub next_protos : List Bytes

abbrev pub disable_http2 : TlsConfig → TlsConfig
disable_http2 c = record c { next_protos = codes "http/1.1" ∷ [] }

unfoldable pub tls_opts : Flags → List (TlsConfig → TlsConfig)
tls_opts flags = if not flags.enable_http2 then disable_http2 ∷ [] else []

-- The options of the manager. `filter_provider` is whether the metrics go through authentication
-- and authorization; `pod_node` is the node that the pod cache is restricted to.
pub record Options : Type 0 where
  pub metrics_bind_address : Bytes
  pub secure_serving : Bool
  pub metrics_tls_opts : List (TlsConfig → TlsConfig)
  pub filter_provider : Bool
  pub webhook_tls_opts : List (TlsConfig → TlsConfig)
  pub health_probe_bind_address : Bytes
  pub leader_election : Bool
  pub leader_election_id : Bytes
  pub pod_node : Option Bytes

-- The cache options: `node_name` is `os.Getenv("NODE_NAME")`, empty if it is not set.
unfoldable pub cache_node : Flags → Bytes → Option Bytes
cache_node flags node_name =
    if is_agent flags then (if not (str_eq node_name []) then some node_name else none) else none

unfoldable pub manager_options : Flags → Bytes → Options
manager_options flags node_name = record {
  metrics_bind_address = flags.metrics_addr;
  secure_serving = flags.secure_metrics;
  metrics_tls_opts = tls_opts flags;
  filter_provider = flags.secure_metrics;
  webhook_tls_opts = tls_opts flags;
  health_probe_bind_address = flags.probe_addr;
  leader_election = if is_agent flags then false else flags.enable_leader_election;
  leader_election_id = codes "db004011.operator.cilion.io";
  pod_node = cache_node flags node_name;
}

-- The reconcilers that the program builds; the policy reconciler holds a SCION client or nil.
pub data Controller (W : Type 0) : Type 0 where
  scion_path_policy : Option (ScionClient W) → Controller W
  scion_cluster_peer : Controller W
  scion_computed_path : Controller W

-- The calls of the runtime: `ctrl.GetConfigOrDie`, `ctrl.NewManager`, those of the builder of a
-- controller, of which `Complete` is given the manager and the reconciler, and those of the
-- manager. `selectors`, `list_policies` and `all_policies` are what the mappers of the policy
-- reconciler call.
pub record Runtime : Type 1 where
  pub World : Type 0
  pub RestConfig : Type 0
  pub Manager : Type 0
  pub get_config_or_die : Exec World RestConfig
  pub new_manager : RestConfig → Options → Exec World Manager
  pub builder : Builder
  pub selectors : Selectors
  pub list_policies : Bytes → Result (List ScionPathPolicy)
  pub all_policies : Result (List ScionPathPolicy)
  pub complete : builder.B → Controller World → Manager → Exec World (Unit {0})
  pub add_healthz_check : Manager → Exec World (Unit {0})
  pub add_readyz_check : Manager → Exec World (Unit {0})
  pub start : Manager → Exec World (Unit {0})

-- `Reconcile` of the cluster peers and of the computed paths: neither does anything.
unfoldable pub reconcile_cluster_peer : {W : Type 0} → NamespacedName → Exec W CtrlResult
reconcile_cluster_peer req = pure done

unfoldable pub reconcile_computed_path : {W : Type 0} → NamespacedName → Exec W CtrlResult
reconcile_computed_path req = pure done

module _ (R : Runtime) where
  -- `os.Exit(1)`
  abbrev pub die : {A : Type 0} → Exec R.World A
  die w = (exit 1, w)

  -- `if err := m(); err != nil { os.Exit(1) }`, and what follows.
  abbrev pub or_die : {A B : Type 0} → Exec R.World A → (A → Exec R.World B) → Exec R.World B
  or_die m k = catch m (λ _. die) k

  -- What `SetupWithManager` of a reconciler builds, and the method itself.
  unfoldable pub setup : Controller R.World → R.builder.B
  setup (scion_path_policy client) =
      setup_with_manager R.builder R.selectors R.list_policies R.all_policies
  setup scion_cluster_peer = setup_cluster_peer R.builder
  setup scion_computed_path = setup_computed_path R.builder

  abbrev pub set_up : Controller R.World → R.Manager → Exec R.World (Unit {0})
  set_up c mgr = R.complete (setup c) c mgr

  -- The health checks and the start.
  unfoldable pub serve : R.Manager → Exec R.World (Unit {0})
  serve mgr =
      or_die (R.add_healthz_check mgr)
        λ _. or_die (R.add_readyz_check mgr) λ _. or_die (R.start mgr) pure

  -- The reconcilers of a mode, in the order of their registration.
  unfoldable pub register : Flags → R.Manager → Exec R.World (Unit {0})
  register flags mgr =
      if is_operator flags
      then or_die (set_up (scion_path_policy none) mgr)
          (λ _. or_die (set_up scion_cluster_peer mgr) (λ _. serve mgr))
      else if is_agent flags
      then or_die (set_up scion_computed_path mgr) (λ _. serve mgr)
      else die

  -- `main`, behind the parse of the flags.
  unfoldable pub main : Flags → Bytes → Exec R.World (Unit {0})
  main flags node_name = do
    config ← R.get_config_or_die
    or_die (R.new_manager config (manager_options flags node_name)) (register flags)
