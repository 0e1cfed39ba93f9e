-- ===== src/Tests/Starts.antt =====
-- Starts of the program over a runtime that notes what is set up.
use cilion.Base.{◌≡◌, ◌↔◌, refl, codes, str_eq, List, [], ◌∷◌, none, some, true, ◌⊎◌}
use cilion.Effect.{errno, Result, ok, err, world, answer}
use cilion.Manager.{
  Flags, default_flags, Controller, scion_path_policy, scion_cluster_peer, scion_computed_path,
  Runtime, setup, register, serve, main,
}
use cilion.Manager.Start.{SetUp, IsRegistry, main_registers}
use cilion.Manager.Wakes.{Woken, agent_wakes, operator_misses_paths}
use cilion.Watch.{pod}
use cilion.Watch.Setup.{pod_updated, path_changed, own_path}
use cilion.Api.{ScionComputedPath, key_of}
use cilion.Tests.Watches.{web, all_pods, gold}
use cilion.Tests.Routes.{memory_builder, routing}
use mathlib.Core.List.{Memᴰ}

data Kind : Type 0 where
  policies peers paths : Kind

-- What the runtime notes: the reconcilers with what was built for them, none with a SCION client.
abbrev Notes : Type 0
Notes = List (Kind × memory_builder.B)

abbrev noted : memory_builder.B → Controller Notes → Notes → Result (Unit {0}) × Notes
noted b (scion_path_policy none) w = (ok tt, (policies, b) ∷ w)
noted b (scion_path_policy (some client)) w = (err (errno 22), w)
noted b scion_cluster_peer w = (ok tt, (peers, b) ∷ w)
noted b scion_computed_path w = (ok tt, (paths, b) ∷ w)

abbrev controller : Kind → Controller Notes
controller policies = scion_path_policy none
controller peers = scion_cluster_peer
controller paths = scion_computed_path

abbrev runtime : Runtime
runtime = record {
  World = Notes;
  RestConfig = Unit;
  Manager = Unit;
  builder = memory_builder;
  selectors = all_pods;
  list_policies = λ n. ok [];
  all_policies = ok [];
  get_config_or_die = λ w. (ok tt, w);
  new_manager = λ c o w. (ok tt, w);
  complete = λ b c m w. noted b c w;
  add_healthz_check = λ m w. (ok tt, w);
  add_readyz_check = λ m w. (ok tt, w);
  start = λ m w. (ok tt, w);
}

abbrev notes : Notes → List (SetUp runtime)
notes [] = []
notes (k ∷ w) = (controller k.0, k.1) ∷ notes w

noted_lem :
    (b : memory_builder.B) (c : Controller Notes) (w : Notes)
    → answer (noted b c w) ≡ ok tt
    → notes (world (noted b c w)) ≡ (c, b) ∷ notes w
noted_lem b (scion_path_policy none) w h = refl
noted_lem b (scion_path_policy (some client)) w h = absurd (cc h)
noted_lem b scion_cluster_peer w h = refl
noted_lem b scion_computed_path w h = refl

runtime-IsRegistry : IsRegistry runtime notes
runtime-IsRegistry = record {
  set_up = λ b c m w h. noted_lem b c w h;
  config_kept = λ w. refl;
  manager_kept = λ c o w. refl;
  healthz_kept = λ m w. refl;
  readyz_kept = λ m w. refl;
  start_kept = λ m w. refl;
}

abbrev agent : Flags
agent = record default_flags { mode = codes "agent"; enable_leader_election = true }

abbrev operator_run : Notes
operator_run = world (main runtime default_flags [] [])

main_registers_example :
    ((codes "operator" ≡ codes "operator")
      × (notes operator_run
          ≡ (scion_cluster_peer, setup runtime scion_cluster_peer)
            ∷ (scion_path_policy none, setup runtime (scion_path_policy none))
            ∷ []))
    ⊎ ((codes "operator" ≡ codes "agent")
        × (notes operator_run ≡ (scion_computed_path, setup runtime scion_computed_path) ∷ []))
unfolding str_eq main register serve
main_registers_example = main_registers runtime notes runtime-IsRegistry default_flags [] [] refl

-- An agent, and the event of a pod that gets an address.
agent_wakes_example :
    Woken runtime
      (notes (world (main runtime agent (codes "node-1") [])))
      (pod_updated (pod (web [])) (pod (web (codes "10.0.0.7"))))
      (key_of gold.meta)
    ↔ Memᴰ (key_of gold.meta) (own_path (pod_updated (pod (web [])) (pod (web (codes "10.0.0.7")))))
unfolding str_eq main register serve
agent_wakes_example =
    agent_wakes runtime routing notes runtime-IsRegistry agent (codes "node-1") [] refl refl refl
      (pod_updated (pod (web [])) (pod (web (codes "10.0.0.7")))) (key_of gold.meta)

abbrev stored_path : ScionComputedPath
stored_path = record {
  meta = gold.meta;
  spec = record {
    policy_ref = gold.meta.name;
    destination_cidr = codes "10.2.0.0/16";
    next_hop_ip = codes "10.0.0.1";
    hop_fields = [];
  };
  status = record { conditions = [] };
}

-- An operator, and a computed path that changed.
operator_misses_paths_example :
    ¬ Woken runtime (notes operator_run) (path_changed stored_path) (key_of stored_path.meta)
unfolding str_eq main register serve
operator_misses_paths_example =
    operator_misses_paths runtime routing notes runtime-IsRegistry default_flags [] [] refl refl
      refl stored_path (key_of stored_path.meta)
