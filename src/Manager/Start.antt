-- ===== src/Manager/Start.antt =====
-- What a start of the program registers in each mode, and the options of an agent.
use cilion.Base.{
  ◌≡◌, refl, sym, ◌∙◌, ap, subst, Bytes, codes, str_eq-eq, List, ◌∷◌, none, Bool, true, false, ◌⊎◌,
  inl, inr, if◌then◌else◌,
}
use cilion.Effect.{Result, ok, err, panic, exit, Exec, pure, continue-back, recover, world, answer}
use cilion.Manager.{
  Flags, is_agent, is_operator, Options, manager_options, cache_node, tls_opts, Controller,
  scion_path_policy, scion_cluster_peer, scion_computed_path, Runtime, die, or_die, setup, set_up,
  serve, register, main,
}

-- In agent mode the leader election flag has no effect on the options of the manager, which runs
-- without leader election.
pub agent_ignores_leader_elect :
    (flags : Flags) (node_name : Bytes) (elect : Bool)
    → is_agent flags ≡ true
    → (manager_options (record flags { enable_leader_election = elect }) node_name
        ≡ manager_options flags node_name)
      × ((manager_options flags node_name).leader_election ≡ false)
unfolding manager_options cache_node tls_opts
agent_ignores_leader_elect flags node_name elect h = (rw h, rw h)

-- A controller that is set up: the reconciler, and what was built for it.
abbrev pub SetUp : (R : Runtime) → Type 0
SetUp R = Controller R.World × R.builder.B

-- A view of the controllers that are set up, the last one first: a `Complete` that succeeds adds
-- its own, and no other call changes them.
pub record IsRegistry (R : Runtime) (controllers : R.World → List (SetUp R)) : Type 0 where
  pub set_up :
      (b : R.builder.B) (c : Controller R.World) (m : R.Manager) (w : R.World)
      → answer (R.complete b c m w) ≡ ok tt
      → controllers (world (R.complete b c m w)) ≡ (c, b) ∷ controllers w
  pub config_kept : (w : R.World) → controllers (world (R.get_config_or_die w)) ≡ controllers w
  pub manager_kept :
      (c : R.RestConfig) (o : Options) (w : R.World)
      → controllers (world (R.new_manager c o w)) ≡ controllers w
  pub healthz_kept :
      (m : R.Manager) (w : R.World) → controllers (world (R.add_healthz_check m w)) ≡ controllers w
  pub readyz_kept :
      (m : R.Manager) (w : R.World) → controllers (world (R.add_readyz_check m w)) ≡ controllers w
  pub start_kept : (m : R.Manager) (w : R.World) → controllers (world (R.start m w)) ≡ controllers w

module _ (R : Runtime) where
  -- A step that is followed by more, and after which the program returned, succeeded.
  or_die-ok :
      {A B : Type 0} (k : A → Exec R.World B) (p : Result A × R.World) (b : B)
      → answer (recover (λ _. die R) k p) ≡ ok b
      → (a : A) × (answer p ≡ ok a)
        × (answer (k a (world p)) ≡ ok b)
        × (world (recover (λ _. die R) k p) ≡ world (k a (world p)))
  or_die-ok k (ok a, w) b h = (a, refl, h, refl)
  or_die-ok k (err e, w) b h = absurd (cc h)
  or_die-ok k (panic f, w) b h = absurd (cc h)
  or_die-ok k (exit n, w) b h = absurd (cc h)

  -- A returning choice between two actions is a returning run of one of them.
  if-ok :
      (P : Result (Unit {0}) × R.World → Type 0) (b : Bool) (m n : Exec R.World (Unit {0}))
      (w : R.World)
      → (b ≡ true → answer (m w) ≡ ok tt → P (m w))
      → (b ≡ false → answer (n w) ≡ ok tt → P (n w))
      → answer ((if b then m else n) w) ≡ ok tt
      → P ((if b then m else n) w)
  if-ok P true m n w hm hn h = hm refl h
  if-ok P false m n w hm hn h = hn refl h

  module _ (controllers : R.World → List (SetUp R)) (G : IsRegistry R controllers) where
    -- The controllers after a return of `serve` are those before it.
    serve_keeps :
        (m : R.Manager) (w : R.World)
        → answer (serve R m w) ≡ ok tt
        → controllers (world (serve R m w)) ≡ controllers w
    unfolding serve
    serve_keeps m w h =
        let (_, _, h₁, e₁) = or_die-ok _ (R.add_healthz_check m w) tt h in
        let (_, _, h₂, e₂) = or_die-ok _ (R.add_readyz_check m _) tt h₁ in
        let (_, _, _, e₃) = or_die-ok pure (R.start m _) tt h₂ in
        ap controllers (e₁ ∙ e₂ ∙ e₃) ∙ G.start_kept m _ ∙ G.readyz_kept m _ ∙ G.healthz_kept m w

    -- A setup and what follows it.
    step_registers :
        (c : Controller R.World) (m : R.Manager) (w : R.World) (rest : Exec R.World (Unit {0}))
        (added : List (SetUp R) → List (SetUp R))
        → ((v : R.World)
            → answer (rest v) ≡ ok tt
            → controllers (world (rest v)) ≡ added (controllers v))
        → answer (or_die R (set_up R c m) (λ _. rest) w) ≡ ok tt
        → controllers (world (or_die R (set_up R c m) (λ _. rest) w))
          ≡ added ((c, setup R c) ∷ controllers w)
    step_registers c m w rest added follow h =
        let (_, fine, h₁, e) = or_die-ok (λ _. rest) (set_up R c m w) tt h in
        ap controllers e ∙ follow _ h₁ ∙ ap added (G.set_up (setup R c) c m w fine)

    -- A reconciler with what its `SetupWithManager` builds.
    abbrev built : Controller R.World → SetUp R
    built c = (c, setup R c)

    -- What a mode registers.
    abbrev Registered : Flags → List (SetUp R) → List (SetUp R) → Type 0
    Registered flags old new =
        ((flags.mode ≡ codes "operator")
          × (new ≡ built scion_cluster_peer ∷ built (scion_path_policy none) ∷ old))
        ⊎ ((flags.mode ≡ codes "agent") × (new ≡ built scion_computed_path ∷ old))

    register_registers :
        (flags : Flags) (m : R.Manager) (w : R.World)
        → answer (register R flags m w) ≡ ok tt
        → Registered flags (controllers w) (controllers (world (register R flags m w)))
    unfolding register
    register_registers flags m w h =
        if-ok (λ p. Registered flags (controllers w) (controllers (world p))) (is_operator flags) _
          _ w
          (λ q h. inl (
            str_eq-eq _ _ q,
            step_registers (scion_path_policy none) m w _ (λ l. built scion_cluster_peer ∷ l)
                (λ v g.
                  step_registers scion_cluster_peer m v (serve R m) (λ l. l) (serve_keeps m) g)
                h,
          ))
          (λ _.
            if-ok (λ p. Registered flags (controllers w) (controllers (world p))) (is_agent flags) _
              _ w
              (λ q h. inr (
                str_eq-eq _ _ q,
                step_registers scion_computed_path m w (serve R m) (λ l. l) (serve_keeps m) h,
              ))
              (λ _ g. absurd (cc g)))
          h

    -- If a `Complete` that succeeds adds its controller and no other call changes which are set up,
    -- then the program returns only in one of its two modes, with exactly the reconcilers of the
    -- mode set up, each with what its `SetupWithManager` builds: as an operator that of the
    -- policies, without a SCION client, and that of the peers; as an agent that of the computed
    -- paths.
    pub main_registers :
        (flags : Flags) (node_name : Bytes) (w : R.World)
        → answer (main R flags node_name w) ≡ ok tt
        → Registered flags (controllers w) (controllers (world (main R flags node_name w)))
    unfolding main
    main_registers flags node_name w h =
        let (config, _, h₁, e₁) = continue-back _ (R.get_config_or_die w) tt h in
        let w₁ = world (R.get_config_or_die w) in
        let p = R.new_manager config (manager_options flags node_name) w₁ in
        let (m, _, h₂, e₂) = or_die-ok (register R flags) p tt h₁ in
        subst (λ v. Registered flags (controllers w) (controllers v)) (sym (e₁ ∙ e₂))
          (subst (λ l. Registered flags l (controllers (world (register R flags m (world p)))))
            (G.manager_kept config (manager_options flags node_name) w₁ ∙ G.config_kept w)
            (register_registers flags m (world p) h₂))
