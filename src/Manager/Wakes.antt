-- ===== src/Manager/Wakes.antt =====
-- Which events wake the program in each of its modes.
use mathlib.Core.List.{Memᴰ}
use cilion.Base.{
  ◌≡◌, ◌↔◌, ◌⊎◌, refl, sym, ◌∙◌, ap, subst, Bytes, codes, List, [], ◌∷◌, none, inl, inr,
}
use cilion.Effect.{ok, world, answer}
use cilion.Api.{NamespacedName, ScionComputedPath}
use cilion.Watch.Setup.{Event, path_changed, own_path, IsRouting}
use cilion.Watch.Setup.Owned.{cluster_peer_wakes, computed_path_wakes}
use cilion.Watch.Setup.Routes.{path_unwatched}
use cilion.Manager.{
  Flags, scion_path_policy, scion_cluster_peer, scion_computed_path, Runtime, setup, main,
}
use cilion.Manager.Start.{SetUp, IsRegistry, main_registers}

-- One of the controllers that are set up enqueues the request for the event.
abbrev pub Woken : (R : Runtime) → List (SetUp R) → Event → NamespacedName → Type 0
Woken R l e r = (s : SetUp R) × Memᴰ s l × R.builder.Enqueues s.1 e r

module _ (R : Runtime) (e : Event) (r : NamespacedName) where
  -- A list of controllers is woken by its first one or by the others.
  Woken-cases :
      (s : SetUp R) (l : List (SetUp R))
      → Woken R (s ∷ l) e r
      → R.builder.Enqueues s.1 e r ⊎ Woken R l e r
  Woken-cases s l (t, Memᴰ.head same, q) =
      inl (subst (λ (u : SetUp R). R.builder.Enqueues u.1 e r) same q)
  Woken-cases s l (t, Memᴰ.tail m, q) = inr (t, m, q)

module _ (R : Runtime) (T : IsRouting R.builder) (controllers : R.World → List (SetUp R))
    (G : IsRegistry R controllers) (flags : Flags) (node_name : Bytes) (w : R.World)
    (empty : controllers w ≡ []) (returned : answer (main R flags node_name w) ≡ ok tt) where
  abbrev after : List (SetUp R)
  after = controllers (world (main R flags node_name w))

  agent_after :
      flags.mode ≡ codes "agent" → after ≡ (scion_computed_path, setup R scion_computed_path) ∷ []
  agent_after h = elim (main_registers R controllers G flags node_name w returned) [
    | inl o ↦ absurd (cc (h, o.0))
    | inr a ↦ a.1 ∙ ap (λ l. (scion_computed_path, setup R scion_computed_path) ∷ l) empty
  ]

  operator_after :
      flags.mode ≡ codes "operator"
      → after
        ≡ (scion_cluster_peer, setup R scion_cluster_peer)
          ∷ (scion_path_policy none, setup R (scion_path_policy none))
          ∷ []
  operator_after h = elim (main_registers R controllers G flags node_name w returned) [
    | inl o ↦
        o.1
        ∙ ap
            (λ l.
              (scion_cluster_peer, setup R scion_cluster_peer)
              ∷ (scion_path_policy none, setup R (scion_path_policy none))
              ∷ l)
            empty
    | inr a ↦ absurd (cc (h, a.0))
  ]

  -- With a runtime that routes events as documented, where a `Complete` that succeeds adds its
  -- controller, no other call changes which are set up, and none is at first: once `main` has
  -- returned in agent mode, an event wakes the program exactly if it is one of a computed path, and
  -- then for that path; so no event of a pod, a policy or a peer does.
  pub agent_wakes :
      flags.mode ≡ codes "agent"
      → (e : Event) (r : NamespacedName) → Woken R after e r ↔ Memᴰ r (own_path e)
  unfolding setup
  agent_wakes h e r = (
    (λ woken. elim (Woken-cases R e r _ [] (subst (λ l. Woken R l e r) (agent_after h) woken)) [
      | inl q ↦ (computed_path_wakes R.builder T e r).0 q
      | inr t ↦ elim t.1 [ ]
    ]),
    λ m.
        subst (λ l. Woken R l e r) (sym (agent_after h))
          (_, Memᴰ.head refl, (computed_path_wakes R.builder T e r).1 m),
  )

  -- With a runtime that routes events as documented, where a `Complete` that succeeds adds its
  -- controller, no other call changes which are set up, and none is at first: once `main` has
  -- returned in operator mode, no event of a computed path wakes the program, whichever path it is.
  pub operator_misses_paths :
      flags.mode ≡ codes "operator"
      → (c : ScionComputedPath) (r : NamespacedName) → ¬ Woken R after (path_changed c) r
  unfolding setup
  operator_misses_paths h c r woken =
      let e = path_changed c in
      elim (Woken-cases R e r _ _ (subst (λ l. Woken R l e r) (operator_after h) woken)) [
        | inl q ↦ elim ((cluster_peer_wakes R.builder T e r).0 q) [ ]
        | inr t ↦ elim (Woken-cases R e r _ [] t) [
          | inl q ↦ path_unwatched R.builder T R.selectors R.list_policies R.all_policies c r q
          | inr u ↦ elim u.1 [ ]
        ]
      ]
