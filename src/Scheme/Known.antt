-- ===== src/Scheme/Known.antt =====
-- What the scheme of the program knows once the program is initialised.
use mathlib.Core.List.{Memᴰ}
use cilion.Base.{◌≡◌, refl, ap, subst, sym, ◌∙◌, codes, List, []}
use cilion.Effect.{ok, Exec, continue-back, world, answer}
use cilion.Scheme.{
  GroupVersion, GoType, scion_path_policy, scion_path_policy_list, scion_cluster_peer,
  scion_cluster_peer_list, scion_computed_path, scion_computed_path_list, pod, SchemeApi,
  scheme_group_version, register_cluster_peer, register_computed_path, register_path_policy,
  scheme_builder, init,
}

-- The documented behaviour: `Register` adds objects to the builder, and `AddToScheme` the objects
-- of a builder to a scheme, under the version of the builder; nothing is taken out of a scheme;
-- the scheme of client-go has the pods of the core group; `Must` panics on an error.
pub record IsScheme (A : SchemeApi) (Holds : A.Builder → GoType → Type 0)
    (version : A.Builder → GroupVersion) : Type 0 where
  pub version_new : (v : GroupVersion) → version (A.new_builder v) ≡ v
  pub version_register : (l : List GoType) (b : A.Builder) → version (A.register l b) ≡ version b
  pub added : (l : List GoType) (b : A.Builder) (t : GoType) → Memᴰ t l → Holds (A.register l b) t
  pub kept : (l : List GoType) (b : A.Builder) (t : GoType) → Holds b t → Holds (A.register l b) t
  pub add_known :
      (b : A.Builder) (s : A.Scheme) (t : GoType)
      → answer (A.add_to_scheme b s) ≡ ok tt
      → Holds b t
      → A.Knows (world (A.add_to_scheme b s)) (version b) t
  pub add_keeps :
      (b : A.Builder) (s : A.Scheme) (v : GroupVersion) (t : GoType)
      → A.Knows s v t
      → A.Knows (world (A.add_to_scheme b s)) v t
  pub client_go_known :
      (s : A.Scheme)
      → answer (A.add_client_go s) ≡ ok tt
      → A.Knows (world (A.add_client_go s)) (record { group = []; version = codes "v1" }) pod
  pub must_ok :
      (m : Exec A.Scheme (Unit {0})) (s : A.Scheme)
      → answer (A.must m s) ≡ ok tt
      → (answer (m s) ≡ ok tt) × (world (A.must m s) ≡ world (m s))

abbrev cilion_v1alpha1 : GroupVersion
cilion_v1alpha1 = record { group = codes "cilion.cilion.io"; version = codes "v1alpha1" }

-- The group and version that a type has in the manifests and in the API server.
abbrev pub served : GoType → GroupVersion
served scion_path_policy = cilion_v1alpha1
served scion_path_policy_list = cilion_v1alpha1
served scion_cluster_peer = cilion_v1alpha1
served scion_cluster_peer_list = cilion_v1alpha1
served scion_computed_path = cilion_v1alpha1
served scion_computed_path_list = cilion_v1alpha1
served pod = record { group = []; version = codes "v1" }

module _ (A : SchemeApi) (Holds : A.Builder → GoType → Type 0) (version : A.Builder → GroupVersion)
    (L : IsScheme A Holds version) where
  builder_version : version (scheme_builder A) ≡ cilion_v1alpha1
  unfolding scheme_builder register_path_policy register_computed_path register_cluster_peer
      scheme_group_version
  builder_version =
      L.version_register _ _ ∙ L.version_register _ _ ∙ L.version_register _ _ ∙ L.version_new _

  builder-Holds : (t : GoType) → (served t ≡ cilion_v1alpha1) → Holds (scheme_builder A) t
  unfolding scheme_builder register_path_policy register_computed_path register_cluster_peer
  builder-Holds scion_path_policy h = L.added _ _ _ (Memᴰ.head refl)
  builder-Holds scion_path_policy_list h = L.added _ _ _ (Memᴰ.tail (Memᴰ.head refl))
  builder-Holds scion_computed_path h = L.kept _ _ _ (L.added _ _ _ (Memᴰ.head refl))
  builder-Holds scion_computed_path_list h =
      L.kept _ _ _ (L.added _ _ _ (Memᴰ.tail (Memᴰ.head refl)))
  builder-Holds scion_cluster_peer h = L.kept _ _ _ (L.kept _ _ _ (L.added _ _ _ (Memᴰ.head refl)))
  builder-Holds scion_cluster_peer_list h =
      L.kept _ _ _ (L.kept _ _ _ (L.added _ _ _ (Memᴰ.tail (Memᴰ.head refl))))
  builder-Holds pod h = absurd (cc (ap (λ (v : GroupVersion). v.group) h))

  custom :
      (t : GoType) (s : A.Scheme)
      → served t ≡ cilion_v1alpha1
      → answer (A.add_to_scheme (scheme_builder A) s) ≡ ok tt
      → A.Knows (world (A.add_to_scheme (scheme_builder A) s)) (served t) t
  custom t s same went =
      subst (λ v. A.Knows (world (A.add_to_scheme (scheme_builder A) s)) v t)
        (builder_version ∙ sym same)
        (L.add_known (scheme_builder A) s t went (builder-Holds t same))

  -- With a scheme that behaves as documented: if the program's `init` does not panic, the scheme
  -- that it leaves knows every type that the program reads, writes or watches, the custom
  -- resources and their lists under the group and version of the API, and the pods under those of
  -- the core group.
  pub init_knows :
      (s : A.Scheme)
      → answer (init A s) ≡ ok tt
      → (t : GoType) → A.Knows (world (init A s)) (served t) t
  unfolding init
  init_knows s h t =
      let (_, fine, h₁, e) =
        continue-back (λ _. A.must (A.add_to_scheme (scheme_builder A))) (A.must A.add_client_go s)
          tt h in
      let (went, left) = L.must_ok A.add_client_go s fine in
      let (went', left') = L.must_ok (A.add_to_scheme (scheme_builder A)) _ h₁ in
      subst (λ v. A.Knows v (served t) t) (sym (e ∙ left'))
        (known t (world (A.must A.add_client_go s)) went'
          (subst (λ v. A.Knows v (served pod) pod) (sym left) (L.client_go_known s went)))
    where
      known :
          (t : GoType) (s : A.Scheme)
          → answer (A.add_to_scheme (scheme_builder A) s) ≡ ok tt
          → A.Knows s (served pod) pod
          → A.Knows (world (A.add_to_scheme (scheme_builder A) s)) (served t) t
      known pod s went p = L.add_keeps _ s (served pod) pod p
      known scion_path_policy s went p = custom scion_path_policy s refl went
      known scion_path_policy_list s went p = custom scion_path_policy_list s refl went
      known scion_cluster_peer s went p = custom scion_cluster_peer s refl went
      known scion_cluster_peer_list s went p = custom scion_cluster_peer_list s refl went
      known scion_computed_path s went p = custom scion_computed_path s refl went
      known scion_computed_path_list s went p = custom scion_computed_path_list s refl went
