-- ===== src/Bpf/Loader/Policies.antt =====
-- The pod policy map behind `UpdatePodPolicy` and `DeletePodPolicy`, by the bytes of its keys: a
-- kernel program looks a packet's source address up under its four bytes.
use cilion.Base.{ℕ, ◌≡◌, sym, ◌∙◌, ap, Bytes, str_eq, Option, none, some, if◌then◌else◌}
use cilion.Effect.{Result, ok, continue, world, answer}
use cilion.Bpf.Kernel.{Kernel}
use cilion.Bpf.Types.{Endian, uint32, put_uint32, to4, key_of_ip4, ip_to_key, ip_from_key}
use cilion.Bpf.Types.Keys.{AreBytes, ip_from_key-ip_to_key}
use cilion.Bpf.Loader.{in_kernel, Host, update_pod_policy, delete_pod_policy}

-- A view of the map by the bytes of a key, with the documented behaviour of `Put` and `Delete`: a
-- `uint32` key is stored by its bytes in the host's order.
pub record IsPolicyMap (K : Kernel) (order : Endian)
    (policy_at : K.World → Option ℕ → Bytes → Option ℕ) : Type 0 where
  pub put_ok :
      (m : Option ℕ) (key value : ℕ) (w : K.World)
      → answer (K.map_put_policy m key value w) ≡ ok tt
      → (b : Bytes)
      → policy_at (world (K.map_put_policy m key value w)) m b
        ≡ (if str_eq b (put_uint32 order key) then some value else policy_at w m b)
  pub delete_ok :
      (m : Option ℕ) (key : ℕ) (w : K.World)
      → answer (K.map_delete m key w) ≡ ok tt
      → (b : Bytes)
      → policy_at (world (K.map_delete m key w)) m b
        ≡ (if str_eq b (put_uint32 order key) then none else policy_at w m b)

module _ (K : Kernel) (order : Endian) (policy_at : K.World → Option ℕ → Bytes → Option ℕ)
    (M : IsPolicyMap K order policy_at) where
  -- The policy of a source address in the map of the loader.
  abbrev pub pod_policy : Host K → Bytes → Option ℕ
  pod_policy s b = policy_at s.kernel s.loader.tc_objs.pod_policy_map b

  key_known : (ip ip4 : Bytes) → to4 ip ≡ some ip4 → ip_to_key order ip ≡ ok (uint32 order ip4)
  unfolding ip_to_key
  key_known ip ip4 h = ap (key_of_ip4 order) h

  key_bytes :
      (ip ip4 : Bytes)
      → to4 ip ≡ some ip4
      → AreBytes ip4
      → put_uint32 order (uint32 order ip4) ≡ ip4
  unfolding ip_from_key
  key_bytes ip ip4 h small =
      (ip_from_key-ip_to_key order ip ip4 (uint32 order ip4) h small (key_known ip ip4 h)).0

  -- The two calls for an IPv4 address are the calls of the map at the key of its bytes.
  pub update_step :
      (ip ip4 : Bytes) (policy_id : ℕ) (s : Host K)
      → to4 ip ≡ some ip4
      → update_pod_policy K order ip policy_id s
        ≡ in_kernel K
            (K.map_put_policy s.loader.tc_objs.pod_policy_map (uint32 order ip4) policy_id)
            s
  unfolding update_pod_policy
  update_step ip ip4 policy_id s h =
      ap
        (λ r.
          continue (λ k. in_kernel K (K.map_put_policy s.loader.tc_objs.pod_policy_map k policy_id))
            (r, s))
        (key_known ip ip4 h)

  pub delete_step :
      (ip ip4 : Bytes) (s : Host K)
      → to4 ip ≡ some ip4
      → delete_pod_policy K order ip s
        ≡ in_kernel K (K.map_delete s.loader.tc_objs.pod_policy_map (uint32 order ip4)) s
  unfolding delete_pod_policy
  delete_step ip ip4 s h =
      ap (λ r. continue (λ k. in_kernel K (K.map_delete s.loader.tc_objs.pod_policy_map k)) (r, s))
        (key_known ip ip4 h)

  -- With a map that stores and deletes by the bytes of its keys: after an `UpdatePodPolicy` for an
  -- IPv4 address that succeeds, a packet whose source address is the pod's, in network order, finds
  -- the policy, and every other source address finds what it found before.
  pub update_pod_policy_lem :
      (ip ip4 : Bytes) (policy_id : ℕ) (s : Host K)
      → to4 ip ≡ some ip4
      → AreBytes ip4
      → answer (update_pod_policy K order ip policy_id s) ≡ ok tt
      → (src : Bytes)
      → pod_policy (world (update_pod_policy K order ip policy_id s)) src
        ≡ (if str_eq src ip4 then some policy_id else pod_policy s src)
  update_pod_policy_lem ip ip4 policy_id s h small fine src =
      let step = update_step ip ip4 policy_id s h in
      ap (λ (q : Result (Unit {0}) × Host K). pod_policy q.1 src) step
      ∙ M.put_ok _ _ policy_id s.kernel (sym (ap (λ q. q.0) step) ∙ fine) src
      ∙ ap (λ b. if str_eq src b then some policy_id else pod_policy s src)
          (key_bytes ip ip4 h small)

  -- With a map that stores and deletes by the bytes of its keys: after a `DeletePodPolicy` for an
  -- IPv4 address that succeeds, the pod's source address finds no policy, and every other finds
  -- what it found before.
  pub delete_pod_policy_lem :
      (ip ip4 : Bytes) (s : Host K)
      → to4 ip ≡ some ip4
      → AreBytes ip4
      → answer (delete_pod_policy K order ip s) ≡ ok tt
      → (src : Bytes)
      → pod_policy (world (delete_pod_policy K order ip s)) src
        ≡ (if str_eq src ip4 then none else pod_policy s src)
  delete_pod_policy_lem ip ip4 s h small fine src =
      let step = delete_step ip ip4 s h in
      ap (λ (q : Result (Unit {0}) × Host K). pod_policy q.1 src) step
      ∙ M.delete_ok _ _ s.kernel (sym (ap (λ q. q.0) step) ∙ fine) src
      ∙ ap (λ b. if str_eq src b then none else pod_policy s src) (key_bytes ip ip4 h small)
