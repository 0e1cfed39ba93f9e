-- ===== src/Agent/Configured.antt =====
-- From the loader's calls to the packets of a pod.
use cilion.Base.{
  ℕ, ◌+◌, ◌≤◌, ◌≡◌, refl, ◌∙◌, ap, Bytes, length, drop, str_eq_refl, Option, none, some, Bool, true,
  false, ◌==◌, if◌then◌else◌, arith,
}
use cilion.Effect.{Result, ok, world, answer}
use cilion.Bpf.Types.{ScionPathEntry, Endian, to4}
use cilion.Bpf.Types.Keys.{AreBytes}
use cilion.Bpf.Kernel.{Kernel}
use cilion.Bpf.Loader.{Host, update_pod_policy, delete_pod_policy, update_scion_path}
use cilion.Bpf.Loader.Policies.{update_step, update_pod_policy_lem, delete_pod_policy_lem}
use cilion.Datapath.Packet.{in_bounds, read}
use cilion.Datapath.Egress.{Maps, tc_act_ok, encap_len, by_path, tc_egress}
use cilion.Datapath.Egress.Safety.{HasShape}
use cilion.Datapath.Egress.Forward.{is_ipv4, is_ipv4_long, path_of, route, tc_egress-route}
use cilion.Datapath.Egress.Outer.{IsRoom, IsOuter, encapsulate_lem}
use cilion.Agent.{MapView, maps_of, IsPathCache}

module _ (K : Kernel) (V : MapView K) (order : Endian) (C : IsPathCache K V order)
    (adjust_room : Bytes → ℕ → Option Bytes) where
  -- The maps that the egress program sees.
  abbrev pub tc_maps : Host K → Maps
  tc_maps s = maps_of K V s.loader.tc_objs s.kernel

  -- The calls that send the packets of a pod along a path, when the first one succeeds.
  abbrev pub configured : Bytes → ℕ → ScionPathEntry → Host K → Host K
  configured ip policy entry s =
      world (update_scion_path K policy entry (world (update_pod_policy K order ip policy s)))

  route-found :
      (maps : Maps) (p ip4 : Bytes) (policy : ℕ)
      → is_ipv4 p ≡ true
      → read 26 4 p ≡ ip4
      → maps.pod_policy_map ip4 ≡ some policy
      → route maps p ≡ maps.scion_path_cache policy
  unfolding route
  route-found maps p ip4 policy ipv4 from found = rw (ipv4, from, found)

  found_path :
      (ip ip4 : Bytes) (policy : ℕ) (entry : ScionPathEntry) (s : Host K)
      → to4 ip ≡ some ip4
      → AreBytes ip4
      → answer (update_pod_policy K order ip policy s) ≡ ok tt
      → answer (update_scion_path K policy entry (world (update_pod_policy K order ip policy s)))
        ≡ ok tt
      → (p : Bytes) → is_ipv4 p ≡ true
      → read 26 4 p ≡ ip4
      → route (tc_maps (configured ip policy entry s)) p ≡ some entry
  unfolding maps_of update_scion_path
  found_path ip ip4 policy entry s four small fine fine' p ipv4 from =
      let M = C.policies in
      let step = update_step K order V.policy_at M ip ip4 policy s four in
      let t = world (update_pod_policy K order ip policy s) in
      let same : t.loader.tc_objs ≡ s.loader.tc_objs =
        ap (λ (q : Result (Unit {0}) × Host K). q.1.loader.tc_objs) step in
      let put =
        C.path_put_ok t.loader.tc_objs.scion_path_cache policy entry t.kernel fine' policy in
      let stored =
        C.path_put_frame t.loader.tc_objs.scion_path_cache t.loader.tc_objs.pod_policy_map policy
          entry t.kernel ip4
        ∙ update_pod_policy_lem K order V.policy_at M ip ip4 policy s four small fine ip4
        ∙ ap
            (λ b.
              if b then some policy else V.policy_at s.kernel s.loader.tc_objs.pod_policy_map ip4)
            (str_eq_refl ip4) in
      route-found (tc_maps (configured ip policy entry s)) p ip4 policy ipv4 from stored
      ∙ put
      ∙ chosen (policy == policy) _ (eq_refl policy)
    where
      eq_refl : (n : ℕ) → (n == n) ≡ true
      eq_refl n = ground arith

      chosen :
          (b : Bool) (o : Option ScionPathEntry)
          → b ≡ true
          → (if b then some entry else o) ≡ some entry
      chosen b o h = rw h

  -- With maps and room that behave as documented: after an `UpdatePodPolicy` for a pod's IPv4
  -- address and then an `UpdateScionPath` for its policy that both succeed, with a path of at most
  -- 256 bytes whose next hop has four address bytes and six MAC bytes, every IPv4 packet from that
  -- address for which there is room leaves along the path. Its outer headers lead to the path's
  -- next hop, and behind them and the room for the path stands the packet, unchanged from its IPv4
  -- header on.
  pub configured-IsOuter :
      (room : IsRoom adjust_room) (ip ip4 : Bytes) (policy : ℕ) (entry : ScionPathEntry)
      (s : Host K)
      → to4 ip ≡ some ip4
      → AreBytes ip4
      → HasShape entry
      → entry.path_len ≤ 256
      → answer (update_pod_policy K order ip policy s) ≡ ok tt
      → answer (update_scion_path K policy entry (world (update_pod_policy K order ip policy s)))
        ≡ ok tt
      → (p q : Bytes) → is_ipv4 p ≡ true
      → read 26 4 p ≡ ip4
      → adjust_room p (encap_len entry) ≡ some q
      → (r : Bytes) × (tc_egress adjust_room (tc_maps (configured ip policy entry s)) p
          ≡ in_bounds (tc_act_ok r))
        × IsOuter entry r
        × (length r ≡ length p + encap_len entry)
        × (drop (14 + encap_len entry) r ≡ drop 14 p)
  configured-IsOuter room ip ip4 policy entry s four small shape short fine fine' p q ipv4 from
        made =
      let (r, run, outer, size, kept) =
        encapsulate_lem adjust_room room p q entry shape short (is_ipv4_long p ipv4) made in
      (
        r,
        tc_egress-route adjust_room (tc_maps (configured ip policy entry s)) p
            ∙ ap (by_path adjust_room p)
                (found_path ip ip4 policy entry s four small fine fine' p ipv4 from)
            ∙ run,
        outer,
        size,
        kept,
      )

  -- With maps that behave as documented: after a `DeletePodPolicy` for a pod's IPv4 address that
  -- succeeds, every IPv4 packet from that address passes as it is.
  pub delete_pod_policy-tc_egress :
      (ip ip4 : Bytes) (s : Host K)
      → to4 ip ≡ some ip4
      → AreBytes ip4
      → answer (delete_pod_policy K order ip s) ≡ ok tt
      → (p : Bytes) → read 26 4 p ≡ ip4
      → tc_egress adjust_room (tc_maps (world (delete_pod_policy K order ip s))) p
        ≡ in_bounds (tc_act_ok p)
  unfolding route maps_of
  delete_pod_policy-tc_egress ip ip4 s four small fine p from =
      let t = world (delete_pod_policy K order ip s) in
      let gone : V.policy_at t.kernel t.loader.tc_objs.pod_policy_map (read 26 4 p) ≡ none =
        ap (V.policy_at t.kernel t.loader.tc_objs.pod_policy_map) from
        ∙ delete_pod_policy_lem K order V.policy_at C.policies ip ip4 s four small fine ip4
        ∙ ap (λ b. if b then none else V.policy_at s.kernel s.loader.tc_objs.pod_policy_map ip4)
            (str_eq_refl ip4) in
      tc_egress-route adjust_room (tc_maps t) p
      ∙ ap (by_path adjust_room p) (unrouted (is_ipv4 p) (tc_maps t) gone)
    where
      unrouted :
          (b : Bool) (maps : Maps)
          → maps.pod_policy_map (read 26 4 p) ≡ none
          → (if b then path_of maps (maps.pod_policy_map (read 26 4 p)) else none) ≡ none
      unrouted true maps h = ap (path_of maps) h
      unrouted false maps h = refl
