-- ===== src/Agent/Undelivered.antt =====
-- A packet between the agents of two nodes.
use cilion.Base.{
  ℕ, ◌≤◌, ◌≡◌, ap, ◌∙◌, Bytes, length, Option, some, Bool, true, if◌then◌else◌, arith,
}
use cilion.Effect.{ok, world, answer}
use cilion.Bpf.Types.{ScionPathEntry, Endian, to4}
use cilion.Bpf.Types.Keys.{AreBytes}
use cilion.Bpf.Kernel.{Kernel}
use cilion.Bpf.Loader.{Host, load, update_pod_policy, update_scion_path}
use cilion.Bpf.Loader.Descriptors.{IsKernel}
use cilion.Datapath.Packet.{in_bounds, read}
use cilion.Datapath.Egress.{tc_act_ok, encap_len, tc_egress}
use cilion.Datapath.Egress.Safety.{HasShape}
use cilion.Datapath.Egress.Forward.{is_ipv4, is_ipv4_long}
use cilion.Datapath.Egress.Outer.{IsRoom}
use cilion.Datapath.Ingress.{xdp_pass, xdp_drop, xdp_ingress}
use cilion.Datapath.Arrival.{outer-IsScion}
use cilion.Agent.{MapView, maps_of, IsPathCache, Reach}
use cilion.Agent.Configured.{configured, configured-IsOuter}
use cilion.Agent.Isolated.{IsFilledByPuts}
use cilion.Agent.Isolated.Load.{CreatesCaches}
use cilion.Agent.Isolated.Verdict.{xdp_ingress-Reach}

module _ (K : Kernel) (V : MapView K) (order : Endian) (C : IsPathCache K V order)
    (adjust_room adjust_head : Bytes → ℕ → Option Bytes) (room : IsRoom adjust_room)
    (is_open : K.World → ℕ → Bool) (L : IsKernel K is_open) (N : CreatesCaches K V)
    (F : IsFilledByPuts K V) where
  -- With kernels, maps and room that behave as documented, a sender with an `UpdatePodPolicy` for a
  -- pod's IPv4 address and then an `UpdateScionPath` for its policy that both succeed, with a path
  -- of at most 256 bytes whose next hop has four address bytes and six MAC bytes, and a receiver
  -- after a `Load` that succeeds and any further calls of the other methods of its loader: every
  -- IPv4 packet from that address for which there is room leaves the sender, and the ingress
  -- program of the receiver drops what leaves.
  pub agents_apart :
      (ip ip4 : Bytes) (policy : ℕ) (entry : ScionPathEntry) (sender s receiver : Host K)
      → to4 ip ≡ some ip4
      → AreBytes ip4
      → HasShape entry
      → entry.path_len ≤ 256
      → answer (update_pod_policy K order ip policy sender) ≡ ok tt
      → answer
          (update_scion_path K policy entry (world (update_pod_policy K order ip policy sender)))
        ≡ ok tt
      → answer (load K s) ≡ ok tt
      → Reach K order (world (load K s)) receiver
      → (p q : Bytes) → is_ipv4 p ≡ true
      → read 26 4 p ≡ ip4
      → adjust_room p (encap_len entry) ≡ some q
      → let after = configured K V order C adjust_room ip policy entry sender in
        (r : Bytes) × (tc_egress adjust_room (maps_of K V after.loader.tc_objs after.kernel) p
          ≡ in_bounds (tc_act_ok r))
        × (xdp_ingress adjust_head (maps_of K V receiver.loader.xdp_objs receiver.kernel) r
            ≡ in_bounds xdp_drop)
  unfolding encap_len
  agents_apart ip ip4 policy entry sender s receiver four small shape short fine fine' loaded
        reached p q ipv4 from made =
      let (r, run, outer, size, _) =
        configured-IsOuter K V order C adjust_room room ip ip4 policy entry sender four small shape
          short fine fine' p q ipv4 from made in
      let long : 42 ≤ length r = omega (arith, size, is_ipv4_long p ipv4, short) in
      (
        r,
        run,
        xdp_ingress-Reach K V is_open adjust_head L N F order s receiver loaded reached r
            ∙ ap (λ b. in_bounds (if b then xdp_drop else xdp_pass r))
                (outer-IsScion entry r outer long),
      )
