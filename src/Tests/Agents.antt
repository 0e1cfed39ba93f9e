-- ===== src/Tests/Agents.antt =====
-- A node whose loader and kernel programs work on one kernel in memory.
use cilion.Base.{◌≡◌, ◌+◌, refl, Bytes, length, take, drop, ◌++◌, codes, if◌then◌else◌, arith}
use cilion.Effect.{world}
use cilion.Bpf.Types.{little, to4, ip_to_key}
use cilion.Bpf.Loader.{
  Host, load, load_tc_egress_objects, load_xdp_ingress_objects, store_tc, store_xdp, load_xdp,
  update_pod_policy, delete_pod_policy, update_scion_path,
}
use cilion.Datapath.Packet.{in_bounds, read}
use cilion.Datapath.Egress.{tc_act_ok, encap_len, tc_egress}
use cilion.Datapath.Egress.Forward.{is_ipv4}
use cilion.Datapath.Egress.Outer.{IsOuter}
use cilion.Datapath.Ingress.{xdp_pass, xdp_drop, xdp_ingress}
use cilion.Datapath.Ingress.Verdict.{is_scion}
use cilion.Agent.{MapView, IsPathCache, maps_of, here, later, updating_scion_path}
use cilion.Agent.Configured.{configured, configured-IsOuter, delete_pod_policy-tc_egress}
use cilion.Agent.Isolated.Verdict.{xdp_ingress-Reach}
use cilion.Agent.Undelivered.{agents_apart}
use cilion.Tests.Memory.{is_open, memory-IsKernel}
use cilion.Tests.Memory.Maps.{
  memory_view, memory-IsPathCache, memory-CreatesCaches, memory-IsFilledByPuts,
}
use cilion.Tests.Loads.{compiled, boot, host}
use cilion.Tests.Packets.{
  adjust_room, adjust_head, adjust_room-IsRoom, zeros, pod_address, gateway, gateway-HasShape,
  pod_packet, scion_packet,
}

abbrev node : Host compiled
node = world (load compiled (host compiled boot))

abbrev view : MapView compiled
view = memory_view (codes "tc") (codes "xdp")

caches : IsPathCache compiled view little
caches = memory-IsPathCache (codes "tc") (codes "xdp")

configured-IsOuter_example :
    let after = configured compiled view little caches adjust_room pod_address 5 gateway node in
    (r : Bytes) × (tc_egress adjust_room
        (maps_of compiled view after.loader.tc_objs after.kernel)
        pod_packet
      ≡ in_bounds (tc_act_ok r))
    × IsOuter gateway r
    × (length r ≡ length pod_packet + encap_len gateway)
    × (drop (14 + encap_len gateway) r ≡ drop 14 pod_packet)
unfolding load load_tc_egress_objects load_xdp store_tc load_xdp_ingress_objects store_xdp to4
    ip_to_key is_ipv4 read update_pod_policy update_scion_path encap_len
configured-IsOuter_example =
    configured-IsOuter compiled view little caches adjust_room adjust_room-IsRoom pod_address
      pod_address 5 gateway node refl (omega arith, (omega arith, (omega arith, (omega arith, tt))))
      gateway-HasShape (omega arith) refl refl pod_packet
      (take 14 pod_packet ++ (zeros 108 ++ drop 14 pod_packet)) refl refl refl

-- After the deletion its packets pass.
delete_pod_policy-tc_egress_example :
    tc_egress adjust_room
      (maps_of compiled view node.loader.tc_objs
        (world (delete_pod_policy compiled little pod_address node)).kernel)
      pod_packet
    ≡ in_bounds (tc_act_ok pod_packet)
unfolding load load_tc_egress_objects load_xdp store_tc load_xdp_ingress_objects store_xdp to4
    ip_to_key read delete_pod_policy
delete_pod_policy-tc_egress_example =
    delete_pod_policy-tc_egress compiled view little caches adjust_room pod_address pod_address node
      refl (omega arith, (omega arith, (omega arith, (omega arith, tt)))) refl pod_packet refl

-- The path of the local AS is stored, and the ingress program does not find it.
abbrev local_stored : Host compiled
local_stored = world (update_scion_path compiled 0 gateway node)

xdp_ingress-Reach_example :
    xdp_ingress adjust_head
      (maps_of compiled view local_stored.loader.xdp_objs local_stored.kernel)
      scion_packet
    ≡ in_bounds (if is_scion scion_packet then xdp_drop else xdp_pass scion_packet)
unfolding load load_tc_egress_objects load_xdp store_tc load_xdp_ingress_objects store_xdp
xdp_ingress-Reach_example =
    xdp_ingress-Reach compiled view is_open adjust_head (memory-IsKernel (codes "tc") (codes "xdp"))
      (memory-CreatesCaches (codes "tc") (codes "xdp"))
      (memory-IsFilledByPuts (codes "tc") (codes "xdp")) little (host compiled boot) local_stored
      refl (later here (updating_scion_path 0 gateway node)) scion_packet

-- A packet of the pod, and the same node after the path of its AS is stored as the receiver.
agents_apart_example :
    let after = configured compiled view little caches adjust_room pod_address 5 gateway node in
    (r : Bytes) × (tc_egress adjust_room
        (maps_of compiled view after.loader.tc_objs after.kernel)
        pod_packet
      ≡ in_bounds (tc_act_ok r))
    × (xdp_ingress adjust_head
          (maps_of compiled view local_stored.loader.xdp_objs local_stored.kernel)
          r
        ≡ in_bounds xdp_drop)
unfolding load load_tc_egress_objects load_xdp store_tc load_xdp_ingress_objects store_xdp to4
    ip_to_key is_ipv4 read update_pod_policy update_scion_path encap_len
agents_apart_example =
    agents_apart compiled view little caches adjust_room adjust_head adjust_room-IsRoom is_open
      (memory-IsKernel (codes "tc") (codes "xdp")) (memory-CreatesCaches (codes "tc") (codes "xdp"))
      (memory-IsFilledByPuts (codes "tc") (codes "xdp")) pod_address pod_address 5 gateway node
      (host compiled boot) local_stored refl
      (omega arith, (omega arith, (omega arith, (omega arith, tt)))) gateway-HasShape (omega arith)
      refl refl refl (later here (updating_scion_path 0 gateway node)) pod_packet
      (take 14 pod_packet ++ (zeros 108 ++ drop 14 pod_packet)) refl refl refl
