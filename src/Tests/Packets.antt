-- ===== src/Tests/Packets.antt =====
-- Packets of a pod and of a SCION gateway, before maps at concrete values.
use cilion.Base.{
  ℕ, zero, suc, ◌≡◌, refl, sym, ap, subst, Bytes, length, str_eq, take, drop, [], ◌∷◌, ◌++◌, Option,
  none, some, if◌then◌else◌,
}
use cilion.Bpf.Types.{ScionPathEntry}
use cilion.Datapath.Packet.{in_bounds, ◌>>=◌, within, load, load_be, read, store, write}
use cilion.Datapath.Safe.{IsSafe}
use cilion.Datapath.Egress.{Maps, TcAct, encap_len, tc_egress}
use cilion.Datapath.Egress.Safety.{HasShape, tc_egress-IsSafe}
use cilion.Datapath.Egress.Verdict.{Verdict, tc_egress-Verdict}
use cilion.Datapath.Egress.Outer.{IsRoom}
use cilion.Datapath.Ingress.{
  xdp_pass, xdp_drop, xdp_ingress, from_ip, from_udp, from_scion, from_hop_field, decapsulate,
  verify_scion_mac, calculate_scion_mac,
}
use cilion.Datapath.Ingress.Safety.{xdp_ingress-IsSafe}
use cilion.Datapath.Ingress.Accepted.{encapsulation, is_accepted, inner, xdp_ingress_lem}
use cilion.Datapath.Ingress.Verdict.{is_scion, xdp_ingress_uncached, xdp_ingress_keyless}

abbrev pub zeros : ℕ → Bytes
zeros zero = []
zeros (suc n) = 0 ∷ zeros n

pub zeros-length : (n : ℕ) → length (zeros n) ≡ n
zeros-length zero = refl
zeros-length (suc n) = ap suc (zeros-length n)

-- Room of zeros behind the MAC header, and a head that moves up.
abbrev pub adjust_room : Bytes → ℕ → Option Bytes
adjust_room p n = some (take 14 p ++ (zeros n ++ drop 14 p))

abbrev pub adjust_head : Bytes → ℕ → Option Bytes
adjust_head p n = some (drop n p)

abbrev pub bytes_or : Option Bytes → Bytes
bytes_or none = []
bytes_or (some q) = q

pub adjust_room-IsRoom : IsRoom adjust_room
adjust_room-IsRoom p q n e = (zeros n, zeros-length n, sym (ap bytes_or e))

abbrev pub pod_address : Bytes
pod_address = 10 ∷ 0 ∷ 0 ∷ 7 ∷ []

-- A path of two segments' worth of bytes to a gateway.
abbrev pub gateway : ScionPathEntry
gateway = record {
  next_hop_ip = 192 ∷ 0 ∷ 2 ∷ 1 ∷ [];
  next_hop_mac = 2 ∷ 0 ∷ 0 ∷ 0 ∷ 0 ∷ 9 ∷ [];
  path_len = 36;
  hop_fields = zeros 256;
  mac_key = zeros 16;
}

-- An Ethernet and an IPv4 header, the latter of a packet from the pod.
abbrev pub pod_packet : Bytes
pod_packet =
    zeros 12 ++ (8 ∷ 0 ∷ 0x45 ∷ zeros 11 ++ (pod_address ++ (10 ∷ 1 ∷ 0 ∷ 3 ∷ 104 ∷ 105 ∷ [])))

-- A UDP packet to the SCION port with one info field and one hop field, whose MAC is zero, around
-- an IPv4 header.
abbrev pub scion_packet : Bytes
scion_packet =
    zeros 12
    ++ (8 ∷ 0 ∷ 0x45 ∷ zeros 8
        ++ (17 ∷ zeros 10
            ++ (0 ∷ 0 ∷ 0x75 ∷ 0x59 ∷ 0 ∷ 8 ∷ 0 ∷ 0 ∷ zeros 36
                ++ (zeros 5 ++ (1 ∷ 1 ∷ zeros 8 ++ (zeros 16 ++ (zeros 8 ++ (0x45 ∷ zeros 19))))))))

abbrev entry_or : ScionPathEntry → Option ScionPathEntry → ScionPathEntry
entry_or d none = d
entry_or d (some entry) = entry

abbrev maps : Maps
maps = record { pod_policy_map = λ ip. some 5; scion_path_cache = λ policy. some gateway }

abbrev pub gateway-HasShape : HasShape gateway
gateway-HasShape = record { mac_six = refl; ip_four = refl }

abbrev keyed : ScionPathEntry → Maps
keyed entry = record { pod_policy_map = λ ip. none; scion_path_cache = λ policy. some entry }

abbrev no_paths : Maps
no_paths = record { pod_policy_map = λ ip. none; scion_path_cache = λ policy. none }

tc_egress-IsSafe_example : IsSafe (tc_egress adjust_room maps pod_packet)
tc_egress-IsSafe_example =
    tc_egress-IsSafe adjust_room maps
      (λ policy path e. subst HasShape (ap (entry_or gateway) e) gateway-HasShape) pod_packet

tc_egress-Verdict_example :
    (act : TcAct) × (tc_egress adjust_room maps pod_packet ≡ in_bounds act)
    × Verdict adjust_room maps pod_packet act
tc_egress-Verdict_example =
    tc_egress-Verdict adjust_room adjust_room-IsRoom maps
      (λ policy path e. subst HasShape (ap (entry_or gateway) e) gateway-HasShape) pod_packet

xdp_ingress-IsSafe_example : IsSafe (xdp_ingress adjust_head maps scion_packet)
xdp_ingress-IsSafe_example = xdp_ingress-IsSafe adjust_head maps scion_packet

dropped :
    xdp_ingress adjust_head no_paths scion_packet
    ≡ in_bounds (if is_scion scion_packet then xdp_drop else xdp_pass scion_packet)
dropped = xdp_ingress_uncached adjust_head no_paths refl scion_packet

xdp_ingress_lem_example :
    xdp_ingress adjust_head maps scion_packet
    ≡ in_bounds (
        if is_scion scion_packet
        then if is_accepted (some gateway) scion_packet
          then xdp_pass (inner scion_packet (encapsulation scion_packet))
          else xdp_drop
        else xdp_pass scion_packet)
xdp_ingress_lem_example = xdp_ingress_lem adjust_head (λ p n h. refl) scion_packet maps

-- Any key is as good as another.
other_key :
    xdp_ingress adjust_head (keyed gateway) scion_packet
    ≡ xdp_ingress adjust_head (keyed (record gateway { mac_key = 1 ∷ zeros 15 })) scion_packet
other_key =
    xdp_ingress_keyless adjust_head (keyed gateway)
      (keyed (record gateway { mac_key = 1 ∷ zeros 15 })) gateway
      (record gateway { mac_key = 1 ∷ zeros 15 }) scion_packet refl refl

-- The zero MAC passes, and the inner packet goes up.
decapsulated :
    xdp_ingress adjust_head maps scion_packet
    ≡ in_bounds (xdp_pass (zeros 12 ++ (8 ∷ 0 ∷ 0x45 ∷ zeros 19)))
unfolding xdp_ingress from_ip from_udp from_scion from_hop_field decapsulate verify_scion_mac
    calculate_scion_mac ◌>>=◌ within load load_be read store write str_eq
decapsulated = refl

-- The packet of the pod leaves in an IPv4 packet to the gateway.
encapsulated : encap_len gateway ≡ 108
unfolding encap_len
encapsulated = refl
