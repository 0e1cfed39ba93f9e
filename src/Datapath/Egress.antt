-- ===== src/Datapath/Egress.antt =====
-- bpf/tc_egress.c: which packets are encapsulated, and the outer headers that they get. The packet
-- is linear, so `skb->len` is its length. The MSS clamp does nothing yet and is left out; so is
-- step 5 of `write_scion_headers`, which names variables that the function does not have.
pub mod Safety
pub mod Forward
pub mod Outer
pub mod Verdict
use cilion.Base.{
  ℕ, ◌+◌, ◌-◌, ◌*◌, ◌/◌, ◌%◌, ◌^◌, Bytes, length, List, [], ◌∷◌, ◌++◌, Option, none, some, Bool,
  true, false, not, ◌==◌, leb, ltb, if◌then◌else◌,
}
use cilion.Bpf.Types.{ScionPathEntry}
use cilion.Datapath.Packet.{
  Access, in_bounds, out_of_bounds, ◌>>=◌, within, load, load_be, store, be16, sizeof_ethhdr,
  sizeof_iphdr, sizeof_udphdr, sizeof_scion_hdr, sizeof_scion_addr_hdr_v4, sizeof_cilium_e2e_ext,
  eth_p_ip, ipproto_udp, scion_udp_port,
}

-- `MAX_PATH_LEN`
abbrev pub max_path_len : ℕ
max_path_len = 256

-- The two maps of bpf/maps.h, as a program looks them up: the first by the four bytes of a key.
pub record Maps : Type 0 where
  pub pod_policy_map : Bytes → Option ℕ
  pub scion_path_cache : ℕ → Option ScionPathEntry

-- `TC_ACT_OK` with the packet as it leaves, and `TC_ACT_SHOT`.
pub data TcAct : Type 0 where
  tc_act_ok : Bytes → TcAct
  tc_act_shot : TcAct

-- `parse_eth` from offset 0: the offset behind the header, or NULL.
unfoldable pub parse_eth : Bytes → Option ℕ
parse_eth p = if leb sizeof_ethhdr (length p) then some sizeof_ethhdr else none

-- `parse_ipv4`: the offset behind the header at `offset`, or NULL.
unfoldable pub parse_ipv4 : Bytes → ℕ → Access (Option ℕ)
parse_ipv4 p offset =
    within (offset + sizeof_iphdr) p
      (load_be p offset 1 >>= λ version_ihl.
        let behind = offset + version_ihl % 16 * 4 in
        within behind p (in_bounds (some behind)) (in_bounds none))
      (in_bounds none)

-- The length of the encapsulation, a `__u32`.
unfoldable pub encap_len : ScionPathEntry → ℕ
encap_len path =
    (sizeof_iphdr + sizeof_udphdr + sizeof_scion_hdr + sizeof_scion_addr_hdr_v4 + path.path_len
      + sizeof_cilium_e2e_ext)
    % 2 ^ 32

-- The outer IPv4 header up to its addresses; the outer UDP header.
abbrev pub outer_ip : Bytes → Bytes
outer_ip p =
    0x45 ∷ 0 ∷ be16 (length p - sizeof_ethhdr) ++ 0 ∷ 0 ∷ 0 ∷ 0 ∷ 64 ∷ ipproto_udp ∷ 0 ∷ 0 ∷ []

abbrev pub outer_udp : Bytes → Bytes
outer_udp p =
    be16 scion_udp_port
    ++ be16 scion_udp_port
    ++ be16 (length p - sizeof_ethhdr - sizeof_iphdr)
    ++ 0 ∷ 0 ∷ []

-- Steps 1 to 3 of `write_scion_headers`: the outer Ethernet and IPv4 headers.
unfoldable pub write_outer_ip : Bytes → ScionPathEntry → Access (Option Bytes)
write_outer_ip p path =
    within sizeof_ethhdr p
      (store p 0 path.next_hop_mac >>= λ p₁. store p₁ 12 (be16 eth_p_ip) >>= λ p₂.
        within (sizeof_ethhdr + sizeof_iphdr) p₂
          (store p₂ 14 (outer_ip p₂) >>= λ p₃.
            store p₃ 30 path.next_hop_ip >>= λ p₄. in_bounds (some p₄))
          (in_bounds none))
      (in_bounds none)

-- Step 4: the outer UDP header.
unfoldable pub write_outer_udp : Bytes → Access (Option Bytes)
write_outer_udp p =
    within (sizeof_ethhdr + sizeof_iphdr + sizeof_udphdr) p
      (store p 34 (outer_udp p) >>= λ p₁. in_bounds (some p₁)) (in_bounds none)

-- A call whose negative result is an error, `none`.
abbrev pub then_write : (Bytes → Access (Option Bytes)) → Option Bytes → Access (Option Bytes)
then_write f none = in_bounds none
then_write f (some p) = f p

unfoldable pub write_scion_headers : Bytes → ScionPathEntry → Access (Option Bytes)
write_scion_headers p path = write_outer_ip p path >>= then_write write_outer_udp

-- `adjust_room` is `bpf_skb_adjust_room` with `BPF_ADJ_ROOM_MAC`: none on an error.
module _ (adjust_room : Bytes → ℕ → Option Bytes) where
  abbrev pub finish : Option Bytes → TcAct
  finish none = tc_act_shot
  finish (some p) = tc_act_ok p

  abbrev pub encapsulate_in : Option Bytes → ScionPathEntry → Access TcAct
  encapsulate_in none path = in_bounds tc_act_shot
  encapsulate_in (some p) path = write_scion_headers p path >>= λ r. in_bounds (finish r)

  -- Steps 3 to 7 of `tc_egress`, with the path of the packet.
  unfoldable pub encapsulate : Bytes → ScionPathEntry → Access TcAct
  encapsulate p path =
      if ltb max_path_len path.path_len
      then in_bounds tc_act_shot
      else encapsulate_in (adjust_room p (encap_len path)) path

  -- Step 2: the path of a policy, if the cache has it.
  abbrev pub by_path : Bytes → Option ScionPathEntry → Access TcAct
  by_path p none = in_bounds (tc_act_ok p)
  by_path p (some path) = encapsulate p path

  -- Step 1: the policy of the source address, if it has one.
  abbrev pub by_policy : Maps → Bytes → Option ℕ → Access TcAct
  by_policy maps p none = in_bounds (tc_act_ok p)
  by_policy maps p (some policy) = by_path p (maps.scion_path_cache policy)

  abbrev pub by_header : Maps → Bytes → ℕ → Option ℕ → Access TcAct
  by_header maps p iph none = in_bounds (tc_act_ok p)
  by_header maps p iph (some behind) =
      load p (iph + 12) 4 >>= λ src_ip. by_policy maps p (maps.pod_policy_map src_ip)

  abbrev pub by_frame : Maps → Bytes → Option ℕ → Access TcAct
  by_frame maps p none = in_bounds (tc_act_ok p)
  by_frame maps p (some offset) = load_be p 12 2 >>= λ h_proto.
      if not (h_proto == eth_p_ip)
      then in_bounds (tc_act_ok p)
      else (parse_ipv4 p offset >>= by_header maps p offset)

  unfoldable pub tc_egress : Maps → Bytes → Access TcAct
  tc_egress maps p = by_frame maps p (parse_eth p)
