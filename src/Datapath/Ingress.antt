-- ===== src/Datapath/Ingress.antt =====
-- bpf/xdp_ingress.c with bpf/scion_mac.h: which packets are passed, dropped or decapsulated.
pub mod Safety
pub mod Verdict
pub mod Accepted
use cilion.Base.{
  ℕ, ◌+◌, ◌*◌, ◌/◌, ◌%◌, Bytes, length, str_eq, List, [], ◌∷◌, ◌++◌, Option, none, some, Bool, true,
  false, not, ◌==◌, leb, if◌then◌else◌,
}
use cilion.Bpf.Types.{ScionPathEntry}
use cilion.Datapath.Packet.{
  Access, in_bounds, out_of_bounds, ◌>>=◌, within, load, load_be, store, be16, sizeof_ethhdr,
  sizeof_iphdr, sizeof_udphdr, sizeof_scion_hdr, sizeof_scion_addr_hdr_v4,
  sizeof_scion_path_meta_hdr, sizeof_scion_info_field, sizeof_scion_hop_field,
  sizeof_cilium_e2e_ext, eth_p_ip, ipproto_udp, scion_udp_port,
}
use cilion.Datapath.Egress.{Maps}

-- `XDP_PASS` with the packet as it goes on, and `XDP_DROP`.
pub data XdpAction : Type 0 where
  xdp_pass : Bytes → XdpAction
  xdp_drop : XdpAction

-- `calculate_scion_mac`: the bytes that it writes, whatever the key and the fields.
unfoldable pub calculate_scion_mac : Bytes → Bytes → Bytes → Bytes
calculate_scion_mac mac_key info hop = 0 ∷ 0 ∷ 0 ∷ 0 ∷ 0 ∷ 0 ∷ []

-- `verify_scion_mac`: whether it returns 0. The MAC of a hop field is its bytes 8 to 13.
unfoldable pub verify_scion_mac : Bytes → Bytes → Bytes → Bytes → Bool
verify_scion_mac mac_key info hop mac = str_eq mac (calculate_scion_mac mac_key info hop)

-- The offsets of the headers behind a SCION header, and `path_hdr_len`.
abbrev pub path_meta_offset : ℕ → ℕ
path_meta_offset scion_off = scion_off + sizeof_scion_hdr + sizeof_scion_addr_hdr_v4

abbrev pub info_field_offset : ℕ → ℕ
info_field_offset scion_off =
    scion_off + sizeof_scion_hdr + sizeof_scion_addr_hdr_v4 + sizeof_scion_path_meta_hdr

-- `get_current_hop_field`, by `num_inf` and the byte that holds `cur_inf` and `cur_hf`.
abbrev pub hop_field_offset : ℕ → ℕ → ℕ → ℕ
hop_field_offset scion_off num_inf cur =
    info_field_offset scion_off
    + num_inf * sizeof_scion_info_field
    + cur / 4 * sizeof_scion_hop_field

abbrev pub path_hdr_len : ℕ → ℕ → ℕ
path_hdr_len num_inf num_hf =
    sizeof_scion_path_meta_hdr + num_inf * sizeof_scion_info_field + num_hf * sizeof_scion_hop_field

-- Everything between the Ethernet header and the inner IPv4 header.
abbrev pub encap_len : ℕ → ℕ → ℕ → ℕ
encap_len ihl num_inf num_hf =
    ihl * 4
    + sizeof_udphdr
    + sizeof_scion_hdr
    + sizeof_scion_addr_hdr_v4
    + path_hdr_len num_inf num_hf
    + sizeof_cilium_e2e_ext

-- `adjust_head` is `bpf_xdp_adjust_head` by a positive number of bytes: none on an error.
module _ (adjust_head : Bytes → ℕ → Option Bytes) where
  abbrev pub dropped : Access XdpAction
  dropped = in_bounds xdp_drop

  -- Steps 3 to 5 of the decapsulation, and the check of the inner header.
  abbrev pub rewritten : Bytes → Option Bytes → Access XdpAction
  rewritten orig_eth none = dropped
  rewritten orig_eth (some q) =
      within sizeof_ethhdr q
        (store q 0 orig_eth >>= λ r.
          within (sizeof_ethhdr + sizeof_iphdr) r (in_bounds (xdp_pass r)) dropped)
        dropped

  -- Steps 1 and 2: the Ethernet header is copied, and its protocol set.
  unfoldable pub decapsulate : Bytes → ℕ → Access XdpAction
  decapsulate p size =
      load p 0 12 >>= λ addresses. rewritten (addresses ++ be16 eth_p_ip) (adjust_head p size)

  -- The verification of the MAC, with the entry of the local AS.
  abbrev pub verified : Bytes → ℕ → ℕ → ℕ → Option ScionPathEntry → Access XdpAction
  verified p scion_off hop_off size none = dropped
  verified p scion_off hop_off size (some local_crypto) =
      load p (info_field_offset scion_off) sizeof_scion_info_field >>= λ info.
      load p hop_off sizeof_scion_hop_field >>= λ hop. load p (hop_off + 8) 6 >>= λ mac.
      if not (verify_scion_mac local_crypto.mac_key info hop mac)
      then dropped
      else decapsulate p size

  -- From the hop field on.
  unfoldable pub from_hop_field : Maps → Bytes → ℕ → ℕ → ℕ → ℕ → Access XdpAction
  from_hop_field maps p ihl scion_off num_inf cur =
      let hop_off = hop_field_offset scion_off num_inf cur in
      within (hop_off + sizeof_scion_hop_field) p
        (load_be p (path_meta_offset scion_off + 5) 1 >>= λ num_hf.
          within (sizeof_ethhdr + encap_len ihl num_inf num_hf) p
            (within (info_field_offset scion_off + sizeof_scion_info_field) p
              (verified p scion_off hop_off (encap_len ihl num_inf num_hf)
                (maps.scion_path_cache 0))
              dropped)
            dropped)
        dropped

  -- From the SCION header on, which is malformed if it does not fit.
  unfoldable pub from_scion : Maps → Bytes → ℕ → ℕ → Access XdpAction
  from_scion maps p ihl scion_off =
      within (scion_off + sizeof_scion_hdr) p
        (within (path_meta_offset scion_off + sizeof_scion_path_meta_hdr) p
          (load_be p (path_meta_offset scion_off + 6) 1 >>= λ num_inf.
            load_be p (path_meta_offset scion_off) 1 >>= λ cur.
            from_hop_field maps p ihl scion_off num_inf cur)
          dropped)
        dropped

  -- From the outer UDP header on.
  unfoldable pub from_udp : Maps → Bytes → ℕ → Access XdpAction
  from_udp maps p ihl =
      let udp_off = sizeof_ethhdr + ihl * 4 in
      within (udp_off + sizeof_udphdr) p
        (load_be p (udp_off + 2) 2 >>= λ dest.
          if not (dest == scion_udp_port)
          then in_bounds (xdp_pass p)
          else from_scion maps p ihl (udp_off + sizeof_udphdr))
        (in_bounds (xdp_pass p))

  -- The outer IPv4 header.
  unfoldable pub from_ip : Maps → Bytes → Access XdpAction
  from_ip maps p =
      within (sizeof_ethhdr + sizeof_iphdr) p
        (load_be p 23 1 >>= λ protocol.
          if not (protocol == ipproto_udp)
          then in_bounds (xdp_pass p)
          else (load_be p 14 1 >>= λ version_ihl. from_udp maps p (version_ihl % 16)))
        (in_bounds (xdp_pass p))

  unfoldable pub xdp_ingress : Maps → Bytes → Access XdpAction
  xdp_ingress maps p =
      within (sizeof_ethhdr + sizeof_iphdr + sizeof_udphdr) p
        (load_be p 12 2 >>= λ h_proto.
          if not (h_proto == eth_p_ip) then in_bounds (xdp_pass p) else from_ip maps p)
        (in_bounds (xdp_pass p))
