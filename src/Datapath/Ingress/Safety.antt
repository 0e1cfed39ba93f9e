-- ===== src/Datapath/Ingress/Safety.antt =====
-- No load or store of the ingress program leaves the packet.
use cilion.Base.{
  ℕ, ◌+◌, ◌*◌, ◌%◌, ◌≤◌, ◌≡◌, Bytes, length, Option, none, some, Bool, true, false, not, ◌==◌,
  length-append, if◌then◌else◌, arith,
}
use cilion.Bpf.Types.{ScionPathEntry}
use cilion.Datapath.Packet.{in_bounds, ◌>>=◌, load_be, be16, eth_p_ip, ipproto_udp, scion_udp_port}
use cilion.Datapath.Packet.Writes.{load-length}
use cilion.Datapath.Safe.{
  IsSafe, bind-IsSafe, within-IsSafe, load-IsSafe, load_be-IsSafe, store-IsSafe,
}
use cilion.Datapath.Egress.{Maps}
use cilion.Datapath.Ingress.{
  xdp_pass, verify_scion_mac, info_field_offset, dropped, rewritten, decapsulate, verified,
  from_hop_field, from_scion, from_udp, from_ip, xdp_ingress,
}

module _ (adjust_head : Bytes → ℕ → Option Bytes) where
  rewritten-IsSafe :
      (orig_eth : Bytes)
      → length orig_eth ≡ 14
      → (o : Option Bytes) → IsSafe (rewritten adjust_head orig_eth o)
  rewritten-IsSafe orig_eth size none = tt
  rewritten-IsSafe orig_eth size (some q) =
      within-IsSafe _ q _ _
        (λ long.
          store-IsSafe q orig_eth 0 _ (omega (arith, size))
            λ r e. within-IsSafe _ r _ _ (λ _. tt) tt)
        tt

  decapsulate-IsSafe :
      (p : Bytes) (size : ℕ) → 14 ≤ length p → IsSafe (decapsulate adjust_head p size)
  unfolding decapsulate
  decapsulate-IsSafe p size long = bind-IsSafe _ _ (load-IsSafe p 0 12 (omega arith)) λ addresses e.
      rewritten-IsSafe _
        (omega (arith, length-append addresses (be16 eth_p_ip), load-length p 0 12 addresses e))
        (adjust_head p size)

  verified-IsSafe :
      (p : Bytes) (scion_off hop_off size : ℕ)
      → 14 ≤ length p
      → info_field_offset scion_off + 8 ≤ length p
      → hop_off + 16 ≤ length p
      → (o : Option ScionPathEntry) → IsSafe (verified adjust_head p scion_off hop_off size o)
  verified-IsSafe p scion_off hop_off size long inf hop none = tt
  verified-IsSafe p scion_off hop_off size long inf hop (some entry) =
      bind-IsSafe _ _ (load-IsSafe p _ 8 (omega arith)) λ info e₁.
        bind-IsSafe _ _ (load-IsSafe p hop_off 16 hop) λ field e₂.
          bind-IsSafe _ _ (load-IsSafe p (hop_off + 8) 6 (omega arith))
            λ mac e₃. checked (not (verify_scion_mac entry.mac_key info field mac))
    where
      checked :
          (b : Bool) → IsSafe (if b then dropped adjust_head else decapsulate adjust_head p size)
      checked true = tt
      checked false = decapsulate-IsSafe p size long

  module _ (maps : Maps) (p : Bytes) (long : 42 ≤ length p) where
    from_hop_field-IsSafe :
        (ihl scion_off num_inf cur : ℕ)
        → scion_off + 43 ≤ length p
        → IsSafe (from_hop_field adjust_head maps p ihl scion_off num_inf cur)
    unfolding from_hop_field
    from_hop_field-IsSafe ihl scion_off num_inf cur meta =
        within-IsSafe _ p _ _
          (λ hop. bind-IsSafe _ _ (load_be-IsSafe p _ 1 (omega arith)) λ num_hf e.
            within-IsSafe _ p _ _
              (λ all.
                within-IsSafe _ p _ _
                  (λ inf.
                    verified-IsSafe p scion_off _ _ (omega arith) inf hop (maps.scion_path_cache 0))
                  tt)
              tt)
          tt

    from_scion-IsSafe : (ihl scion_off : ℕ) → IsSafe (from_scion adjust_head maps p ihl scion_off)
    unfolding from_scion
    from_scion-IsSafe ihl scion_off =
        within-IsSafe _ p _ _
          (λ _.
            within-IsSafe _ p _ _
              (λ meta. bind-IsSafe _ _ (load_be-IsSafe p _ 1 (omega arith)) λ num_inf e₁.
                bind-IsSafe _ _ (load_be-IsSafe p _ 1 (omega arith))
                  λ cur e₂. from_hop_field-IsSafe ihl scion_off num_inf cur (omega arith))
              tt)
          tt

    from_udp-IsSafe : (ihl : ℕ) → IsSafe (from_udp adjust_head maps p ihl)
    unfolding from_udp
    from_udp-IsSafe ihl =
        within-IsSafe _ p _ _
          (λ fits.
            bind-IsSafe _ _ (load_be-IsSafe p _ 2 (omega arith))
              λ dest e. addressed (not (dest == scion_udp_port)))
          tt
      where
        addressed :
            (b : Bool)
            → IsSafe (
                if b
                then in_bounds (xdp_pass p)
                else from_scion adjust_head maps p ihl (14 + ihl * 4 + 8))
        addressed true = tt
        addressed false = from_scion-IsSafe ihl (14 + ihl * 4 + 8)

    from_ip-IsSafe : IsSafe (from_ip adjust_head maps p)
    unfolding from_ip
    from_ip-IsSafe =
        within-IsSafe _ p _ _
          (λ fits.
            bind-IsSafe _ _ (load_be-IsSafe p 23 1 (omega arith))
              λ protocol e. udp (not (protocol == ipproto_udp)))
          tt
      where
        udp :
            (b : Bool)
            → IsSafe (
                if b
                then in_bounds (xdp_pass p)
                else (load_be p 14 1 >>= λ version_ihl.
                    from_udp adjust_head maps p (version_ihl % 16)))
        udp true = tt
        udp false =
            bind-IsSafe _ _ (load_be-IsSafe p 14 1 (omega arith))
              λ version_ihl e. from_udp-IsSafe (version_ihl % 16)

  -- Whatever the packet, the maps and the packets that `bpf_xdp_adjust_head` gives, every load and
  -- store of the ingress program is inside the packet.
  pub xdp_ingress-IsSafe : (maps : Maps) (p : Bytes) → IsSafe (xdp_ingress adjust_head maps p)
  unfolding xdp_ingress
  xdp_ingress-IsSafe maps p =
      within-IsSafe _ p _ _
        (λ long.
          bind-IsSafe _ _ (load_be-IsSafe p 12 2 (omega arith))
            λ h_proto e. framed long (not (h_proto == eth_p_ip)))
        tt
    where
      framed :
          42 ≤ length p
          → (b : Bool) → IsSafe (if b then in_bounds (xdp_pass p) else from_ip adjust_head maps p)
      framed long true = tt
      framed long false = from_ip-IsSafe maps p long
