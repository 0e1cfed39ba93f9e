-- ===== src/Datapath/Ingress/Verdict.antt =====
-- What the ingress program makes of a packet, by the cache entry of the local AS.
use cilion.Base.{
  ℕ, ◌+◌, ◌*◌, ◌%◌, ◌≤◌, ◌≡◌, refl, sym, ◌∙◌, ap, Bytes, length, Option, none, some, Bool, true,
  false, not, ◌&&◌, ◌==◌, leb, if◌then◌else◌, arith,
}
use cilion.Bpf.Types.{ScionPathEntry}
use cilion.Datapath.Packet.{
  Access, in_bounds, within, read, big_endian, eth_p_ip, ipproto_udp, scion_udp_port,
}
use cilion.Datapath.Packet.Bounds.{within-same, within-if, within-long, load_be-step}
use cilion.Datapath.Egress.{Maps}
use cilion.Datapath.Ingress.{
  XdpAction, xdp_pass, xdp_drop, calculate_scion_mac, verify_scion_mac, verified, from_hop_field,
  from_scion, from_udp, from_ip, xdp_ingress,
}

-- The header length that the outer IPv4 header gives, and the offset of the UDP header.
abbrev pub ihl_of : Bytes → ℕ
ihl_of p = big_endian (read 14 1 p) % 16

abbrev pub udp_offset : Bytes → ℕ
udp_offset p = 14 + ihl_of p * 4

-- A UDP packet to the SCION port, with its UDP header inside the packet.
unfoldable pub is_scion : Bytes → Bool
is_scion p =
    leb 42 (length p)
    && ((big_endian (read 12 2 p) == eth_p_ip)
        && ((big_endian (read 23 1 p) == ipproto_udp)
            && (leb (udp_offset p + 8) (length p)
                && (big_endian (read (udp_offset p + 2) 2 p) == scion_udp_port))))

module _ (adjust_head : Bytes → ℕ → Option Bytes) where
  -- The tests up to the UDP header: `x` is the verdict on a SCION packet.
  module _ (maps : Maps) (p : Bytes) (x : XdpAction) where
    verdict : Bool → Access XdpAction
    verdict b = in_bounds (if b then x else xdp_pass p)

    tested :
        (test : Bool) (rest : Bool) (m : Access XdpAction)
        → m ≡ verdict rest
        → (if not test then in_bounds (xdp_pass p) else m) ≡ verdict (test && rest)
    unfolding verdict
    tested true rest m h = h
    tested false rest m h = refl

    tested_last :
        (test : Bool) (m : Access XdpAction)
        → m ≡ verdict true
        → (if not test then in_bounds (xdp_pass p) else m) ≡ verdict test
    unfolding verdict
    tested_last true m h = h
    tested_last false m h = refl

    fitted :
        (size : ℕ) (rest : Bool) (m : Access XdpAction)
        → (size ≤ length p → m ≡ verdict rest)
        → within size p m (in_bounds (xdp_pass p)) ≡ verdict (leb size (length p) && rest)
    unfolding verdict
    fitted size rest m h =
        within-if size p m _ _ (λ fits e. h fits ∙ ap (λ b. verdict (b && rest)) (sym e))
          (λ e. ap (λ b. verdict (b && rest)) (sym e))

    pub xdp_ingress-scion :
        from_scion adjust_head maps p (ihl_of p) (udp_offset p + 8) ≡ in_bounds x
        → xdp_ingress adjust_head maps p ≡ in_bounds (if is_scion p then x else xdp_pass p)
    unfolding xdp_ingress from_ip from_udp is_scion verdict
    xdp_ingress-scion scion = fitted 42 _ _ λ long.
        load_be-step p 12 2 _ (omega arith)
        ∙ tested _ _ _ (
            within-long 34 p _ _ (omega arith)
            ∙ load_be-step p 23 1 _ (omega arith)
            ∙ tested _ _ _ (
                load_be-step p 14 1 _ (omega arith)
                ∙ fitted _ _ _ λ fits. load_be-step p _ 2 _ (omega arith) ∙ tested_last _ _ scion))

  module _ (maps : Maps) (uncached : maps.scion_path_cache 0 ≡ none) (p : Bytes) where
    from_hop_field-dropped :
        (ihl scion_off num_inf cur : ℕ)
        → scion_off + 43 ≤ length p
        → from_hop_field adjust_head maps p ihl scion_off num_inf cur ≡ in_bounds xdp_drop
    unfolding from_hop_field
    from_hop_field-dropped ihl scion_off num_inf cur meta = within-same _ p _ _ λ hop.
        load_be-step p _ 1 _ (omega arith)
        ∙ within-same _ p _ _
            λ all. within-same _ p _ _ λ inf. ap (verified adjust_head p scion_off _ _) uncached

    from_scion-dropped :
        (ihl scion_off : ℕ) → from_scion adjust_head maps p ihl scion_off ≡ in_bounds xdp_drop
    unfolding from_scion
    from_scion-dropped ihl scion_off = within-same _ p _ _ λ _. within-same _ p _ _ λ meta.
        load_be-step p _ 1 _ (omega arith)
        ∙ load_be-step p _ 1 _ (omega arith)
        ∙ from_hop_field-dropped ihl scion_off _ _ (omega arith)

    -- While the cache has no entry for key 0, the ingress program drops each UDP packet to the
    -- SCION port and passes every other packet as it is.
    pub xdp_ingress_uncached :
        xdp_ingress adjust_head maps p ≡ in_bounds (if is_scion p then xdp_drop else xdp_pass p)
    xdp_ingress_uncached =
        xdp_ingress-scion maps p xdp_drop (from_scion-dropped (ihl_of p) (udp_offset p + 8))

  -- The verdict does not depend on the key of the local AS, nor on anything else in its entry: no
  -- MAC is ever checked against a key.
  pub xdp_ingress_keyless :
      (maps maps' : Maps) (entry entry' : ScionPathEntry) (p : Bytes)
      → maps.scion_path_cache 0 ≡ some entry
      → maps'.scion_path_cache 0 ≡ some entry'
      → xdp_ingress adjust_head maps p ≡ xdp_ingress adjust_head maps' p
  unfolding xdp_ingress from_ip from_udp from_scion from_hop_field verify_scion_mac
      calculate_scion_mac
  xdp_ingress_keyless maps maps' entry entry' p cached cached' =
      ap (λ o. xdp_ingress adjust_head (holding o) p) cached
      ∙ sym (ap (λ o. xdp_ingress adjust_head (holding o) p) cached')
    where
      holding : Option ScionPathEntry → Maps
      holding o = record { pod_policy_map = λ k. none; scion_path_cache = λ policy. o }
