-- ===== src/Datapath/Arrival.antt =====
-- What leaves through the egress program of one node, before the ingress program of another.
use cilion.Base.{◌+◌, ◌%◌, ◌≤◌, ◌≡◌, ap, ◌∙◌, Bytes, length, Bool, true, ◌&&◌, ◌==◌, le→leb, arith}
use cilion.Bpf.Types.{ScionPathEntry}
use cilion.Datapath.Packet.{read, big_endian, eth_p_ip, ipproto_udp, scion_udp_port}
use cilion.Datapath.Egress.Outer.{IsOuter}
use cilion.Datapath.Ingress.Verdict.{ihl_of, udp_offset, is_scion}

all_true :
    (a b c d : Bool) → a ≡ true → b ≡ true → c ≡ true → d ≡ true → (a && (b && (c && d))) ≡ true
all_true a b c d ha hb hc hd = rw (ha, hb, hc, hd)

module _ (path : ScionPathEntry) (r : Bytes) (outer : IsOuter path r) where
  five : ihl_of r ≡ 5
  five = ap (λ n. n % 16) outer.version_ihl

  -- A packet with these outer headers is a UDP packet to the SCION port.
  pub outer-IsScion : 42 ≤ length r → is_scion r ≡ true
  unfolding is_scion
  outer-IsScion long =
      let at_34 : udp_offset r ≡ 34 = omega (arith, five) in
      rw (le→leb 42 (length r) long) (
        all_true _ _ _ _ (ap (λ n. n == eth_p_ip) outer.frame_type)
          (ap (λ n. n == ipproto_udp) outer.datagram)
          (le→leb (udp_offset r + 8) (length r) (omega (arith, at_34)))
          (ap (λ n. big_endian (read (n + 2) 2 r) == scion_udp_port) at_34
            ∙ ap (λ n. n == scion_udp_port) outer.to_port))
