-- ===== src/Datapath/Egress/Safety.antt =====
-- No load or store of the egress program leaves the packet, and what it leaves alone.
use cilion.Base.{
  ℕ, ◌+◌, ◌≤◌, ◌≡◌, refl, Bytes, length, Option, none, some, Bool, true, false, not, ◌==◌, leb, ltb,
  leb→le, if◌then◌else◌, arith,
}
use cilion.Bpf.Types.{ScionPathEntry}
use cilion.Datapath.Packet.{◌>>=◌, Access, in_bounds, within, eth_p_ip}
use cilion.Datapath.Safe.{
  IsSafe, bind-IsSafe, within-IsSafe, load-IsSafe, load_be-IsSafe, store-IsSafe,
}
use cilion.Datapath.Egress.{
  Maps, tc_act_ok, tc_act_shot, parse_eth, parse_ipv4, encap_len, write_outer_ip, write_outer_udp,
  write_scion_headers, then_write, max_path_len, encapsulate_in, encapsulate, by_path, by_policy,
  by_header, by_frame, tc_egress,
}

-- The fixed sizes of the arrays of an entry that the program writes out.
pub record HasShape (path : ScionPathEntry) : Type 0 where
  pub mac_six : length path.next_hop_mac ≡ 6
  pub ip_four : length path.next_hop_ip ≡ 4

write_outer_ip-IsSafe :
    (p : Bytes) (path : ScionPathEntry) → HasShape path → IsSafe (write_outer_ip p path)
unfolding write_outer_ip
write_outer_ip-IsSafe p path shape =
    within-IsSafe _ p _ _
      (λ long. store-IsSafe p _ 0 _ (omega (arith, shape.mac_six)) λ p₁ e₁.
        store-IsSafe p₁ _ 12 _ (omega arith) λ p₂ e₂.
          within-IsSafe _ p₂ _ _
            (λ longer.
              store-IsSafe p₂ _ 14 _ (omega arith)
                λ p₃ e₃. store-IsSafe p₃ _ 30 _ (omega (arith, shape.ip_four)) λ p₄ e₄. tt)
            tt)
      tt

write_outer_udp-IsSafe : (p : Bytes) → IsSafe (write_outer_udp p)
unfolding write_outer_udp
write_outer_udp-IsSafe p =
    within-IsSafe _ p _ _ (λ long. store-IsSafe p _ 34 _ (omega arith) λ p₁ e₁. tt) tt

write_scion_headers-IsSafe :
    (p : Bytes) (path : ScionPathEntry) → HasShape path → IsSafe (write_scion_headers p path)
unfolding write_scion_headers
write_scion_headers-IsSafe p path shape =
    bind-IsSafe _ _ (write_outer_ip-IsSafe p path shape) (λ o e. written o)
  where
    written : (o : Option Bytes) → IsSafe (then_write write_outer_udp o)
    written none = tt
    written (some q) = write_outer_udp-IsSafe q

parse_ipv4-IsSafe : (p : Bytes) (offset : ℕ) → IsSafe (parse_ipv4 p offset)
unfolding parse_ipv4
parse_ipv4-IsSafe p offset =
    within-IsSafe _ p _ _
      (λ h.
        bind-IsSafe _ _ (load_be-IsSafe p offset 1 (omega arith))
          λ v e. within-IsSafe _ p _ _ (λ _. tt) tt)
      tt

-- A header that is there lies inside the packet.
parse_ipv4_long :
    (p : Bytes) (offset behind : ℕ)
    → parse_ipv4 p offset ≡ in_bounds (some behind)
    → offset + 20 ≤ length p
unfolding parse_ipv4 within
parse_ipv4_long p offset behind h = choose (leb (offset + 20) (length p)) _ refl h
  where
    choose :
        (b : Bool) (m : Access (Option ℕ))
        → leb (offset + 20) (length p) ≡ b
        → (if b then m else in_bounds none) ≡ in_bounds (some behind)
        → offset + 20 ≤ length p
    choose true m e h = leb→le _ _ e
    choose false m e h = absurd (cc h)

module _ (adjust_room : Bytes → ℕ → Option Bytes) where
  encapsulate-IsSafe :
      (p : Bytes) (path : ScionPathEntry) → HasShape path → IsSafe (encapsulate adjust_room p path)
  unfolding encapsulate
  encapsulate-IsSafe p path shape = choose (ltb max_path_len path.path_len)
    where
      into : (o : Option Bytes) → IsSafe (encapsulate_in adjust_room o path)
      into none = tt
      into (some q) = bind-IsSafe _ _ (write_scion_headers-IsSafe q path shape) (λ r e. tt)

      choose :
          (b : Bool)
          → IsSafe (
              if b
              then in_bounds tc_act_shot
              else encapsulate_in adjust_room (adjust_room p (encap_len path)) path)
      choose true = tt
      choose false = into (adjust_room p (encap_len path))

  module _ (maps : Maps)
      (shaped : (policy : ℕ) (path : ScionPathEntry)
        → maps.scion_path_cache policy ≡ some path
        → HasShape path)
      (p : Bytes) where
    by_policy-IsSafe : (o : Option ℕ) → IsSafe (by_policy adjust_room maps p o)
    by_policy-IsSafe none = tt
    by_policy-IsSafe (some policy) = cached (maps.scion_path_cache policy) refl
      where
        cached :
            (o : Option ScionPathEntry)
            → maps.scion_path_cache policy ≡ o
            → IsSafe (by_path adjust_room p o)
        cached none e = tt
        cached (some path) e = encapsulate-IsSafe p path (shaped policy path e)

    by_header-IsSafe :
        (o : Option ℕ) → parse_ipv4 p 14 ≡ in_bounds o → IsSafe (by_header adjust_room maps p 14 o)
    by_header-IsSafe none e = tt
    by_header-IsSafe (some behind) e =
        let long = parse_ipv4_long p 14 behind e in
        bind-IsSafe _ _ (load-IsSafe p 26 4 (omega arith))
          λ src q. by_policy-IsSafe (maps.pod_policy_map src)

    -- If each entry of the path cache has a next hop of four address bytes and six MAC bytes: every
    -- load and store of the egress program before step 5 of `write_scion_headers` is inside the
    -- packet, whatever the packet and whatever `bpf_skb_adjust_room` gives. The accesses of step 5,
    -- which have no test against the end of the packet, are not covered.
    pub tc_egress-IsSafe : IsSafe (tc_egress adjust_room maps p)
    unfolding tc_egress parse_eth
    tc_egress-IsSafe = framed (leb 14 (length p)) refl
      where
        known :
            (b : Bool)
            → IsSafe (
                if b
                then in_bounds (tc_act_ok p)
                else (parse_ipv4 p 14 >>= by_header adjust_room maps p 14))
        known true = tt
        known false = bind-IsSafe _ _ (parse_ipv4-IsSafe p 14) by_header-IsSafe

        framed :
            (b : Bool)
            → leb 14 (length p) ≡ b
            → IsSafe (by_frame adjust_room maps p (if b then some 14 else none))
        framed true e =
            let long = leb→le 14 (length p) e in
            bind-IsSafe _ _ (load_be-IsSafe p 12 2 (omega arith))
              λ h_proto q. known (not (h_proto == eth_p_ip))
        framed false e = tt
