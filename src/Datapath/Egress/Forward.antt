-- ===== src/Datapath/Egress/Forward.antt =====
-- Which packets leave through a SCION path.
use cilion.Base.{
  ℕ, ◌+◌, ◌*◌, ◌%◌, ◌≤◌, ◌≡◌, refl, ◌∙◌, ap, Bytes, length, Option, none, some, Bool, true, false,
  not, ◌&&◌, ◌==◌, leb, leb→le, if◌then◌else◌, arith,
}
use cilion.Bpf.Types.{ScionPathEntry}
use cilion.Datapath.Packet.{Access, in_bounds, ◌>>=◌, within, load_be, read, big_endian, eth_p_ip}
use cilion.Datapath.Packet.Bounds.{load-step, load_be-step}
use cilion.Datapath.Egress.{
  Maps, TcAct, tc_act_ok, parse_eth, parse_ipv4, by_path, by_policy, by_header, by_frame, tc_egress,
}

-- An IPv4 packet whose header is inside of it.
unfoldable pub is_ipv4 : Bytes → Bool
is_ipv4 p =
    leb 14 (length p)
    && ((big_endian (read 12 2 p) == eth_p_ip)
        && (leb 34 (length p) && leb (14 + big_endian (read 14 1 p) % 16 * 4) (length p)))

pub is_ipv4_long : (p : Bytes) → is_ipv4 p ≡ true → 14 ≤ length p
unfolding is_ipv4
is_ipv4_long p h = front (leb 14 (length p)) _ refl h
  where
    front : (b c : Bool) → leb 14 (length p) ≡ b → (b && c) ≡ true → 14 ≤ length p
    front true c e h = leb→le _ _ e
    front false c e h = absurd (cc h)

abbrev pub path_of : Maps → Option ℕ → Option ScionPathEntry
path_of maps none = none
path_of maps (some policy) = maps.scion_path_cache policy

-- The path of a packet: that of the policy of its source address.
unfoldable pub route : Maps → Bytes → Option ScionPathEntry
route maps p = if is_ipv4 p then path_of maps (maps.pod_policy_map (read 26 4 p)) else none

module _ (adjust_room : Bytes → ℕ → Option Bytes) (maps : Maps) (p : Bytes) where
  routed : Bool → Access TcAct
  routed b =
      by_path adjust_room p (if b then path_of maps (maps.pod_policy_map (read 26 4 p)) else none)

  by_policy-path :
      (o : Option ℕ) → by_policy adjust_room maps p o ≡ by_path adjust_room p (path_of maps o)
  by_policy-path none = refl
  by_policy-path (some policy) = refl

  parsed :
      14 ≤ length p
      → (parse_ipv4 p 14 >>= by_header adjust_room maps p 14)
        ≡ routed (leb 34 (length p) && leb (14 + big_endian (read 14 1 p) % 16 * 4) (length p))
  unfolding parse_ipv4 routed ◌>>=◌ within
  parsed long = choose (leb 34 (length p)) refl
    where
      inner :
          (b : Bool)
          → 34 ≤ length p
          → ((if b
                then in_bounds (some (14 + big_endian (read 14 1 p) % 16 * 4))
                else in_bounds none)
              >>= by_header adjust_room maps p 14)
            ≡ routed b
      inner true fits = load-step p 26 4 _ (omega arith) ∙ by_policy-path _
      inner false fits = refl

      choose :
          (b : Bool)
          → leb 34 (length p) ≡ b
          → ((if b
                then (load_be p 14 1 >>= λ version_ihl.
                    within
                      (14 + version_ihl % 16 * 4)
                      p
                      (in_bounds (some (14 + version_ihl % 16 * 4)))
                      (in_bounds none))
                else in_bounds none)
              >>= by_header adjust_room maps p 14)
            ≡ routed (b && leb (14 + big_endian (read 14 1 p) % 16 * 4) (length p))
      choose true e =
          ap (λ m. m >>= by_header adjust_room maps p 14)
            (load_be-step p 14 1 _ (omega (arith, leb→le _ _ e)))
          ∙ inner (leb (14 + big_endian (read 14 1 p) % 16 * 4) (length p)) (leb→le _ _ e)
      choose false e = refl

  -- The egress program is the choice by the route of the packet.
  pub tc_egress-route : tc_egress adjust_room maps p ≡ by_path adjust_room p (route maps p)
  unfolding tc_egress parse_eth route is_ipv4 routed
  tc_egress-route = framed (leb 14 (length p)) refl
    where
      typed :
          (b c : Bool) (m : Access TcAct)
          → m ≡ routed c
          → (if not b then in_bounds (tc_act_ok p) else m) ≡ routed (b && c)
      typed true c m h = h
      typed false c m h = refl

      framed :
          (b : Bool)
          → leb 14 (length p) ≡ b
          → by_frame adjust_room maps p (if b then some 14 else none)
            ≡ routed (
                b
                && ((big_endian (read 12 2 p) == eth_p_ip)
                    && (leb 34 (length p)
                        && leb (14 + big_endian (read 14 1 p) % 16 * 4) (length p))))
      framed true e =
          let long = leb→le 14 (length p) e in
          load_be-step p 12 2 _ (omega arith) ∙ typed _ _ _ (parsed long)
      framed false e = refl
