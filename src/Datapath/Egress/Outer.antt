-- ===== src/Datapath/Egress/Outer.antt =====
-- The outer headers of a packet that leaves along a path.
use cilion.Base.{
  ℕ, ◌+◌, ◌-◌, ◌%◌, ◌^◌, ◌≤◌, ◌≡◌, sym, ◌∙◌, ap, Bytes, length, length-append, take, drop, ◌++◌,
  append_assoc, Option, some, false, ltb, if◌then◌else◌, arith,
}
use cilion.Bpf.Types.{ScionPathEntry}
use cilion.Datapath.Packet.{
  in_bounds, ◌>>=◌, read, write, big_endian, be16, eth_p_ip, ipproto_udp, scion_udp_port,
}
use cilion.Datapath.Packet.Bounds.{within-long, store-step}
use cilion.Datapath.Packet.Writes.{
  write-length, read-write, read-write_behind, read-write_inside, drop-write, drop-append,
  take-length, drop-length,
}
use cilion.Datapath.Egress.{
  tc_act_ok, tc_act_shot, encap_len, max_path_len, outer_ip, outer_udp, write_outer_ip,
  write_outer_udp, then_write, write_scion_headers, finish, encapsulate_in, encapsulate,
}
use cilion.Datapath.Egress.Safety.{HasShape}

-- `bpf_skb_adjust_room` with `BPF_ADJ_ROOM_MAC`: a success puts room between the MAC and the
-- network header.
abbrev pub IsRoom : (Bytes → ℕ → Option Bytes) → Type 0
IsRoom adjust_room =
    (p q : Bytes) (n : ℕ)
    → adjust_room p n ≡ some q
    → (g : Bytes) × (length g ≡ n) × (q ≡ take 14 p ++ (g ++ drop 14 p))

-- The outer headers of a packet that goes along a path.
pub record IsOuter (path : ScionPathEntry) (r : Bytes) : Type 0 where
  pub to_gateway : read 30 4 r ≡ path.next_hop_ip
  pub to_neighbour : read 0 6 r ≡ path.next_hop_mac
  pub frame_type : big_endian (read 12 2 r) ≡ eth_p_ip
  pub to_port : big_endian (read 36 2 r) ≡ scion_udp_port
  pub version_ihl : big_endian (read 14 1 r) ≡ 0x45
  pub datagram : big_endian (read 23 1 r) ≡ ipproto_udp
  pub ip_length : big_endian (read 16 2 r) ≡ (length r - 14) % 2 ^ 16
  pub udp_length : big_endian (read 38 2 r) ≡ (length r - 34) % 2 ^ 16

big_endian-be16 : (n : ℕ) → big_endian (be16 n) ≡ n % 2 ^ 16
big_endian-be16 n = omega arith

module _ (path : ScionPathEntry) (shape : HasShape path) where
  abbrev after_ip : Bytes → Bytes
  after_ip q =
      let q₂ = write 12 (be16 eth_p_ip) (write 0 path.next_hop_mac q) in
      write 30 path.next_hop_ip (write 14 (outer_ip q₂) q₂)

  abbrev outer : Bytes → Bytes
  outer q = write 34 (outer_udp (after_ip q)) (after_ip q)

  after_ip-length : (q : Bytes) → length (after_ip q) ≡ length q
  after_ip-length q = simp write-length

  outer-length : (q : Bytes) → length (outer q) ≡ length q
  outer-length q = simp write-length

  headers : (q : Bytes) → 42 ≤ length q → write_scion_headers q path ≡ in_bounds (some (outer q))
  unfolding write_scion_headers write_outer_ip write_outer_udp ◌>>=◌
  headers q long =
      ap (λ m. m >>= then_write write_outer_udp)
        (within-long 14 q _ _ (omega arith)
          ∙ store-step q _ 0 _ (omega (arith, shape.mac_six))
          ∙ store-step _ _ 12 _ (omega (arith, write-length 0 path.next_hop_mac q))
          ∙ within-long 34 _ _ _ (omega (arith, same₂))
          ∙ store-step _ _ 14 _ (omega (arith, same₂))
          ∙ store-step _ _ 30 _ (omega (arith, shape.ip_four, same₃)))
      ∙ within-long 42 (after_ip q) _ _ (omega (arith, after_ip-length q))
      ∙ store-step (after_ip q) _ 34 _ (omega (arith, after_ip-length q))
    where
      q₂ : Bytes
      q₂ = write 12 (be16 eth_p_ip) (write 0 path.next_hop_mac q)

      same₂ : length q₂ ≡ length q
      same₂ = simp write-length

      same₃ : length (write 14 (outer_ip q₂) q₂) ≡ length q
      same₃ = simp write-length

  module _ (q : Bytes) (long : 42 ≤ length q) where
    abbrev q₁ : Bytes
    q₁ = write 0 path.next_hop_mac q

    abbrev q₂ : Bytes
    q₂ = write 12 (be16 eth_p_ip) q₁

    abbrev q₃ : Bytes
    q₃ = write 14 (outer_ip q₂) q₂

    lengths : (length q₁ ≡ length q) × (length q₂ ≡ length q) × (length q₃ ≡ length q)
    lengths = (simp write-length, simp write-length, simp write-length)

    -- What is in front of the outer IPv4 header stays when the headers behind are written.
    front : (o n : ℕ) → o + n ≤ 14 → read o n (outer q) ≡ read o n q₂
    front o n h =
        read-write_behind o n 34 _ _ (omega arith)
        ∙ read-write_behind o n 30 _ _ (omega arith)
        ∙ read-write_behind o n 14 _ _ (omega arith)

    -- A part of the outer IPv4 header in front of its addresses.
    in_ip : (k n : ℕ) → k + n ≤ 12 → read (14 + k) n (outer q) ≡ read k n (outer_ip q₂)
    in_ip k n h =
        read-write_behind (14 + k) n 34 _ _ (omega arith)
        ∙ read-write_behind (14 + k) n 30 _ _ (omega arith)
        ∙ read-write_inside 14 k n (outer_ip q₂) q₂ (omega arith) (omega (arith, lengths))

    in_udp : (k n : ℕ) → k + n ≤ 8 → read (34 + k) n (outer q) ≡ read k n (outer_udp (after_ip q))
    in_udp k n h =
        read-write_inside 34 k n (outer_udp (after_ip q)) (after_ip q) (omega arith)
          (omega (arith, after_ip-length q))

    outer-IsOuter : IsOuter path (outer q)
    unfolding read
    outer-IsOuter = record {
      to_gateway =
          read-write_behind 30 4 34 _ _ (omega arith)
          ∙ ap (λ n. read 30 n (after_ip q)) (sym shape.ip_four)
          ∙ read-write 30 path.next_hop_ip q₃ (omega (arith, shape.ip_four, lengths));
      to_neighbour =
          front 0 6 (omega arith)
          ∙ read-write_behind 0 6 12 _ q₁ (omega arith)
          ∙ ap (λ n. read 0 n q₁) (sym shape.mac_six)
          ∙ read-write 0 path.next_hop_mac q (omega (arith, shape.mac_six));
      frame_type =
          ap big_endian
            (front 12 2 (omega arith) ∙ read-write 12 (be16 eth_p_ip) q₁ (omega (arith, lengths)));
      to_port = ap big_endian (in_udp 2 2 (omega arith));
      version_ihl = ap big_endian (in_ip 0 1 (omega arith));
      datagram = ap big_endian (in_ip 9 1 (omega arith));
      ip_length =
          ap big_endian (in_ip 2 2 (omega arith))
          ∙ big_endian-be16 (length q₂ - 14)
          ∙ ap (λ n. (n - 14) % 2 ^ 16) (lengths.1 ∙ sym (outer-length q));
      udp_length =
          ap big_endian (in_udp 4 2 (omega arith))
          ∙ big_endian-be16 (length (after_ip q) - 14 - 20)
          ∙ shortened (length (after_ip q)) (length (outer q))
              (after_ip-length q ∙ sym (outer-length q));
    }
      where
        shortened : (m n : ℕ) → m ≡ n → (m - 14 - 20) % 2 ^ 16 ≡ (n - 34) % 2 ^ 16
        shortened m n e = omega arith

    -- The rest of the packet is as it was.
    rest : (o : ℕ) → 42 ≤ o → drop o (outer q) ≡ drop o q
    rest o h =
        drop-write o 34 _ _ (omega arith)
        ∙ drop-write o 30 _ _ (omega (arith, shape.ip_four))
        ∙ drop-write o 14 _ _ (omega arith)
        ∙ drop-write o 12 _ _ (omega arith)
        ∙ drop-write o 0 _ _ (omega (arith, shape.mac_six))

  encap_len-value : path.path_len ≤ 256 → encap_len path ≡ 72 + path.path_len
  unfolding encap_len
  encap_len-value h = omega arith

module _ (adjust_room : Bytes → ℕ → Option Bytes) (room : IsRoom adjust_room) where
  -- What leaves along a path: the outer headers lead to the next hop of the path, and behind them
  -- and the room for the path stands the packet, unchanged from its IPv4 header on.
  pub encapsulate_lem :
      (p q : Bytes) (path : ScionPathEntry)
      → HasShape path
      → path.path_len ≤ 256
      → 14 ≤ length p
      → adjust_room p (encap_len path) ≡ some q
      → (r : Bytes) × (encapsulate adjust_room p path ≡ in_bounds (tc_act_ok r))
        × IsOuter path r
        × (length r ≡ length p + encap_len path)
        × (drop (14 + encap_len path) r ≡ drop 14 p)
  unfolding encapsulate ◌>>=◌
  encapsulate_lem p q path shape short long made =
      let (g, size, e) = room p q (encap_len path) made in
      let value = encap_len-value path shape short in
      let total : length q ≡ length p + encap_len path = omega (
        arith,
        ap length e,
        length-append (take 14 p) (g ++ drop 14 p),
        length-append g (drop 14 p),
        take-length 14 p long,
        drop-length 14 p,
        size,
      ) in
      let fits : 42 ≤ length q = omega (arith, total, value) in
      let small : ltb max_path_len path.path_len ≡ false = ground arith in
      (
        outer path shape q,
        ap
              (λ b.
                if b
                then in_bounds tc_act_shot
                else encapsulate_in adjust_room (adjust_room p (encap_len path)) path)
              small
            ∙ ap (λ o. encapsulate_in adjust_room o path) made
            ∙ ap (λ m. m >>= λ o. in_bounds (finish adjust_room o)) (headers path shape q fits),
        outer-IsOuter path shape q fits,
        outer-length path shape q ∙ total,
        rest path shape q fits (14 + encap_len path) (omega (arith, value))
            ∙ ap (drop (14 + encap_len path)) (e ∙ sym (append_assoc (take 14 p) g (drop 14 p)))
            ∙ drop-append (take 14 p ++ g) (drop 14 p) _
                (omega (arith, length-append (take 14 p) g, take-length 14 p long, size)),
      )
