-- ===== src/Datapath/Ingress/Accepted.antt =====
-- What the ingress program makes of every packet, when the head of a packet moves as documented.
use cilion.Base.{
  ℕ, ◌+◌, ◌-◌, ◌*◌, ◌/◌, ◌≤◌, ◌≡◌, refl, sym, ◌∙◌, ap, Bytes, length, length-append, take, drop,
  str_eq, [], ◌∷◌, ◌++◌, Option, none, some, Bool, true, false, not, ◌&&◌, leb, if◌then◌else◌,
  arith,
}
use cilion.Bpf.Types.{ScionPathEntry}
use cilion.Datapath.Packet.{
  Access, in_bounds, within, overlay, write, read, big_endian, be16, eth_p_ip,
}
use cilion.Datapath.Packet.Bounds.{within-if, within-long, load-step, load_be-step, store-step}
use cilion.Datapath.Packet.Writes.{take-length, drop-length, write-length}
use cilion.Datapath.Egress.{Maps}
use cilion.Datapath.Ingress.{
  XdpAction, xdp_pass, xdp_drop, calculate_scion_mac, verify_scion_mac, path_meta_offset,
  hop_field_offset, encap_len, rewritten, decapsulate, verified, from_hop_field, from_scion,
  xdp_ingress,
}
use cilion.Datapath.Ingress.Verdict.{ihl_of, udp_offset, is_scion, xdp_ingress-scion}

-- `bpf_xdp_adjust_head` by a positive number: it succeeds if a MAC header is left.
abbrev pub IsHead : (Bytes → ℕ → Option Bytes) → Type 0
IsHead adjust_head = (p : Bytes) (n : ℕ) → 14 + n ≤ length p → adjust_head p n ≡ some (drop n p)

-- The fields of a SCION packet.
abbrev pub scion_offset : Bytes → ℕ
scion_offset p = udp_offset p + 8

abbrev pub num_inf : Bytes → ℕ
num_inf p = big_endian (read (path_meta_offset (scion_offset p) + 6) 1 p)

abbrev pub num_hf : Bytes → ℕ
num_hf p = big_endian (read (path_meta_offset (scion_offset p) + 5) 1 p)

-- The current hop field stands behind 43 bytes of SCION headers, the info fields of 8 bytes and
-- the hop fields of 16 bytes before it; the upper six bits of the first byte of the path say which
-- one it is.
abbrev pub hop_offset : Bytes → ℕ
hop_offset p =
    scion_offset p
    + 43
    + num_inf p * 8
    + big_endian (read (path_meta_offset (scion_offset p)) 1 p) / 4 * 16

-- The outer IPv4 header, and 59 bytes of headers beside the info fields and the hop fields.
abbrev pub encapsulation : Bytes → ℕ
encapsulation p = ihl_of p * 4 + 59 + num_inf p * 8 + num_hf p * 16

abbrev pub is_cached : Option ScionPathEntry → Bool
is_cached none = false
is_cached (some entry) = true

abbrev accepts : ℕ → ℕ → Option ScionPathEntry → Bytes → Bool
accepts hop size local_crypto p =
    leb (path_meta_offset (scion_offset p) + 7) (length p)
    && (leb (hop + 16) (length p)
        && (leb (34 + size) (length p)
            && (is_cached local_crypto
                && str_eq (read (hop + 8) 6 p) (0 ∷ 0 ∷ 0 ∷ 0 ∷ 0 ∷ 0 ∷ []))))

-- Its headers, its hop field and an inner IPv4 header lie inside the packet, the MAC of its hop
-- field is zero, and there is a key.
unfoldable pub is_accepted : Option ScionPathEntry → Bytes → Bool
is_accepted local_crypto p = accepts (hop_offset p) (encapsulation p) local_crypto p

-- The inner packet behind the MAC addresses of the outer one.
abbrev pub inner : Bytes → ℕ → Bytes
inner p size = (take 12 p ++ be16 eth_p_ip) ++ drop 14 (drop size p)

overlay-append : (v p : Bytes) → length v ≤ length p → overlay v p ≡ v ++ drop (length v) p
overlay-append [] p h = refl
overlay-append (x ∷ v) [] h = absurd (omega arith)
overlay-append (x ∷ v) (b ∷ p) h = ap (λ l. x ∷ l) (overlay-append v p (omega arith))

module _ (adjust_head : Bytes → ℕ → Option Bytes) (head : IsHead adjust_head) (p : Bytes) where
  -- A packet that passes if a test holds, and is dropped otherwise.
  abbrev if_passed : Bool → Bytes → Access XdpAction
  if_passed b q = in_bounds (if b then xdp_pass q else xdp_drop)

  -- A test that a later, stronger one makes redundant, and one that counts.
  implied_test :
      (size more : ℕ) (rest : Bool) (m : Access XdpAction) (q : Bytes)
      → size ≤ more
      → (size ≤ length p → m ≡ if_passed (leb more (length p) && rest) q)
      → within size p m (in_bounds xdp_drop) ≡ if_passed (leb more (length p) && rest) q
  implied_test size more rest m q h k =
      within-if size p m _ _ (λ fits e. k fits)
        λ e. sym (ap (λ b. if_passed (b && rest) q) (short e))
    where
      short : leb size (length p) ≡ false → leb more (length p) ≡ false
      short e = ground arith

  test :
      (size : ℕ) (rest : Bool) (m : Access XdpAction) (q : Bytes)
      → (size ≤ length p → m ≡ if_passed rest q)
      → within size p m (in_bounds xdp_drop) ≡ if_passed (leb size (length p) && rest) q
  test size rest m q k =
      within-if size p m _ _ (λ fits e. k fits ∙ ap (λ b. if_passed (b && rest) q) (sym e))
        λ e. ap (λ b. if_passed (b && rest) q) (sym e)

  eth-length : 12 ≤ length p → length (take 12 p ++ be16 eth_p_ip) ≡ 14
  eth-length h = omega (arith, length-append (take 12 p) (be16 eth_p_ip), take-length 12 p h)

  -- The packet behind a head that was moved, with the MAC header put back.
  rewritten_lem :
      (size : ℕ)
      → 14 + size ≤ length p
      → rewritten adjust_head (take 12 p ++ be16 eth_p_ip) (some (drop size p))
        ≡ if_passed (leb (34 + size) (length p)) (inner p size)
  unfolding within write
  rewritten_lem size h =
      let eth = take 12 p ++ be16 eth_p_ip in
      let q = drop size p in
      let fourteen = eth-length (omega arith) in
      let short = drop-length size p in
      within-long 14 q _ _ (omega (arith, short))
      ∙ store-step q eth 0 _ (omega (arith, short, fourteen))
      ∙ chosen _ _ _ _ (same_test (length (write 0 eth q)) (write-length 0 eth q ∙ short)) (
          overlay-append eth q (omega (arith, short, fourteen))
          ∙ ap (λ n. eth ++ drop n q) fourteen)
    where
      same_test : (n : ℕ) → n ≡ length p - size → leb 34 n ≡ leb (34 + size) (length p)
      same_test n e = ground arith

      chosen :
          (b c : Bool) (r s : Bytes)
          → b ≡ c
          → r ≡ s
          → (if b then in_bounds (xdp_pass r) else in_bounds xdp_drop) ≡ if_passed c s
      chosen true c r s e t = rw (sym e, t)
      chosen false c r s e t = rw (sym e)

  decapsulate_lem :
      (size : ℕ)
      → 14 + size ≤ length p
      → decapsulate adjust_head p size ≡ if_passed (leb (34 + size) (length p)) (inner p size)
  unfolding decapsulate read
  decapsulate_lem size h =
      load-step p 0 12 _ (omega arith)
      ∙ ap (rewritten adjust_head (take 12 p ++ be16 eth_p_ip)) (head p size h)
      ∙ rewritten_lem size h

  verified_lem :
      (scion_off hop_off size : ℕ) (o : Option ScionPathEntry)
      → path_meta_offset scion_off + 15 ≤ length p
      → hop_off + 16 ≤ length p
      → 14 + size ≤ length p
      → verified adjust_head p scion_off hop_off size o
        ≡ if_passed
            (leb (34 + size) (length p)
              && (is_cached o && str_eq (read (hop_off + 8) 6 p) (0 ∷ 0 ∷ 0 ∷ 0 ∷ 0 ∷ 0 ∷ [])))
            (inner p size)
  unfolding verify_scion_mac calculate_scion_mac
  verified_lem scion_off hop_off size none inf hop all = sym (never (leb (34 + size) (length p)))
    where
      never : (b : Bool) → if_passed (b && false) (inner p size) ≡ in_bounds xdp_drop
      never true = refl
      never false = refl
  verified_lem scion_off hop_off size (some entry) inf hop all =
      load-step p _ 8 _ (omega arith)
      ∙ load-step p hop_off 16 _ hop
      ∙ load-step p (hop_off + 8) 6 _ (omega arith)
      ∙ checked (leb (34 + size) (length p))
          (str_eq (read (hop_off + 8) 6 p) (0 ∷ 0 ∷ 0 ∷ 0 ∷ 0 ∷ 0 ∷ [])) _
          (decapsulate_lem size all)
    where
      checked :
          (a mac : Bool) (m : Access XdpAction)
          → m ≡ if_passed a (inner p size)
          → (if not mac then in_bounds xdp_drop else m) ≡ if_passed (a && mac) (inner p size)
      checked true true m h = h
      checked false true m h = h
      checked true false m h = refl
      checked false false m h = refl

  module _ (maps : Maps) where
    -- The offsets of the code.
    hop : ℕ
    hop =
        hop_field_offset (scion_offset p) (num_inf p)
          (big_endian (read (path_meta_offset (scion_offset p)) 1 p))

    size : ℕ
    size = encap_len (ihl_of p) (num_inf p) (num_hf p)

    from_scion_lem :
        from_scion adjust_head maps p (ihl_of p) (scion_offset p)
        ≡ if_passed (accepts hop size (maps.scion_path_cache 0) p) (inner p size)
    unfolding from_scion from_hop_field hop size
    from_scion_lem = implied_test _ _ _ _ _ (omega arith) λ _. test _ _ _ _ λ meta.
        load_be-step p _ 1 _ (omega arith)
        ∙ load_be-step p _ 1 _ (omega arith)
        ∙ test _ _ _ _ λ field.
          load_be-step p _ 1 _ (omega arith)
          ∙ implied_test _ _ _ _ _ (omega arith) λ all.
            within-long _ p _ _ (omega arith)
            ∙ verified_lem (scion_offset p) hop size (maps.scion_path_cache 0) (omega arith) field
                all

    -- If the head of a packet moves as documented, the ingress program passes every packet that is
    -- not UDP to the SCION port as it is. It passes the inner packet of a SCION packet, behind the
    -- MAC header, exactly if the headers, the hop field and an inner IPv4 header lie inside the
    -- packet, the cache has an entry for key 0 and the MAC of the hop field is zero, whatever the
    -- key of the entry, and drops every other SCION packet.
    pub xdp_ingress_lem :
        xdp_ingress adjust_head maps p
        ≡ in_bounds (
            if is_scion p
            then if is_accepted (maps.scion_path_cache 0) p
              then xdp_pass (inner p (encapsulation p))
              else xdp_drop
            else xdp_pass p)
    unfolding is_accepted hop size
    xdp_ingress_lem =
        let same_hop : hop ≡ hop_offset p = omega arith in
        let same_size : size ≡ encapsulation p = omega arith in
        xdp_ingress-scion adjust_head maps p _ (
          from_scion_lem
          ∙ ap (λ h. if_passed (accepts h size (maps.scion_path_cache 0) p) (inner p size)) same_hop
          ∙ ap (λ n. if_passed (accepts (hop_offset p) n (maps.scion_path_cache 0) p) (inner p n))
              same_size)
