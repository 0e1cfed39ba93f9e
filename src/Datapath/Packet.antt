-- ===== src/Datapath/Packet.antt =====
-- Packets in memory, as the kernel programs see them: the bytes from `data` to `data_end`. A load
-- or a store is valid only inside of them; the layouts are those of bpf/headers/scion.h and of the
-- kernel's headers.
pub mod Bounds
pub mod Writes
use cilion.Base.{
  ℕ, zero, suc, ◌+◌, ◌*◌, ◌/◌, ◌%◌, ◌≤◌, ◌≡◌, refl, ap, Bytes, length, take, drop, List, [], ◌∷◌,
  ◌++◌, Option, none, some, Bool, true, false, leb, le→leb, leb→le, sym, ◌∙◌, ◌-◌, if◌then◌else◌,
  arith,
}

-- The outcome of code that reads and writes a packet.
pub data Access {ℓ} (A : Type ℓ) : Type ℓ where
  in_bounds : A → Access A
  out_of_bounds : Access A

infixl 10 ◌>>=◌
unfoldable pub ◌>>=◌ : {A B : Type 0} → Access A → (A → Access B) → Access B
◌>>=◌ (in_bounds a) f = f a
◌>>=◌ out_of_bounds f = out_of_bounds

-- `if (data + size > data_end) return otherwise;`, with what follows it.
unfoldable pub within : {A : Type 0} → ℕ → Bytes → Access A → Access A → Access A
within size p follow otherwise = if leb size (length p) then follow else otherwise

-- Bytes over the front of a packet.
abbrev pub overlay : Bytes → Bytes → Bytes
overlay [] p = p
overlay (x ∷ v) [] = []
overlay (x ∷ v) (b ∷ p) = x ∷ overlay v p

unfoldable pub write : ℕ → Bytes → Bytes → Bytes
write zero v p = overlay v p
write (suc n) v [] = []
write (suc n) v (b ∷ p) = b ∷ write n v p

unfoldable pub read : ℕ → ℕ → Bytes → Bytes
read offset size p = take size (drop offset p)

unfoldable pub load : Bytes → ℕ → ℕ → Access Bytes
load p offset size =
    if leb (offset + size) (length p) then in_bounds (read offset size p) else out_of_bounds

unfoldable pub store : Bytes → ℕ → Bytes → Access Bytes
store p offset v =
    if leb (offset + length v) (length p) then in_bounds (write offset v p) else out_of_bounds

-- A number in network order, from the first byte on.
abbrev pub big_endian_from : ℕ → Bytes → ℕ
big_endian_from n [] = n
big_endian_from n (b ∷ p) = big_endian_from (n * 256 + b) p

abbrev pub big_endian : Bytes → ℕ
big_endian = big_endian_from 0

-- `bpf_htons` of a 16-bit value, as it lies in memory.
abbrev pub be16 : ℕ → Bytes
be16 n = (n / 256 % 256) ∷ (n % 256) ∷ []

-- A field of one byte, and one of several in network order.
unfoldable pub load_be : Bytes → ℕ → ℕ → Access ℕ
load_be p offset size = load p offset size >>= λ v. in_bounds (big_endian v)

-- Sizes in bytes.
abbrev pub sizeof_ethhdr : ℕ
sizeof_ethhdr = 14

abbrev pub sizeof_iphdr : ℕ
sizeof_iphdr = 20

abbrev pub sizeof_udphdr : ℕ
sizeof_udphdr = 8

abbrev pub sizeof_scion_hdr : ℕ
sizeof_scion_hdr = 12

abbrev pub sizeof_scion_addr_hdr_v4 : ℕ
sizeof_scion_addr_hdr_v4 = 24

abbrev pub sizeof_scion_path_meta_hdr : ℕ
sizeof_scion_path_meta_hdr = 7

abbrev pub sizeof_scion_info_field : ℕ
sizeof_scion_info_field = 8

abbrev pub sizeof_scion_hop_field : ℕ
sizeof_scion_hop_field = 16

abbrev pub sizeof_cilium_e2e_ext : ℕ
sizeof_cilium_e2e_ext = 8

abbrev pub eth_p_ip : ℕ
eth_p_ip = 0x0800

abbrev pub ipproto_udp : ℕ
ipproto_udp = 17

abbrev pub scion_udp_port : ℕ
scion_udp_port = 30041
