-- ===== src/Bpf/Types.antt =====
-- internal/bpf/types.go: the value of `scion_path_cache` and the keys of `pod_policy_map`.
pub mod Keys
use cilion.Base.{
  ℕ, ◌+◌, ◌*◌, ◌/◌, ◌%◌, Bytes, codes, length, take, drop, str_eq, List, [], ◌∷◌, Option, none,
  some, Bool, true, false, ◌&&◌, ◌==◌, if◌then◌else◌,
}
use cilion.Effect.{Result, ok, err, errorf}

-- The fixed-size arrays are byte lists; their lengths are 4, 6, 256 and 16.
pub record ScionPathEntry : Type 0 where
  pub next_hop_ip : Bytes
  pub next_hop_mac : Bytes
  pub path_len : ℕ
  pub hop_fields : Bytes
  pub mac_key : Bytes

-- The byte order of the host.
pub data Endian : Type 0 where
  little big : Endian

-- `binary.NativeEndian.Uint32` of four bytes; `To4` hands it no other number of them.
unfoldable pub uint32 : Endian → Bytes → ℕ
uint32 little (a ∷ b ∷ c ∷ d ∷ rest) = a + b * 256 + c * 65536 + d * 16777216
uint32 big (a ∷ b ∷ c ∷ d ∷ rest) = d + c * 256 + b * 65536 + a * 16777216
uint32 _ _ = 0

-- `binary.NativeEndian.PutUint32` into four bytes.
unfoldable pub put_uint32 : Endian → ℕ → Bytes
put_uint32 little k = (k % 256) ∷ (k / 256 % 256) ∷ (k / 65536 % 256) ∷ (k / 16777216 % 256) ∷ []
put_uint32 big k = (k / 16777216 % 256) ∷ (k / 65536 % 256) ∷ (k / 256 % 256) ∷ (k % 256) ∷ []

-- The first twelve bytes of an IPv4 address in IPv6 form.
abbrev pub v4_in_v6_prefix : Bytes
v4_in_v6_prefix = 0 ∷ 0 ∷ 0 ∷ 0 ∷ 0 ∷ 0 ∷ 0 ∷ 0 ∷ 0 ∷ 0 ∷ 255 ∷ 255 ∷ []

-- `net.IP.To4`; nil is `none`.
unfoldable pub to4 : Bytes → Option Bytes
to4 ip =
    if length ip == 4
    then some ip
    else if length ip == 16 && str_eq (take 12 ip) v4_in_v6_prefix
    then some (drop 12 ip)
    else none

abbrev pub key_of_ip4 : Endian → Option Bytes → Result ℕ
key_of_ip4 e none = err (errorf (codes "IPToKey: not an IPv4 address: %v") [])
key_of_ip4 e (some ip4) = ok (uint32 e ip4)

unfoldable pub ip_to_key : Endian → Bytes → Result ℕ
ip_to_key e ip = key_of_ip4 e (to4 ip)

unfoldable pub ip_from_key : Endian → ℕ → Bytes
ip_from_key e key = put_uint32 e key
