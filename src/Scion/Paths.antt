-- ===== src/Scion/Paths.antt =====
-- pkg/scion/paths.go: the paths of the control plane as `SCIONPath` records, their identifiers and
-- their order. The SCION library (snet, addr) is the parameter `Snet`.
pub mod Order
pub mod Sort
pub mod Ids
pub mod Query
pub mod Pointers
use Prim.Native.Nat.{bit_xor}
use cilion.Base.{
  ℕ, zero, suc, ◌+◌, ◌-◌, ◌*◌, ◌/◌, ◌%◌, ◌^◌, Bytes, codes, length, List, [], ◌∷◌, ◌++◌, map,
  Option, none, some, Bool, true, false, not, ◌==◌, ltb, if◌then◌else◌, ◌≡◌, refl,
}
use cilion.Effect.{Result, ok, err, panic, exit, nil_dereference, map_result}

-- `snet.PathInterface`, `addr.IA` and their prints, `snet.UDPAddr`.
pub record Snet : Type 1 where
  pub PathInterface : Type 0
  pub IA : Type 0
  pub UdpAddr : Type 0
  pub interface_string : PathInterface → Bytes
  pub interface_ia : PathInterface → IA
  pub ia_string : IA → Bytes
  pub addr_ia : UdpAddr → IA
  pub addr_string : UdpAddr → Bytes

-- What `Metadata()` points to, and a path by its metadata, which may be nil.
pub record PathMetadata (N : Snet) : Type 0 where
  pub interfaces : List N.PathInterface
  pub mtu : ℕ

pub record SnetPath (N : Snet) : Type 0 where
  pub metadata : Option (PathMetadata N)

-- The states and preferences, by `iota`.
abbrev pub scion_path_state_inactive : ℕ
scion_path_state_inactive = 1

abbrev pub scion_path_pref_low_latency : ℕ
scion_path_pref_low_latency = 0

pub record ScionPath (N : Snet) : Type 0 where
  pub internal : Option (SnetPath N)
  pub interfaces : List Bytes
  pub id : ℕ
  pub sorter : Bytes
  pub mtu : ℕ
  pub payload_size : ℕ
  pub hops : ℕ
  pub state : ℕ
  pub pref : ℕ

-- `strings.Join`
unfoldable pub join : Bytes → List Bytes → Bytes
join sep [] = []
join sep (s ∷ []) = s
join sep (s ∷ t ∷ rest) = s ++ (sep ++ join sep (t ∷ rest))

-- `strings.ReplaceAll(s, "#", "-")`
unfoldable pub replace_hash : Bytes → Bytes
replace_hash [] = []
replace_hash (c ∷ s) = (if c == b'#' then b'-' else c) ∷ replace_hash s

-- `hash/fnv`'s 64-bit FNV-1a over the bytes of a string, from a hash value on.
fnv_write : ℕ → Bytes → ℕ
fnv_write hash [] = hash
fnv_write hash (c ∷ s) = fnv_write ((bit_xor hash c * 1099511628211) % 2 ^ 64) s

unfoldable pub string_to_uint64 : Bytes → ℕ
unfolding fnv_write
string_to_uint64 input = fnv_write 14695981039346656037 input

-- Go's `<` on strings: by bytes, a proper prefix first.
unfoldable pub str_lt : Bytes → Bytes → Bool
str_lt [] [] = false
str_lt [] (d ∷ t) = true
str_lt (c ∷ s) [] = false
str_lt (c ∷ s) (d ∷ t) = if c == d then str_lt s t else ltb c d

-- The comparison of `SortPartsPaths` and `SortPartsPathsP`, on the sorters.
pub sorter_less : Bytes → Bytes → Bool
sorter_less s t = if not (length s == length t) then ltb (length s) (length t) else str_lt s t

module _ (N : Snet) where
  -- The loop of `IdFromSnetPath`; `total` is the number of interfaces.
  pub id_loop : ℕ → ℕ → List N.PathInterface → Bytes → Bytes
  id_loop total i [] s = s
  id_loop total i (p ∷ ps) s = id_loop total (suc i) ps (
      if ltb i (total - 1)
      then (s ++ N.interface_string p) ++ codes "-"
      else s ++ N.interface_string p)

  pub id_from_metadata : Option (PathMetadata N) → Result Bytes
  id_from_metadata none = panic nil_dereference
  id_from_metadata (some m) = ok (id_loop (length m.interfaces) 0 m.interfaces [])

  pub id_from_snet_path : SnetPath N → Result Bytes
  unfolding id_from_metadata
  id_from_snet_path path = id_from_metadata path.metadata

  pub interfaces_to_ids : List N.PathInterface → List Bytes
  interfaces_to_ids [] = []
  interfaces_to_ids (intf ∷ intfs) =
      replace_hash (N.interface_string intf) ∷ interfaces_to_ids intfs

  abbrev pub first_hop_of_interfaces : List N.PathInterface → Bytes
  first_hop_of_interfaces [] = []
  first_hop_of_interfaces (intf ∷ intfs) = N.ia_string (N.interface_ia intf)

  abbrev pub first_hop_of_metadata : Option (PathMetadata N) → Bytes
  first_hop_of_metadata none = []
  first_hop_of_metadata (some m) = first_hop_of_interfaces m.interfaces

  abbrev pub first_hop_of_path : Option (SnetPath N) → Bytes
  first_hop_of_path none = []
  first_hop_of_path (some path) = first_hop_of_metadata path.metadata

  pub get_first_hop : ScionPath N → Bytes
  get_first_hop p = first_hop_of_path p.internal

  -- The record that one round of `QueryPaths` appends, behind the metadata.
  pub describe : SnetPath N → PathMetadata N → ScionPath N
  describe path m =
      let path_sorter = id_loop (length m.interfaces) 0 m.interfaces [] in
      record {
        internal = some path;
        interfaces = interfaces_to_ids m.interfaces;
        id = string_to_uint64 path_sorter;
        sorter = join (codes ",") (interfaces_to_ids m.interfaces);
        mtu = m.mtu;
        payload_size = 1200;
        hops = length m.interfaces / 2;
        state = scion_path_state_inactive;
        pref = scion_path_pref_low_latency;
      }

  pub describe_metadata : SnetPath N → Option (PathMetadata N) → Result (ScionPath N)
  describe_metadata path none = panic nil_dereference
  describe_metadata path (some m) = ok (describe path m)

  -- The loop of `QueryPaths`: the paths so far, and the rest.
  pub describe_all : List (SnetPath N) → List (ScionPath N) → Result (List (ScionPath N))
  describe_all [] parts_paths = ok parts_paths
  describe_all (path ∷ paths) parts_paths =
      let rest = λ (p : ScionPath N). describe_all paths (parts_paths ++ (p ∷ [])) in
      elim (describe_metadata path path.metadata) [
        | ok p ↦ rest p
        | err e ↦ err e
        | panic f ↦ panic f
        | exit n ↦ exit n
      ]

  pub path_less : ScionPath N → ScionPath N → Bool
  path_less p q = sorter_less p.sorter q.sorter
