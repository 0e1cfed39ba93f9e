-- ===== src/Tests/Paths.antt =====
-- The path queries over a SCION library in which an interface is its print.
use mathlib.Core.List.{Perm}
use mathlib.Core.List.Perm
use cilion.Base.{Option, ℕ, ◌≡◌, refl, codes, List, [], ◌∷◌, none, some, false}
use cilion.Effect.{ok, answer, world}
use cilion.Scion.Paths.{Snet, PathMetadata, ScionPath, describe}
use cilion.Scion.Paths.Sort.{sort_parts_paths, sorters, sort_parts_paths_canonical}
use cilion.Scion.Paths.Query.{with_metadata}
use cilion.Base.{Bytes, str_eq, if◌then◌else◌, Bool, true, subst, ap, ◌==◌}
use cilion.Scion.Host.{
  Stack, HostContext, Process, host, host_from, must_init_host_context, init_host_context,
  find_sciond, find_any_host_in_local_as,
}
use cilion.Scion.Host.Once.{host_once}
use cilion.Scion.Cache.{CacheState, get, cached, get_empty}
use cilion.Scion.Host.Addresses.{IsSpecified, IsAddressing}
use cilion.Tests.Insertion.{insertion_sort, insertion_sort-IsSort}

abbrev prints : Snet
prints = record {
  PathInterface = Unit;
  IA = ℕ;
  UdpAddr = ℕ;
  interface_string = λ i. codes "1#2";
  interface_ia = λ i. 110;
  ia_string = λ ia. codes "1-ff00:0:110";
  addr_ia = λ a. a;
  addr_string = λ a. codes "remote";
}

-- A path over `n` interfaces.
abbrev over : List (Unit {0}) → PathMetadata prints
over interfaces = record { interfaces = interfaces; mtu = 1400 }

abbrev short : ScionPath prints
short = describe prints (with_metadata prints (over (tt ∷ []))) (over (tt ∷ []))

abbrev long : ScionPath prints
long = describe prints (with_metadata prints (over (tt ∷ tt ∷ tt ∷ []))) (over (tt ∷ tt ∷ tt ∷ []))

sort_parts_paths_canonical_example :
    sorters prints (sort_parts_paths prints insertion_sort (long ∷ short ∷ []))
    ≡ sorters prints (sort_parts_paths prints insertion_sort (short ∷ long ∷ []))
sort_parts_paths_canonical_example =
    sort_parts_paths_canonical prints insertion_sort insertion_sort insertion_sort-IsSort
      insertion_sort-IsSort (long ∷ short ∷ []) (short ∷ long ∷ []) (Perm.swap short long [])

abbrev local_stack : Stack prints
local_stack = record {
  World = ℕ;
  Connector = Unit;
  Ip = ℕ;
  IpPort = ℕ;
  lookup_env = λ name. none;
  default_api_address = codes "127.0.0.1:30255";
  connect = λ address w. (ok tt, w);
  local_ia = λ c w. (ok 110, w);
  underlay_anycast = λ c w. (ok (codes "127.0.0.1"), w);
  resolve_local = λ ip w. ((ip, none), w);
  from_std_ip = λ ip. some 1;
  port_ip = λ p. p;
  with_ip = λ p ip. ip;
  is_zero = λ ip. ip == 0;
  is_unspecified = λ ip. ip == 2;
}

abbrev context : HostContext prints local_stack
context = record { ia = 110; sciond = tt; host_in_local_as = codes "127.0.0.1" }

abbrev before : Process prints local_stack
before = record { world = 0; context = none }

abbrev after : Process prints local_stack
after = record { world = 0; context = some context }

host_once_example :
    (after.context ≡ some context) × (host prints local_stack after ≡ (ok context, after))
unfolding host host_from must_init_host_context init_host_context find_sciond
    find_any_host_in_local_as
host_once_example = host_once prints local_stack before after context refl

-- A cache with a path of the remote address.
abbrev warm : CacheState prints local_stack insertion_sort
warm = record { process = before; cache = record { paths = (codes "remote", long ∷ []) ∷ [] } }

get_empty_example :
    (answer (get prints local_stack insertion_sort 210 warm) ≡ ok [])
    × ((get prints local_stack insertion_sort 210 warm).1.process ≡ after)
    × ((k : Bytes)
        → cached prints local_stack insertion_sort k
            (world (get prints local_stack insertion_sort 210 warm))
          ≡ (if str_eq k (codes "remote")
              then []
              else cached prints local_stack insertion_sort k warm))
unfolding host host_from must_init_host_context init_host_context find_sciond
    find_any_host_in_local_as
get_empty_example =
    get_empty prints local_stack insertion_sort insertion_sort-IsSort 210 warm after context refl

-- Two paths in a store, by Boolean pointers.
abbrev stored : Bool → ScionPath prints
stored true = short
stored false = long

abbrev ip_or_one : Option ℕ → ℕ
ip_or_one none = 1
ip_or_one (some ip) = ip

local-IsAddressing : IsAddressing prints local_stack
local-IsAddressing = record {
  with_ip_set = λ p ip. refl;
  resolved =
      λ h w std ip r at. subst (IsSpecified prints local_stack) (ap ip_or_one at) (refl, refl);
}
