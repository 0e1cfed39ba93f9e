-- ===== src/Scion/Host.antt =====
-- pkg/scion/host.go: the process-wide connection to the local SCION stack, made once, and the
-- local addresses. The daemon, the address helpers and the environment are the parameter `Stack`.

pub mod Once
pub mod Addresses
use Prim.Native.Nat.{bit_and}
use cilion.Base.{
  ℕ, ◌^◌, ◌==◌, Bytes, codes, List, [], ◌∷◌, Option, none, some, Bool, true, false, ◌||◌, not,
  if◌then◌else◌,
}
use cilion.Effect.{
  Error, errorf, wrap, Result, ok, err, panic, exit, Exec, pure, raise, lift, continue, recover,
  catch, ◌>>=◌,
}
use cilion.Scion.Paths.{Snet, SnetPath, ScionPath}
use cilion.Scion.Paths.Query.{collect_paths}
use cilion.Scion.Paths.Sort.{Sorter}

-- `mode&os.ModeSocket != 0`
unfoldable pub is_socket : ℕ → Bool
is_socket mode = not (bit_and mode (2 ^ 24) == 0)

-- `statSocket`, behind `os.Stat`: the mode of the file, or an error, and its print.
unfoldable pub stat_socket : (ℕ → Bytes) → Bytes → Result ℕ → Result (Unit {0})
stat_socket mode_string path (ok mode) =
    if not (is_socket mode)
    then err (errorf (codes "%s is not a socket (mode: %s)") (path ∷ mode_string mode ∷ []))
    else ok tt
stat_socket mode_string path (err e) = err e
stat_socket mode_string path (panic f) = panic f
stat_socket mode_string path (exit n) = exit n

-- `daemon`, `addrutil`, `netaddr` and `os.LookupEnv`, over the state of the world.
pub record Stack (N : Snet) : Type 1 where
  pub World : Type 0
  pub Connector : Type 0
  pub Ip : Type 0
  pub IpPort : Type 0
  pub lookup_env : Bytes → Option Bytes
  pub default_api_address : Bytes
  pub connect : Bytes → Exec World Connector
  pub local_ia : Connector → Exec World N.IA
  pub underlay_anycast : Connector → Exec World Bytes
  -- `addrutil.ResolveLocal`: the code reads the address before it looks at the error.
  pub resolve_local : Bytes → World → (Bytes × Option Error) × World
  pub from_std_ip : Bytes → Option Ip
  pub port_ip : IpPort → Ip
  pub with_ip : IpPort → Ip → IpPort
  pub is_zero : Ip → Bool
  pub is_unspecified : Ip → Bool

module _ (N : Snet) (S : Stack N) where
  pub record HostContext : Type 0 where
    pub ia : N.IA
    pub sciond : S.Connector
    pub host_in_local_as : Bytes

  -- The process: the world, and what `initOnce` and `singletonHostContext` hold. The context is
  -- set by the one run of the initialiser, and not before. Nothing in the program recovers from a
  -- panic, so that no call follows a run that panics.
  pub record Process : Type 0 where
    pub world : S.World
    pub context : Option HostContext

  -- An action on the world inside the process.
  abbrev pub in_process : {A : Type 0} → Exec S.World A → Exec Process A
  in_process m s = ((m s.world).0, record s { world = (m s.world).1 })

  abbrev pub daemon_address : Bytes
  daemon_address = elim (S.lookup_env (codes "SCION_DAEMON_ADDRESS")) [
    | none ↦ S.default_api_address
    | some address ↦ address
  ]

  unfoldable pub find_sciond : Exec S.World S.Connector
  find_sciond =
      catch (S.connect daemon_address)
        (λ e. raise (
          wrap (codes "unable to connect to SCIOND at %s (override with SCION_DAEMON_ADDRESS): %w")
            (daemon_address ∷ []) e))
        pure

  unfoldable pub find_any_host_in_local_as : S.Connector → Exec S.World Bytes
  find_any_host_in_local_as sciond = S.underlay_anycast sciond

  unfoldable pub init_host_context : Exec S.World HostContext
  init_host_context = do
    sciond ← find_sciond
    ia ← S.local_ia sciond
    host_in_local_as ← find_any_host_in_local_as sciond
    pure (record { ia = ia; sciond = sciond; host_in_local_as = host_in_local_as })

  -- The process ends with status 1 if the initialiser fails.
  unfoldable pub must_init_host_context : Exec Process HostContext
  must_init_host_context s =
      recover (λ e t. (exit 1, t)) (λ c t. (ok c, record t { context = some c }))
        (in_process init_host_context s)

  -- `initOnce.Do` and the address of the singleton.
  unfoldable pub host_from : Option HostContext → Exec Process HostContext
  host_from (some c) s = (ok c, s)
  host_from none s = must_init_host_context s

  unfoldable pub host : Exec Process HostContext
  host s = host_from s.context s

  unfoldable pub default_ip_of : (Bytes × Option Error) → Result S.Ip
  default_ip_of (ip, some e) = err (wrap (codes "unable to resolve default local address %w") [] e)
  default_ip_of (ip, none) = elim (S.from_std_ip ip) [
    | none ↦ err (errorf (codes "unable to resolve default local address %w") [])
    | some i ↦ ok i
  ]

  unfoldable pub default_local_ip : Exec Process S.Ip
  default_local_ip = do
    c ← host
    λ s.
        let (r, w) = S.resolve_local c.host_in_local_as s.world in
        (default_ip_of r, record s { world = w })

  unfoldable pub default_local_addr : S.IpPort → Exec Process S.IpPort
  default_local_addr local =
      if S.is_zero (S.port_ip local) || S.is_unspecified (S.port_ip local)
      then (do local_ip ← default_local_ip; pure (S.with_ip local local_ip))
      else pure local

  -- `queryPaths`: the request to the daemon is commented out.
  pub query_raw : HostContext → N.IA → Exec Process (List (SnetPath N))
  query_raw h dst = pure []

  pub query_raw_paths : N.IA → Exec Process (List (SnetPath N))
  query_raw_paths remote = do hc ← host; query_raw hc remote

  pub query_paths : Sorter N → N.IA → Exec Process (List (ScionPath N))
  query_paths sort remote = do
    hc ← host
    paths ← query_raw hc remote
    lift (collect_paths N sort paths)
