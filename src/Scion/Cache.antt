-- ===== src/Scion/Cache.antt =====
-- pkg/scion/path_cache.go: the cache of paths by the print of the remote address, over the state of
-- the process. `sort` is the sort that `QueryPaths` calls.
use cilion.Base.{
  ◌≡◌, refl, ◌∙◌, ap, Bytes, str_eq, str_eq_iff, str_eq_refl, List, [], ◌∷◌, if◌then◌else◌, arith,
}
use cilion.Effect.{Result, ok, err, panic, exit, Exec, continue, answer, world}
use cilion.Scion.Paths.{Snet, ScionPath}
use cilion.Scion.Paths.Sort.{Sorter, IsSort}
use cilion.Scion.Host.{Stack, HostContext, Process, host, query_paths}
use cilion.Scion.Host.Once.{query_paths_empty}

-- `map[string][]SCIONPath`: a missing key reads as nil, and a write replaces.
module _ {ℓ} {A : Type ℓ} where
  unfoldable pub lookup : Bytes → List (Bytes × List A) → List A
  lookup k [] = []
  lookup k ((j, v) ∷ m) = if str_eq k j then v else lookup k m

  unfoldable pub insert : Bytes → List A → List (Bytes × List A) → List (Bytes × List A)
  insert k v [] = (k, v) ∷ []
  insert k v ((j, u) ∷ m) = if str_eq k j then (k, v) ∷ m else (j, u) ∷ insert k v m

  pub lookup-insert :
      (k j : Bytes) (v : List A) (m : List (Bytes × List A))
      → lookup j (insert k v m) ≡ (if str_eq j k then v else lookup j m)
  unfolding lookup insert
  lookup-insert k j v [] = refl
  lookup-insert k j v ((i, u) ∷ m) =
      ground (arith, str_eq_iff k i, str_eq_iff j i, str_eq_iff j k, lookup-insert k j v m)

module _ (N : Snet) where
  pub record PathCache : Type 0 where
    pub paths : List (Bytes × List (ScionPath N))

  -- `NewPathCache`
  pub new_path_cache : PathCache
  new_path_cache = record { paths = [] }

  module _ (S : Stack N) (sort : Sorter N) where
    pub record CacheState : Type 0 where
      pub process : Process N S
      pub cache : PathCache

    -- What `Refresh` does with the answer of `QueryPaths`: an error is dropped.
    pub store_paths : Bytes → Result (List (ScionPath N)) → Exec CacheState (Unit {0})
    store_paths k (ok paths) s =
        (ok tt, record s { cache = record { paths = insert k paths s.cache.paths } })
    store_paths k (err e) s = (ok tt, s)
    store_paths k (panic f) s = (panic f, s)
    store_paths k (exit n) s = (exit n, s)

    pub refresh : N.UdpAddr → Exec CacheState (Unit {0})
    refresh remote s =
        let (r, p) = query_paths N S sort (N.addr_ia remote) s.process in
        store_paths (N.addr_string remote) r (record s { process = p })

    pub get : N.UdpAddr → Exec CacheState (List (ScionPath N))
    get remote s =
        continue (λ _ t. (ok (lookup (N.addr_string remote) t.cache.paths), t)) (refresh remote s)

    -- The part of `Get` behind the answer of the query.
    abbrev served :
        N.UdpAddr
        → CacheState
        → Result (List (ScionPath N)) × Process N S
        → Result (List (ScionPath N)) × CacheState
    served remote s q =
        continue (λ _ t. (ok (lookup (N.addr_string remote) t.cache.paths), t))
          (store_paths (N.addr_string remote) q.0 (record s { process = q.1 }))

    -- The cached paths of a key after a call.
    abbrev pub cached : Bytes → CacheState → List (ScionPath N)
    cached k s = lookup k s.cache.paths

    -- Behind a host context that is made, and with a sort that sorts: `Get` returns no path,
    -- whatever was cached. It leaves the process that `host` leaves, stores the empty list under the
    -- print of the remote address, and keeps what is stored under the other keys.
    pub get_empty :
        IsSort sort
        → (remote : N.UdpAddr) (s : CacheState) (p : Process N S) (c : HostContext N S)
        → host N S s.process ≡ (ok c, p)
        → (answer (get remote s) ≡ ok [])
          × ((get remote s).1.process ≡ p)
          × ((k : Bytes)
              → cached k (world (get remote s))
                ≡ (if str_eq k (N.addr_string remote) then [] else cached k s))
    unfolding get refresh store_paths
    get_empty law remote s p c made =
        let k = N.addr_string remote in
        let e =
          ap (served remote s)
            (query_paths_empty N S sort law (N.addr_ia remote) s.process p c made) in
        (
          ap (λ q. answer q) e ∙ ap ok (lookup-insert k k [] s.cache.paths ∙ rw (str_eq_refl k)),
          ap (λ (q : Result (List (ScionPath N)) × CacheState). q.1.process) e,
          λ j. ap (λ q. cached j (world q)) e ∙ lookup-insert k j [] s.cache.paths,
        )
