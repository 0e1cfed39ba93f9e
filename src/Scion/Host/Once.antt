-- ===== src/Scion/Host/Once.antt =====
-- The host context is made once, and the calls that rest on it.
use cilion.Base.{◌≡◌, refl, sym, ◌∙◌, ap, [], Option, none, some}
use cilion.Effect.{Result, ok, err, panic, exit, continue, recover, ok-injective}
use cilion.Scion.Paths.{Snet}
use cilion.Scion.Paths.Sort.{Sorter, IsSort}
use cilion.Scion.Paths.Query.{collect_paths-nil}
use cilion.Scion.Host.{
  Stack, HostContext, Process, host, host_from, must_init_host_context, query_raw, query_paths,
}

module _ (N : Snet) (S : Stack N) where
  must_init_lem :
      (p : Result (HostContext N S) × Process N S) (s : Process N S) (c : HostContext N S)
      → recover (λ e t. (exit 1, t)) (λ d t. (ok d, record t { context = some d })) p ≡ (ok c, s)
      → s.context ≡ some c
  must_init_lem (ok d, t) s c h =
      ap (λ q. q.1.context) (sym h) ∙ ap some (ok-injective d c (ap (λ q. q.0) h))
  must_init_lem (err e, t) s c h = cc (ap (λ q. q.0) h)
  must_init_lem (panic f, t) s c h = cc (ap (λ q. q.0) h)
  must_init_lem (exit n, t) s c h = cc (ap (λ q. q.0) h)

  host_from_lem :
      (o : Option (HostContext N S)) (s s' : Process N S) (c : HostContext N S)
      → s.context ≡ o
      → host_from N S o s ≡ (ok c, s')
      → s'.context ≡ some c
  unfolding host_from must_init_host_context
  host_from_lem none s s' c at h = must_init_lem _ s' c h
  host_from_lem (some d) s s' c at h =
      ap (λ q. q.1.context) (sym h) ∙ at ∙ ap some (ok-injective d c (ap (λ q. q.0) h))

  -- A call of `host` that returns has set the context, and a later call returns the same context
  -- and does nothing.
  pub host_once :
      (s s' : Process N S) (c : HostContext N S)
      → host N S s ≡ (ok c, s')
      → (s'.context ≡ some c) × (host N S s' ≡ (ok c, s'))
  unfolding host host_from
  host_once s s' c h =
      let set = host_from_lem s.context s s' c refl h in (set, ap (λ o. host_from N S o s') set)

  -- Every query behind a host context that was made returns no path at all, whatever the remote AS.
  pub query_paths_empty :
      (sort : Sorter N)
      → IsSort sort
      → (remote : N.IA) (s s' : Process N S) (c : HostContext N S) → host N S s ≡ (ok c, s')
      → query_paths N S sort remote s ≡ (ok [], s')
  unfolding query_paths query_raw
  query_paths_empty sort law remote s s' c h =
      ap (continue _) h ∙ ap (λ r. (r, s')) (collect_paths-nil N sort law)
