-- ===== src/Agent/Isolated/Load.antt =====
-- A `Load` that succeeds gives the ingress program a path cache of its own, which is empty.
use cilion.Base.{
  ℕ, ◌≡◌, ◌≢◌, refl, sym, ◌∙◌, ap, subst, length, [], codes, some, Bool, true, false, ◌||◌, ◌==◌,
  if◌then◌else◌, arith,
}
use cilion.Effect.{
  Error, wrap, Result, ok, err, panic, exit, Exec, raise, recover, catch, world, answer,
}
use cilion.Bpf.Kernel.{Kernel, Objects}
use cilion.Bpf.Loader.{
  Host, in_kernel, close_objects, load_tc_egress_objects, load_xdp_ingress_objects, abandon_tc,
  store_xdp, store_tc, load_xdp, load,
}
use cilion.Bpf.Loader.Descriptors.{IsKernel, is_handle, holds, tc-Loads, xdp-Loads}
use cilion.Agent.{MapView}
use cilion.Agent.Isolated.{IsEmpty, Isolated}

-- A load of a collection creates its maps: the path cache has a descriptor and no entry.
pub record CreatesCaches (K : Kernel) (V : MapView K) : Type 0 where
  pub cache_made :
      (p : K.Spec) (w : K.World) (o : Objects)
      → answer (K.load_and_assign p w) ≡ ok o
      → (n : ℕ) × (o.scion_path_cache ≡ some n)
  pub cache_empty :
      (p : K.Spec) (w : K.World) (o : Objects)
      → answer (K.load_and_assign p w) ≡ ok o
      → IsEmpty K V o.scion_path_cache (world (K.load_and_assign p w))

module _ (K : Kernel) where
  -- An outcome that is a success of `LoadAndAssign`, if it is one.
  abbrev IsAssigned : Result Objects × K.World → Type 0
  IsAssigned p =
      (o : Objects)
      → answer p ≡ ok o
      → (q : K.Spec) × (w : K.World) × (K.load_and_assign q w ≡ (ok o, world p))

  raised-IsAssigned : (e : Error) (w : K.World) → IsAssigned (err e, w)
  raised-IsAssigned e w o h = absurd (cc h)

  assigned :
      (f : Error → Error) (p : Result K.Spec × K.World)
      → IsAssigned (recover (λ e v. (err (f e), v)) K.load_and_assign p)
  assigned f (ok q, v) o h = (q, v, ap (λ r. (r, world (K.load_and_assign q v))) h)
  assigned f (err e, v) o h = absurd (cc h)
  assigned f (panic e, v) o h = absurd (cc h)
  assigned f (exit n, v) o h = absurd (cc h)

  if-IsAssigned :
      (b : Bool) (m n : Exec K.World Objects) (w : K.World)
      → IsAssigned (m w)
      → IsAssigned (n w)
      → IsAssigned ((if b then m else n) w)
  if-IsAssigned true m n w hm hn = hm
  if-IsAssigned false m n w hm hn = hn

  tc-IsAssigned : (w : K.World) → IsAssigned (load_tc_egress_objects K w)
  unfolding load_tc_egress_objects
  tc-IsAssigned w =
      if-IsAssigned (length K.tc_egress_bytes == 0) (raise _)
        (catch (K.load_spec K.tc_egress_bytes) (λ e. raise (wrap (codes "load tc_egress: %w") [] e))
          K.load_and_assign)
        w (raised-IsAssigned _ w) (assigned _ (K.load_spec K.tc_egress_bytes w))

  xdp-IsAssigned : (w : K.World) → IsAssigned (load_xdp_ingress_objects K w)
  unfolding load_xdp_ingress_objects
  xdp-IsAssigned w =
      if-IsAssigned (length K.xdp_ingress_bytes == 0) (raise _)
        (catch (K.load_spec K.xdp_ingress_bytes)
          (λ e. raise (wrap (codes "load xdp_ingress: %w") [] e)) K.load_and_assign)
        w (raised-IsAssigned _ w) (assigned _ (K.load_spec K.xdp_ingress_bytes w))

  -- A failed load of the XDP objects is never a success of `Load`.
  dropped_err :
      (e : Error) (p : Result (Unit {0}) × Host K)
      → answer (recover (λ _. raise e) (λ _. raise {A = Unit {0}} e) p) ≢ ok tt
  dropped_err e (ok a, s) h = cc h
  dropped_err e (err d, s) h = cc h
  dropped_err e (panic d, s) h = cc h
  dropped_err e (exit n, s) h = cc h

  xdp_loaded :
      (s : Host K) (p : Result Objects × K.World)
      → answer (recover (abandon_tc K) (store_xdp K) (p.0, record s { kernel = p.1 })) ≡ ok tt
      → let t = world (recover (abandon_tc K) (store_xdp K) (p.0, record s { kernel = p.1 })) in
        (t.loader.tc_objs ≡ s.loader.tc_objs) × (p ≡ (ok t.loader.xdp_objs, t.kernel))
  unfolding store_xdp abandon_tc
  xdp_loaded s (ok o, v) h = (refl, refl)
  xdp_loaded s (err e, v) h = absurd (
      dropped_err (wrap (codes "load xdp_ingress: %w") [] e)
        (in_kernel K (close_objects K s.loader.tc_objs) (record s { kernel = v })) h)
  xdp_loaded s (panic e, v) h = absurd (cc h)
  xdp_loaded s (exit n, v) h = absurd (cc h)

  -- What a `Load` that succeeded has done.
  abbrev IsLoaded : K.World → Host K → Type 0
  IsLoaded w t =
      (v : K.World) × (load_tc_egress_objects K w ≡ (ok t.loader.tc_objs, v))
      × (load_xdp_ingress_objects K v ≡ (ok t.loader.xdp_objs, t.kernel))

  both-IsLoaded :
      (s : Host K) (p : Result Objects × K.World)
      → load_tc_egress_objects K s.kernel ≡ p
      → answer (
          recover
            (λ e. raise (wrap (codes "load tc_egress: %w") [] e))
            (store_tc K)
            (p.0, record s { kernel = p.1 }))
        ≡ ok tt
      → IsLoaded s.kernel (
          world (
            recover
              (λ e. raise (wrap (codes "load tc_egress: %w") [] e))
              (store_tc K)
              (p.0, record s { kernel = p.1 })))
  unfolding store_tc load_xdp
  both-IsLoaded s (ok o, v) e h =
      let (kept, made) =
        xdp_loaded (record s { kernel = v; loader = record s.loader { tc_objs = o } })
          (load_xdp_ingress_objects K v) h in
      (v, e ∙ ap (λ q. (ok q, v)) (sym kept), made)
  both-IsLoaded s (err d, v) e h = absurd (cc h)
  both-IsLoaded s (panic d, v) e h = absurd (cc h)
  both-IsLoaded s (exit n, v) e h = absurd (cc h)

  load-IsLoaded : (s : Host K) → answer (load K s) ≡ ok tt → IsLoaded s.kernel (world (load K s))
  unfolding load
  load-IsLoaded s h = both-IsLoaded s (load_tc_egress_objects K s.kernel) refl h

module _ (K : Kernel) (V : MapView K) (is_open : K.World → ℕ → Bool) (L : IsKernel K is_open)
    (C : CreatesCaches K V) where
  -- A descriptor that is open is not one of those that a load opens.
  fresh-≢ :
      (tc xdp : Objects) (n : ℕ) (v : K.World)
      → tc.scion_path_cache ≡ some n
      → is_open v n ≡ true
      → ((h : ℕ) → holds xdp h ≡ true → is_open v h ≡ false)
      → tc.scion_path_cache ≢ xdp.scion_path_cache
  fresh-≢ tc xdp n v made old fresh same =
      let held : is_handle xdp.scion_path_cache n ≡ true =
        ap (λ c. is_handle c n) (sym same ∙ made) ∙ eq_refl n in
      absurd
        (cc (old, fresh n (last (is_handle xdp.program n) (is_handle xdp.pod_policy_map n) _ held)))
    where
      eq_refl : (n : ℕ) → (n == n) ≡ true
      eq_refl n = ground arith

      last : (a b c : Bool) → c ≡ true → (a || b || c) ≡ true
      last a b c h = ground arith

  -- The caches are apart, and that of the ingress program is empty.
  pub load-Isolated :
      (s : Host K)
      → answer (load K s) ≡ ok tt
      → let t = world (load K s) in
        (t.loader.tc_objs.scion_path_cache ≢ t.loader.xdp_objs.scion_path_cache)
        × Isolated K V t.loader.tc_objs t.loader.xdp_objs t
  load-Isolated s h =
      let (v, tc_run, xdp_run) = load-IsLoaded K s h in
      let t = world (load K s) in
      let tc = t.loader.tc_objs in
      let xdp = t.loader.xdp_objs in
      let (p, w, tc_made) = tc-IsAssigned K s.kernel tc (ap answer tc_run) in
      let (q, u, xdp_made) = xdp-IsAssigned K v xdp (ap answer xdp_run) in
      let (n, some_n) = C.cache_made p w tc (ap answer tc_made) in
      let tc_loads = (tc-Loads K is_open L s.kernel).loaded tc (ap answer tc_run) in
      let xdp_loads = (xdp-Loads K is_open L v).loaded xdp (ap answer xdp_run) in
      (
        fresh-≢ tc xdp n v some_n
            (ap (λ r. is_open (world r) n) (sym tc_run)
              ∙ (tc_loads n).1
              ∙ opened tc n (is_open s.kernel n) some_n)
            (λ j held. (xdp_loads j).0 held),
        record {
          tc_held = refl;
          xdp_held = refl;
          empty =
              subst (IsEmpty K V xdp.scion_path_cache) (ap world xdp_made ∙ ap world xdp_run)
                (C.cache_empty q u xdp (ap answer xdp_made));
        },
      )
    where
      opened :
          (o : Objects) (n : ℕ) (b : Bool) → o.scion_path_cache ≡ some n → (holds o n || b) ≡ true
      opened o n b e =
          ap (λ c. (is_handle o.program n || is_handle o.pod_policy_map n || is_handle c n) || b) e
          ∙ held (is_handle o.program n) (is_handle o.pod_policy_map n)
        where
          held : (a c : Bool) → ((a || c || (n == n)) || b) ≡ true
          held a c = ground arith
