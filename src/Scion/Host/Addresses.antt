-- ===== src/Scion/Host/Addresses.antt =====
-- The local addresses: what `defaultLocalAddr` fills in.
use cilion.Base.{
  ◌≡◌, refl, sym, ◌∙◌, ap, subst, Bytes, codes, [], Option, none, some, Bool, true, false, ◌||◌,
  if◌then◌else◌,
}
use cilion.Effect.{
  Error, errorf, Result, ok, err, panic, exit, pure, continue, ok-injective, answer,
}
use cilion.Scion.Paths.{Snet}
use cilion.Scion.Host.{
  Stack, HostContext, Process, host, default_ip_of, default_local_ip, default_local_addr,
}

module _ (N : Snet) (S : Stack N) where
  -- An address to bind to: neither the zero value nor a wildcard.
  abbrev pub IsSpecified : S.Ip → Type 0
  IsSpecified ip = (S.is_zero ip ≡ false) × (S.is_unspecified ip ≡ false)

  -- `WithIP` sets the address, and the local address that the operating system resolves towards a
  -- host is one to bind to.
  pub record IsAddressing : Type 0 where
    pub with_ip_set : (p : S.IpPort) (ip : S.Ip) → S.port_ip (S.with_ip p ip) ≡ ip
    pub resolved :
        (host : Bytes) (w : S.World) (std : Bytes) (ip : S.Ip)
        → (S.resolve_local host w).0 ≡ (std, none)
        → S.from_std_ip std ≡ some ip
        → IsSpecified ip

  module _ (A : IsAddressing) where
    converted :
        (o : Option S.Ip) (ip : S.Ip)
        → (elim o [
          | none ↦ err (errorf (codes "unable to resolve default local address %w") [])
          | some i ↦ ok i
        ])
          ≡ ok ip
        → o ≡ some ip
    converted none ip h = absurd (cc h)
    converted (some i) ip h = ap some (ok-injective i ip h)

    resolved_ip :
        (address : Bytes) (w : S.World) (r : Bytes × Option Error) (ip : S.Ip)
        → (S.resolve_local address w).0 ≡ r
        → default_ip_of N S r ≡ ok ip
        → IsSpecified ip
    unfolding default_ip_of
    resolved_ip address w (std, some e) ip at h = absurd (cc h)
    resolved_ip address w (std, none) ip at h =
        A.resolved address w std ip at (converted (S.from_std_ip std) ip h)

    local_ip-IsSpecified :
        (s : Process N S) (ip : S.Ip) → answer (default_local_ip N S s) ≡ ok ip → IsSpecified ip
    unfolding default_local_ip
    local_ip-IsSpecified s ip h = behind (host N S s) h
      where
        behind :
            (p : Result (HostContext N S) × Process N S)
            → answer (
                continue
                  (λ (c : HostContext N S) (t : Process N S).
                    let (r, w) = S.resolve_local c.host_in_local_as t.world in
                    (default_ip_of N S r, record t { world = w }))
                  p)
              ≡ ok ip
            → IsSpecified ip
        behind (ok c, t) h =
            resolved_ip c.host_in_local_as t.world ((S.resolve_local c.host_in_local_as t.world).0)
              ip refl h
        behind (err e, t) h = absurd (cc h)
        behind (panic f, t) h = absurd (cc h)
        behind (exit n, t) h = absurd (cc h)

    -- If the addresses that the system resolves can be bound to, then so can an address that
    -- `defaultLocalAddr` returns, whatever it was given: its IP is neither the zero value nor a
    -- wildcard.
    pub default_local_addr-IsSpecified :
        (local addr : S.IpPort) (s : Process N S)
        → answer (default_local_addr N S local s) ≡ ok addr
        → IsSpecified (S.port_ip addr)
    unfolding default_local_addr
    default_local_addr-IsSpecified local addr s h =
        choose (S.is_zero (S.port_ip local)) (S.is_unspecified (S.port_ip local)) refl refl h
      where
        filled :
            (p : Result S.Ip × Process N S)
            → ((ip : S.Ip) → answer p ≡ ok ip → IsSpecified ip)
            → answer (continue (λ ip. pure (S.with_ip local ip)) p) ≡ ok addr
            → IsSpecified (S.port_ip addr)
        filled (ok ip, t) fine h =
            subst IsSpecified (sym (A.with_ip_set local ip) ∙ ap S.port_ip (ok-injective _ _ h))
              (fine ip refl)
        filled (err e, t) fine h = absurd (cc h)
        filled (panic f, t) fine h = absurd (cc h)
        filled (exit n, t) fine h = absurd (cc h)

        choose :
            (zero any : Bool)
            → S.is_zero (S.port_ip local) ≡ zero
            → S.is_unspecified (S.port_ip local) ≡ any
            → answer (
                (if zero || any
                    then (λ t. continue (λ ip. pure (S.with_ip local ip)) (default_local_ip N S t))
                    else pure local)
                  s)
              ≡ ok addr
            → IsSpecified (S.port_ip addr)
        choose false false z u h =
            subst (λ a. IsSpecified (S.port_ip a)) (ok-injective _ _ h) (z, u)
        choose true any z u h = filled (default_local_ip N S s) (local_ip-IsSpecified s) h
        choose false true z u h = filled (default_local_ip N S s) (local_ip-IsSpecified s) h
