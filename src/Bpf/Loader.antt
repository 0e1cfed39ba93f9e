-- ===== src/Bpf/Loader.antt =====
-- internal/bpf/loader.go, with the stubs tc_egress_bpfel.go and xdp_ingress_bpfel.go beside it.
pub mod Descriptors
pub mod LoadObjects
pub mod CloseObjects
pub mod Policies
pub mod Attach
pub mod Detach
use cilion.Base.{
  ℕ, ◌+◌, ◌*◌, Bytes, codes, length, str_eq, List, [], ◌∷◌, Option, none, some, Bool, true, false,
  not, ◌&&◌, ◌==◌, if◌then◌else◌,
}
use cilion.Effect.{
  Error, errorf, wrap, Result, ok, err, panic, exit, Exec, pure, raise, continue, recover, catch,
  ◌>>=◌, ◌>>◌,
}
use cilion.Bpf.Types.{ScionPathEntry, Endian, ip_to_key}
use cilion.Bpf.Kernel.{
  Kernel, Objects, TcEgressObjects, XdpIngressObjects, Qdisc, BpfFilter, Filter, bpf_filter,
  other_filter, errors_is, eexist, eth_p_all, handle_clsact, handle_min_egress,
}

pub record Loader : Type 0 where
  pub tc_objs : TcEgressObjects
  pub xdp_objs : XdpIngressObjects
  pub xdp_link : Option ℕ

abbrev pub no_objects : Objects
no_objects = record { program = none; pod_policy_map = none; scion_path_cache = none }

-- `New`
abbrev pub new : Loader
new = record { tc_objs = no_objects; xdp_objs = no_objects; xdp_link = none }

-- `netlink.MakeHandle`: major in the upper, minor in the lower sixteen bits.
abbrev pub make_handle : ℕ → ℕ → ℕ
make_handle major minor = major * 65536 + minor

-- A loaded BPF filter by the name that the loader gives its own.
unfoldable pub is_tc_egress : Filter → Bool
is_tc_egress (bpf_filter f) = str_eq f.name (codes "tc_egress")
is_tc_egress (other_filter n) = false

module _ (K : Kernel) where
  -- The kernel and the loader.
  pub record Host : Type 0 where
    pub kernel : K.World
    pub loader : Loader

  abbrev pub in_kernel : {A : Type 0} → Exec K.World A → Exec Host A
  in_kernel m s = ((m s.kernel).0, record s { kernel = (m s.kernel).1 })

  -- `_TcEgressClose`, `_XdpIngressClose`: the first error ends the loop.
  unfoldable pub close_all : List (Option ℕ) → Exec K.World (Unit {0})
  close_all [] = pure tt
  close_all (c ∷ closers) = do K.close_handle c; close_all closers

  -- `Close` of `TcEgressObjects`.
  unfoldable pub close_objects : Objects → Exec K.World (Unit {0})
  close_objects o = close_all (o.program ∷ o.pod_policy_map ∷ o.scion_path_cache ∷ [])

  -- That of the XDP objects, which is the same.
  abbrev pub close_xdp_ingress_objects : XdpIngressObjects → Exec K.World (Unit {0})
  close_xdp_ingress_objects o = close_objects o

  unfoldable pub load_tc_egress_objects : Exec K.World TcEgressObjects
  load_tc_egress_objects =
      if length K.tc_egress_bytes == 0
      then raise
          (errorf (codes "tc_egress eBPF object not compiled: run 'go generate ./pkg/bpf/'") [])
      else catch (K.load_spec K.tc_egress_bytes)
          (λ e. raise (wrap (codes "load tc_egress: %w") [] e)) K.load_and_assign

  unfoldable pub load_xdp_ingress_objects : Exec K.World XdpIngressObjects
  load_xdp_ingress_objects =
      if length K.xdp_ingress_bytes == 0
      then raise
          (errorf (codes "xdp_ingress eBPF object not compiled: run 'go generate ./pkg/bpf/'") [])
      else catch (K.load_spec K.xdp_ingress_bytes)
          (λ e. raise (wrap (codes "load xdp_ingress: %w") [] e)) K.load_and_assign

  -- A call whose own error the caller drops.
  abbrev pub dropping : {A : Type 0} → Exec Host (Unit {0}) → Exec Host A → Exec Host A
  dropping m k = catch m (λ _. k) (λ _. k)

  -- The XDP objects failed to load: the TC objects are closed.
  unfoldable pub abandon_tc : Error → Exec Host (Unit {0})
  abandon_tc e s =
      dropping (in_kernel (close_objects s.loader.tc_objs))
        (raise (wrap (codes "load xdp_ingress: %w") [] e)) s

  unfoldable pub store_xdp : Objects → Exec Host (Unit {0})
  store_xdp o s = (ok tt, record s { loader = record s.loader { xdp_objs = o } })

  -- The second half of `Load`, behind the TC objects.
  unfoldable pub load_xdp : Exec Host (Unit {0})
  load_xdp = catch (in_kernel load_xdp_ingress_objects) abandon_tc store_xdp

  unfoldable pub store_tc : Objects → Exec Host (Unit {0})
  store_tc o s = load_xdp (record s { loader = record s.loader { tc_objs = o } })

  unfoldable pub load : Exec Host (Unit {0})
  load =
      catch (in_kernel load_tc_egress_objects) (λ e. raise (wrap (codes "load tc_egress: %w") [] e))
        store_tc

  abbrev pub clsact : ℕ → Qdisc
  clsact index = record {
    link_index = index;
    handle = make_handle 0xffff 0;
    parent = handle_clsact;
    qdisc_type = codes "clsact";
  }

  abbrev pub egress_filter : ℕ → ℕ → BpfFilter
  egress_filter index fd = record {
    link_index = index;
    parent = handle_min_egress;
    handle = make_handle 0 1;
    protocol = eth_p_all;
    priority = 1;
    fd = fd;
    name = codes "tc_egress";
    direct_action = true;
  }

  -- `AttachTC` behind the qdisc.
  unfoldable pub add_filter : Bytes → ℕ → Exec Host (Unit {0})
  add_filter iface_name index s =
      (do
        fd ← in_kernel (K.program_fd s.loader.tc_objs.program)
        catch (in_kernel (K.filter_add (egress_filter index fd)))
            (λ e. raise (wrap (codes "AttachTC: add BPF filter on %q: %w") (iface_name ∷ []) e))
            pure)
        s

  -- An error of the qdisc other than that it exists ends `AttachTC`.
  unfoldable pub on_qdisc_error : Bytes → ℕ → Error → Exec Host (Unit {0})
  on_qdisc_error iface_name index e =
      if errors_is e eexist
      then add_filter iface_name index
      else raise (wrap (codes "AttachTC: add clsact qdisc on %q: %w") (iface_name ∷ []) e)

  unfoldable pub ensure_qdisc : Bytes → ℕ → Exec Host (Unit {0})
  ensure_qdisc iface_name index =
      catch (in_kernel (K.qdisc_add (clsact index))) (on_qdisc_error iface_name index)
        (λ _. add_filter iface_name index)

  unfoldable pub attach_tc : Bytes → Exec Host (Unit {0})
  attach_tc iface_name =
      catch (in_kernel (K.link_by_name iface_name))
        (λ e. raise (wrap (codes "AttachTC: link %q not found: %w") (iface_name ∷ []) e))
        (ensure_qdisc iface_name)

  -- The loop of `DetachTC`.
  unfoldable pub delete_filters : Bytes → List Filter → Exec Host (Unit {0})
  delete_filters iface_name [] = pure tt
  delete_filters iface_name (bpf_filter f ∷ filters) =
      let rest = delete_filters iface_name filters in
      if is_tc_egress (bpf_filter f)
      then catch (in_kernel (K.filter_del f))
          (λ e. raise (wrap (codes "DetachTC: del filter on %q: %w") (iface_name ∷ []) e))
          (λ _. rest)
      else rest
  delete_filters iface_name (other_filter n ∷ filters) = delete_filters iface_name filters

  unfoldable pub detach_tc : Bytes → Exec Host (Unit {0})
  detach_tc iface_name =
      catch (in_kernel (K.link_by_name iface_name))
        (λ e. raise (wrap (codes "DetachTC: link %q not found: %w") (iface_name ∷ []) e))
        λ index.
          catch (in_kernel (K.filter_list index handle_min_egress))
            (λ e. raise (wrap (codes "DetachTC: list filters on %q: %w") (iface_name ∷ []) e))
            (delete_filters iface_name)

  -- `l.xdpLink, err = link.AttachXDP(…)`: the field is written on failure too, with nil.
  unfoldable pub forget_link : Bytes → Error → Exec Host (Unit {0})
  forget_link iface_name e s = (
    err (wrap (codes "AttachXDP: attach to %q: %w") (iface_name ∷ []) e),
    record s { loader = record s.loader { xdp_link = none } },
  )

  unfoldable pub keep_link : ℕ → Exec Host (Unit {0})
  keep_link l s = (ok tt, record s { loader = record s.loader { xdp_link = some l } })

  unfoldable pub attach_link : Bytes → ℕ → Exec Host (Unit {0})
  attach_link iface_name index s =
      catch (in_kernel (K.attach_xdp s.loader.xdp_objs.program index)) (forget_link iface_name)
        keep_link s

  unfoldable pub attach_xdp : Bytes → Exec Host (Unit {0})
  attach_xdp iface_name =
      catch (in_kernel (K.link_by_name iface_name))
        (λ e. raise (wrap (codes "AttachXDP: link %q not found: %w") (iface_name ∷ []) e))
        (attach_link iface_name)

  module _ (order : Endian) where
    unfoldable pub update_pod_policy : Bytes → ℕ → Exec Host (Unit {0})
    update_pod_policy pod_ip policy_id s =
        (do
          key ← λ t. (ip_to_key order pod_ip, t)
          in_kernel (K.map_put_policy s.loader.tc_objs.pod_policy_map key policy_id))
          s

    unfoldable pub delete_pod_policy : Bytes → Exec Host (Unit {0})
    delete_pod_policy pod_ip s =
        (do
          key ← λ t. (ip_to_key order pod_ip, t)
          in_kernel (K.map_delete s.loader.tc_objs.pod_policy_map key))
          s

  unfoldable pub update_scion_path : ℕ → ScionPathEntry → Exec Host (Unit {0})
  update_scion_path policy_id entry s =
      in_kernel (K.map_put_path s.loader.tc_objs.scion_path_cache policy_id entry) s

  unfoldable pub delete_scion_path : ℕ → Exec Host (Unit {0})
  delete_scion_path policy_id s =
      in_kernel (K.map_delete s.loader.tc_objs.scion_path_cache policy_id) s

  -- `Close`: every error is dropped, and the fields stay as they are.
  unfoldable pub close_link : Option ℕ → Exec Host (Unit {0})
  close_link none = pure tt
  close_link (some l) = in_kernel (K.close_handle (some l))

  unfoldable pub close_xdp_objects : Exec Host (Unit {0})
  close_xdp_objects s =
      dropping (in_kernel (close_xdp_ingress_objects s.loader.xdp_objs)) (pure tt) s

  unfoldable pub close_tc_objects : Exec Host (Unit {0})
  close_tc_objects s = dropping (in_kernel (close_objects s.loader.tc_objs)) close_xdp_objects s

  unfoldable pub close : Exec Host (Unit {0})
  close s = dropping (close_link s.loader.xdp_link) close_tc_objects s
