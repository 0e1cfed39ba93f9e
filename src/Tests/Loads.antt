-- ===== src/Tests/Loads.antt =====
-- The loader and the map keys at concrete values.
use mathlib.Core.List.{Memᴰ}
use cilion.Base.{
  inr, false, ◌≡◌, refl, Bytes, codes, str_eq, [], ◌∷◌, none, some, true, ◌<◌, ◌^◌, arith,
}
use cilion.Effect.{errno, errorf, wrap, world}
use cilion.Bpf.Types.{little, uint32, to4, ip_to_key, ip_from_key}
use cilion.Bpf.Types.Keys.{ip_from_key-ip_to_key}
use cilion.Bpf.Kernel.{bpf_filter, other_filter, Kernel}
use cilion.Bpf.Loader.{
  egress_filter, is_tc_egress, delete_filters, detach_tc, Host, new, load, load_tc_egress_objects,
  load_xdp_ingress_objects, store_tc, store_xdp, load_xdp, abandon_tc, close_objects, close_all,
  close, attach_xdp,
}
use cilion.Bpf.Loader.LoadObjects.{load_all_or_nothing}
use cilion.Bpf.Loader.CloseObjects.{close-load}
use cilion.Bpf.Loader.Attach.{IsAttaching, close-attach_xdp}
use cilion.Bpf.Loader.Detach.{detach_tc_lem}
use cilion.Tests.Memory.{memory-IsFilters, Memory, is_open, memory_kernel, memory-IsKernel}

-- A kernel with both programs, and one whose XDP program was not compiled.
abbrev pub compiled : Kernel
compiled = memory_kernel (codes "tc") (codes "xdp")

abbrev half : Kernel
half = memory_kernel (codes "tc") []

abbrev pub boot : Memory
boot = record {
  next = 3;
  opened = λ h. true;
  policies = λ b. none;
  paths = λ m j. none;
  filters = bpf_filter (egress_filter compiled 4 7) ∷ other_filter 1 ∷ [];
}

abbrev pub host : (K : Kernel) → K.World → Host K
host K w = record { kernel = w; loader = new }

abbrev pod_ip : Bytes
pod_ip = 10 ∷ 0 ∷ 0 ∷ 7 ∷ []

ip_from_key-ip_to_key_example :
    (ip_from_key little (uint32 little pod_ip) ≡ pod_ip) × (uint32 little pod_ip < 2 ^ 32)
unfolding to4 ip_to_key
ip_from_key-ip_to_key_example =
    ip_from_key-ip_to_key little pod_ip pod_ip (uint32 little pod_ip) refl
      (omega arith, (omega arith, (omega arith, (omega arith, tt)))) refl

load_all_or_nothing_example : is_open (world (load half (host half boot))).kernel 3 ≡ is_open boot 3
unfolding load load_tc_egress_objects load_xdp store_tc load_xdp_ingress_objects abandon_tc
    close_objects close_all
load_all_or_nothing_example =
    load_all_or_nothing half is_open (memory-IsKernel (codes "tc") []) (host half boot)
      (wrap (codes "load xdp_ingress: %w") []
        (errorf (codes "xdp_ingress eBPF object not compiled: run 'go generate ./pkg/bpf/'") []))
      refl 3

close-load_example :
    is_open (world (close compiled (world (load compiled (host compiled boot))))).kernel 4
    ≡ is_open boot 4
unfolding load load_tc_egress_objects load_xdp store_tc load_xdp_ingress_objects store_xdp
close-load_example =
    close-load compiled is_open (memory-IsKernel (codes "tc") (codes "xdp")) (host compiled boot)
      refl refl 4

memory-IsAttaching : IsAttaching compiled is_open
memory-IsAttaching = record {
  lookup_keeps = λ name w h. refl;
  attaches = λ program index w. inr (errno 16, refl, λ h. refl);
}

-- A loader that holds the link 2.
abbrev linked : Host compiled
linked = record { kernel = boot; loader = record new { xdp_link = some 2 } }

close-attach_xdp_example :
    is_open (world (close compiled (world (attach_xdp compiled (codes "eth0") linked)))).kernel 2
    ≡ true
close-attach_xdp_example =
    close-attach_xdp compiled is_open (memory-IsKernel (codes "tc") (codes "xdp"))
      memory-IsAttaching (codes "eth0") 4 2 linked refl refl refl refl refl

abbrev marked : Host compiled
marked = host compiled (record boot { policies = λ b. some 9 })

detach_tc_lem_example :
    Memᴰ (other_filter 1) (bpf_filter (egress_filter compiled 4 7) ∷ other_filter 1 ∷ [])
    × (is_tc_egress (other_filter 1) ≡ false)
unfolding detach_tc delete_filters is_tc_egress str_eq
detach_tc_lem_example =
    detach_tc_lem compiled (λ w. w.filters) 4 (memory-IsFilters (codes "tc") (codes "xdp"))
      (codes "eth0") (host compiled boot) refl refl refl (other_filter 1) (Memᴰ.head refl)
