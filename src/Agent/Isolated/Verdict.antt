-- ===== src/Agent/Isolated/Verdict.antt =====
-- What the ingress program makes of packets, whatever the loader is called for.
use cilion.Base.{ℕ, ◌≡◌, Bytes, Option, Bool, ap, ◌∙◌, if◌then◌else◌}
use cilion.Bpf.Types.{Endian}
use cilion.Bpf.Kernel.{Kernel, Objects}
use cilion.Bpf.Loader.{Host, load}
use cilion.Bpf.Loader.Descriptors.{IsKernel}
use cilion.Effect.{ok, answer, world}
use cilion.Datapath.Packet.{in_bounds}
use cilion.Datapath.Ingress.{xdp_pass, xdp_drop, xdp_ingress}
use cilion.Datapath.Ingress.Verdict.{is_scion, xdp_ingress_uncached}
use cilion.Agent.{MapView, maps_of, Reach}
use cilion.Agent.Isolated.{IsFilledByPuts, Isolated}
use cilion.Agent.Isolated.Load.{CreatesCaches, load-Isolated}
use cilion.Agent.Isolated.Calls.{Reach-Isolated}

xdp_ingress-Isolated :
    (K : Kernel) (V : MapView K) (adjust_head : Bytes → ℕ → Option Bytes) (tc xdp : Objects)
    (s : Host K)
    → Isolated K V tc xdp s
    → (p : Bytes)
    → xdp_ingress adjust_head (maps_of K V s.loader.xdp_objs s.kernel) p
      ≡ in_bounds (if is_scion p then xdp_drop else xdp_pass p)
unfolding maps_of
xdp_ingress-Isolated K V adjust_head tc xdp s h p =
    xdp_ingress_uncached adjust_head (maps_of K V s.loader.xdp_objs s.kernel)
      (ap (λ (o : Objects). V.path_at s.kernel o.scion_path_cache 0) h.xdp_held ∙ h.empty 0) p

-- With a kernel whose loads open new descriptors and empty maps, which only puts fill: after a
-- `Load` that succeeds and any further calls of the other methods of the loader, the ingress
-- program drops each UDP packet to the SCION port and passes every other packet as it is.
pub xdp_ingress-Reach :
    (K : Kernel) (V : MapView K) (is_open : K.World → ℕ → Bool)
    (adjust_head : Bytes → ℕ → Option Bytes)
    → IsKernel K is_open
    → CreatesCaches K V
    → IsFilledByPuts K V
    → (order : Endian) (s t : Host K) → answer (load K s) ≡ ok tt
    → Reach K order (world (load K s)) t
    → (p : Bytes)
    → xdp_ingress adjust_head (maps_of K V t.loader.xdp_objs t.kernel) p
      ≡ in_bounds (if is_scion p then xdp_drop else xdp_pass p)
xdp_ingress-Reach K V is_open adjust_head L C F order s t loaded r p =
    let (apart, isolated) = load-Isolated K V is_open L C s loaded in
    let o = (world (load K s)).loader in
    xdp_ingress-Isolated K V adjust_head o.tc_objs o.xdp_objs t
      (Reach-Isolated K V F order o.tc_objs o.xdp_objs apart isolated r) p
