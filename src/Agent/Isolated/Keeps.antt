-- ===== src/Agent/Isolated/Keeps.antt =====
-- Actions on the state of the loader that keep the maps of the ingress program apart and empty.
use cilion.Base.{Bool, true, false, if◌then◌else◌}
use cilion.Effect.{
  Error, Result, err, Exec, raise, catch, ◌>>=◌, continue-keeps, recover-keeps, world,
}
use cilion.Bpf.Kernel.{Kernel, Objects}
use cilion.Bpf.Loader.{Host, in_kernel}
use cilion.Agent.{MapView}
use cilion.Agent.Isolated.{IsEmpty, Isolated}

-- An action that keeps it so, whatever its outcome.
pub record Keeps (K : Kernel) (V : MapView K) (tc xdp : Objects) {A : Type 0} (m : Exec (Host K) A)
    : Type 0 where
  pub run : (s : Host K) → Isolated K V tc xdp s → Isolated K V tc xdp (world (m s))

module _ {K : Kernel} {V : MapView K} {tc xdp : Objects} where
  -- A call that keeps the cache empty, and what it is handed to.
  pub kernel-Keeps :
      {A : Type 0} (m : Exec K.World A)
      → ((w : K.World)
          → IsEmpty K V xdp.scion_path_cache w
          → IsEmpty K V xdp.scion_path_cache (world (m w)))
      → Keeps K V tc xdp (in_kernel K m)
  kernel-Keeps m keep = record {
    run =
        λ s h. record { tc_held = h.tc_held; xdp_held = h.xdp_held; empty = keep s.kernel h.empty };
  }

  pub catch-Keeps :
      {A B : Type 0} (m : Exec (Host K) A) (g : Error → Exec (Host K) B) (f : A → Exec (Host K) B)
      → Keeps K V tc xdp m
      → ((e : Error) → Keeps K V tc xdp (g e))
      → ((a : A) → Keeps K V tc xdp (f a))
      → Keeps K V tc xdp (catch m g f)
  catch-Keeps m g f km kg kf = record {
    run = λ s h.
        recover-keeps (Isolated K V tc xdp) g f (m s) (km.run s h) (λ e. (kg e).run)
          (λ a e. (kf a).run);
  }

  pub bind-Keeps :
      {A B : Type 0} (m : Exec (Host K) A) (f : A → Exec (Host K) B)
      → Keeps K V tc xdp m
      → ((a : A) → Keeps K V tc xdp (f a))
      → Keeps K V tc xdp (m >>= f)
  bind-Keeps m f km kf = record {
    run = λ s h. continue-keeps (Isolated K V tc xdp) f (m s) (km.run s h) (λ a e. (kf a).run);
  }

  pub if-Keeps :
      {A : Type 0} (b : Bool) (m n : Exec (Host K) A)
      → Keeps K V tc xdp m
      → Keeps K V tc xdp n
      → Keeps K V tc xdp (if b then m else n)
  if-Keeps true m n km kn = km
  if-Keeps false m n km kn = kn

  pub done-Keeps : {A : Type 0} (r : Result A) → Keeps K V tc xdp (λ s. (r, s))
  done-Keeps r = record { run = λ s h. h }

  pub failing-Keeps : {A : Type 0} (e : Error) → Keeps K V tc xdp (raise {A = A} e)
  failing-Keeps e = done-Keeps (err e)
