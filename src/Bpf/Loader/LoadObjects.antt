-- ===== src/Bpf/Loader/LoadObjects.antt =====
-- What `Load` leaves open, when it fails and when it succeeds.
use cilion.Base.{
  ℕ, ◌≡◌, refl, ◌∙◌, ap, codes, [], Option, Bool, true, false, not, ◌&&◌, ◌||◌, arith,
}
use cilion.Effect.{
  Error, wrap, Result, ok, err, panic, exit, raise, recover, recover-ok, world, answer,
}
use cilion.Bpf.Kernel.{Kernel, Objects}
use cilion.Bpf.Loader.{
  Host, close_objects, load_tc_egress_objects, load_xdp_ingress_objects, abandon_tc, store_xdp,
  store_tc, load_xdp, load, no_objects,
}
use cilion.Bpf.Loader.Descriptors.{
  IsKernel, holds, Loads, tc-Loads, xdp-Loads, close_objects-Closes,
}

module _ (K : Kernel) (is_open : K.World → ℕ → Bool) (L : IsKernel K is_open) where
  -- Closing what was opened leaves the rest.
  undo :
      (held old now : Bool)
      → (held ≡ true → old ≡ false)
      → now ≡ (held || old)
      → (not held && now) ≡ old
  undo held old now fresh added = ground arith

  -- `o` was opened over `w`.
  abbrev pub Opened : K.World → Objects → K.World → Type 0
  Opened w o v =
      (h : ℕ)
      → (holds o h ≡ true → is_open w h ≡ false) × (is_open v h ≡ (holds o h || is_open w h))

  abbrev SameOpen : K.World → K.World → Type 0
  SameOpen w v = (h : ℕ) → is_open v h ≡ is_open w h

  closed-SameOpen :
      (w v : K.World) (o : Objects) → Opened w o v → SameOpen w (world (close_objects K o v))
  closed-SameOpen w v o opened h =
      (close_objects-Closes K is_open L o v).1 h
      ∙ undo (holds o h) (is_open w h) (is_open v h) (opened h).0 (opened h).1

  abandon_tc_lem :
      (d : Error) (s : Host K)
      → abandon_tc K d s ≡ (
        err (wrap (codes "load xdp_ingress: %w") [] d),
        record s { kernel = world (close_objects K s.loader.tc_objs s.kernel) },
      )
  unfolding abandon_tc
  abandon_tc_lem d s =
      recover-ok _ (λ _. raise (wrap (codes "load xdp_ingress: %w") [] d)) _ tt
        (close_objects-Closes K is_open L s.loader.tc_objs s.kernel).0

  -- What the two halves of `Load` come to: an error leaves what was open before, and a success has
  -- opened both objects on top of it.
  pub record Halves (w : K.World) (tc : Objects) (l : Option ℕ) (p : Result (Unit {0}) × Host K)
      : Type 0 where
    pub undone : (e : Error) → answer p ≡ err e → SameOpen w (world p).kernel
    pub tc_kept : answer p ≡ ok tt → (world p).loader.tc_objs ≡ tc
    pub link_kept : answer p ≡ ok tt → (world p).loader.xdp_link ≡ l
    pub both :
        answer p ≡ ok tt
        → (v : K.World) × Opened w tc v × Opened v (world p).loader.xdp_objs (world p).kernel

  xdp_half :
      (w : K.World) (s : Host K) (p : Result Objects × K.World)
      → Opened w s.loader.tc_objs s.kernel
      → Loads K is_open L s.kernel p
      → Halves w s.loader.tc_objs s.loader.xdp_link
          (recover (abandon_tc K) (store_xdp K) (p.0, record s { kernel = p.1 }))
  unfolding store_xdp
  xdp_half w s (ok o, v) opened l = record {
    undone = λ e h. cc;
    tc_kept = λ _. refl;
    link_kept = λ _. refl;
    both = λ _. (s.kernel, opened, l.loaded o refl);
  }
  xdp_half w s (err d, v) opened l =
      let e = abandon_tc_lem d (record s { kernel = v }) in
      record {
        undone = λ _ _ h.
            ap (λ (q : Result (Unit {0}) × Host K). is_open q.1.kernel h) e
            ∙ closed-SameOpen w v s.loader.tc_objs
                (λ j. ((opened j).0, l.failed d refl j ∙ (opened j).1)) h;
        tc_kept = λ h. cc;
        link_kept = λ h. cc;
        both = λ h. absurd (cc);
      }
  xdp_half w s (panic f, v) opened l = record {
    undone = λ e h. cc;
    tc_kept = λ h. cc;
    link_kept = λ h. cc;
    both = λ h. absurd (cc);
  }
  xdp_half w s (exit n, v) opened l = record {
    undone = λ e h. cc;
    tc_kept = λ h. cc;
    link_kept = λ h. cc;
    both = λ h. absurd (cc);
  }

  tc_half :
      (s : Host K) (p : Result Objects × K.World)
      → Loads K is_open L s.kernel p
      → (tc : Objects) × Halves s.kernel tc s.loader.xdp_link (
          recover
            (λ e. raise (wrap (codes "load tc_egress: %w") [] e))
            (store_tc K)
            (p.0, record s { kernel = p.1 }))
  unfolding store_tc load_xdp
  tc_half s (ok o, v) l = (
    o,
    xdp_half s.kernel (record s { kernel = v; loader = record s.loader { tc_objs = o } })
        (load_xdp_ingress_objects K v) (l.loaded o refl) (xdp-Loads K is_open L v),
  )
  tc_half s (err d, v) l = (
    no_objects,
    record {
      undone = λ _ _. l.failed d refl;
      tc_kept = λ h. cc;
      link_kept = λ h. cc;
      both = λ h. absurd (cc);
    },
  )
  tc_half s (panic f, v) l = (
    no_objects,
    record { undone = λ e h. cc; tc_kept = λ h. cc; link_kept = λ h. cc; both = λ h. absurd (cc) },
  )
  tc_half s (exit n, v) l = (
    no_objects,
    record { undone = λ e h. cc; tc_kept = λ h. cc; link_kept = λ h. cc; both = λ h. absurd (cc) },
  )

  pub load-Halves : (s : Host K) → (tc : Objects) × Halves s.kernel tc s.loader.xdp_link (load K s)
  unfolding load
  load-Halves s = tc_half s (load_tc_egress_objects K s.kernel) (tc-Loads K is_open L s.kernel)

  -- With a kernel that loads and closes as documented, a `Load` that fails, at the TC or at the XDP
  -- objects, leaves open exactly the descriptors that were open before.
  pub load_all_or_nothing :
      (s : Host K) (e : Error)
      → answer (load K s) ≡ err e
      → (h : ℕ) → is_open (world (load K s)).kernel h ≡ is_open s.kernel h
  load_all_or_nothing s e h = (load-Halves s).1.undone e h
