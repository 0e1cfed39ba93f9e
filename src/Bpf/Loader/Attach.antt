-- ===== src/Bpf/Loader/Attach.antt =====
-- Attaching: the qdisc that exists already, and the link that an attach forgets.
use cilion.Base.{
  ℕ, ◌≡◌, ◌⊎◌, inl, inr, refl, ◌∙◌, ap, Bytes, codes, [], ◌∷◌, Option, none, some, Bool, true,
  false, not, ◌&&◌, ◌||◌, ◌==◌, Bool-cases, if◌then◌else◌, arith,
}
use cilion.Effect.{Error, wrap, Result, ok, err, raise, recover-ok, recover-err, world, answer}
use cilion.Bpf.Kernel.{Kernel, errors_is, eexist}
use cilion.Bpf.Loader.{
  Host, clsact, add_filter, on_qdisc_error, ensure_qdisc, attach_tc, forget_link, keep_link,
  attach_link, attach_xdp, close,
}
use cilion.Bpf.Loader.Descriptors.{IsKernel, is_handle, holds}
use cilion.Bpf.Loader.CloseObjects.{close_lem}

module _ (K : Kernel) where
  -- If the link is found and adding the qdisc fails because it exists, `AttachTC` goes on to the
  -- filter, as if it had added the qdisc.
  pub attach_tc_exists :
      (name : Bytes) (index : ℕ) (e : Error) (s : Host K)
      → answer (K.link_by_name name s.kernel) ≡ ok index
      → answer (K.qdisc_add (clsact K index) (world (K.link_by_name name s.kernel))) ≡ err e
      → errors_is e eexist ≡ true
      → attach_tc K name s
        ≡ add_filter K name index (record s {
          kernel = world (K.qdisc_add (clsact K index) (world (K.link_by_name name s.kernel)));
        })
  unfolding attach_tc ensure_qdisc on_qdisc_error
  attach_tc_exists name index e s found there same =
      recover-ok _ (ensure_qdisc K name) _ index found
      ∙ recover-err (on_qdisc_error K name index) (λ _. add_filter K name index) _ e there
      ∙ ap
          (λ b.
            (if b
                then add_filter K name index
                else raise (wrap (codes "AttachTC: add clsact qdisc on %q: %w") (name ∷ []) e))
              (record s {
                kernel =
                    world (K.qdisc_add (clsact K index) (world (K.link_by_name name s.kernel)));
              }))
          same

-- The documented behaviour of the two calls of `AttachXDP`: a lookup opens and closes nothing, and
-- an attach opens a new descriptor or fails and opens none.
pub record IsAttaching (K : Kernel) (is_open : K.World → ℕ → Bool) : Type 0 where
  pub lookup_keeps :
      (name : Bytes) (w : K.World) (h : ℕ) → is_open (world (K.link_by_name name w)) h ≡ is_open w h
  pub attaches :
      (program : Option ℕ) (index : ℕ) (w : K.World)
      → ((l : ℕ) × (answer (K.attach_xdp program index w) ≡ ok l)
          × (is_open w l ≡ false)
          × ((h : ℕ) → is_open (world (K.attach_xdp program index w)) h ≡ (l == h || is_open w h)))
        ⊎ ((e : Error) × (answer (K.attach_xdp program index w) ≡ err e)
            × ((h : ℕ) → is_open (world (K.attach_xdp program index w)) h ≡ is_open w h))

module _ (K : Kernel) (is_open : K.World → ℕ → Bool) (L : IsKernel K is_open)
    (A : IsAttaching K is_open) where
  -- The loader behind an attach: another link, or none.
  abbrev relinked : Host K → Option ℕ → K.World → Host K
  relinked s link w = record { kernel = w; loader = record s.loader { xdp_link = link } }

  attach_xdp-relinked :
      (name : Bytes) (index : ℕ) (s : Host K)
      → answer (K.link_by_name name s.kernel) ≡ ok index
      → (link : Option ℕ) × (w : K.World) × (world (attach_xdp K name s) ≡ relinked s link w)
        × ((h : ℕ) → is_open s.kernel h ≡ true → (is_handle link h ≡ false) × (is_open w h ≡ true))
  unfolding attach_xdp attach_link forget_link keep_link
  attach_xdp-relinked name index s found =
      let w₁ = world (K.link_by_name name s.kernel) in
      let s₁ = record s { kernel = w₁ } in
      let p = K.attach_xdp s.loader.xdp_objs.program index w₁ in
      let first = recover-ok _ (attach_link K name) _ index found in
      elim (A.attaches s.loader.xdp_objs.program index w₁) [
        | inl (l, fine, fresh, opened) ↦ (
          some l,
          world p,
          ap (λ (q : Result (Unit {0}) × Host K). q.1)
              (first ∙ recover-ok (forget_link K name) (keep_link K) _ l fine),
          λ h at.
              let at₁ : is_open w₁ h ≡ true = A.lookup_keeps name s.kernel h ∙ at in
              (apart l h fresh at₁, opened h ∙ ap (λ b. l == h || b) at₁ ∙ or_true (l == h)),
        )
        | inr (e, failed, same) ↦ (
          none,
          world p,
          ap (λ (q : Result (Unit {0}) × Host K). q.1)
              (first ∙ recover-err (forget_link K name) (keep_link K) _ e failed),
          λ h at. (refl, same h ∙ A.lookup_keeps name s.kernel h ∙ at),
        )
      ]
    where
      or_true : (b : Bool) → (b || true) ≡ true
      or_true true = refl
      or_true false = refl

      apart :
          (l h : ℕ)
          → is_open (world (K.link_by_name name s.kernel)) l ≡ false
          → is_open (world (K.link_by_name name s.kernel)) h ≡ true
          → (l == h) ≡ false
      apart l h shut at = elim (Bool-cases (l == h)) [
        | inl e ↦
            absurd (cc (ap (is_open (world (K.link_by_name name s.kernel))) (same l h e), shut, at))
        | inr e ↦ e
      ]
        where
          same : (l h : ℕ) → (l == h) ≡ true → l ≡ h
          same l h e = ground arith

  -- With a kernel that loads, closes, looks up and attaches as documented: an open XDP link that
  -- the loader holds and that is none of its objects' descriptors stays open behind an `AttachXDP`
  -- that finds its interface, whether it attaches or fails, and behind a `Close` after it.
  pub close-attach_xdp :
      (name : Bytes) (index l : ℕ) (s : Host K)
      → s.loader.xdp_link ≡ some l
      → is_open s.kernel l ≡ true
      → holds s.loader.tc_objs l ≡ false
      → holds s.loader.xdp_objs l ≡ false
      → answer (K.link_by_name name s.kernel) ≡ ok index
      → is_open (world (close K (world (attach_xdp K name s)))).kernel l ≡ true
  close-attach_xdp name index l s held at no_tc no_xdp found =
      let (link, w, e, kept) = attach_xdp-relinked name index s found in
      let (apart, still) = kept l at in
      ap (λ t. is_open (world (close K t)).kernel l) e
      ∙ close_lem K is_open L (relinked s link w) l
      ∙ left (is_handle link l) _ _ (is_open w l) apart no_tc no_xdp still
    where
      left :
          (a b c d : Bool)
          → a ≡ false
          → b ≡ false
          → c ≡ false
          → d ≡ true
          → (not (a || b || c) && d) ≡ true
      left a b c d ha hb hc hd = rw (ha, hb, hc, hd) refl
