-- ===== src/Bpf/Loader/CloseObjects.antt =====
-- What `Close` closes, and that it undoes `Load`.
use cilion.Base.{
  ℕ, ◌≡◌, refl, ◌∙◌, ap, Option, none, some, Bool, true, false, not, ◌&&◌, ◌||◌, arith,
}
use cilion.Effect.{Result, ok, pure, recover, recover-ok, world, answer}
use cilion.Bpf.Kernel.{Kernel}
use cilion.Bpf.Loader.{
  Host, close_objects, load, close_link, close_xdp_objects, close_tc_objects, close,
}
use cilion.Bpf.Loader.Descriptors.{IsKernel, is_handle, holds, close_objects-Closes}
use cilion.Bpf.Loader.LoadObjects.{load-Halves}

module _ (K : Kernel) (is_open : K.World → ℕ → Bool) (L : IsKernel K is_open) where
  abbrev unlinked : Option ℕ → ℕ → Bool → Bool
  unlinked l h b = not (is_handle l h) && b

  close_link_lem :
      (l : Option ℕ) (s : Host K)
      → (v : K.World) × (close_link K l s ≡ (ok tt, record s { kernel = v }))
        × ((h : ℕ) → is_open v h ≡ unlinked l h (is_open s.kernel h))
  unfolding close_link
  close_link_lem none s = (s.kernel, refl, λ h. refl)
  close_link_lem (some l) s =
      let (fine, gone) = L.close_ok (some l) s.kernel in
      (
        world (K.close_handle (some l) s.kernel),
        ap (λ r. (r, record s { kernel = world (K.close_handle (some l) s.kernel) })) fine,
        gone,
      )

  close_xdp_lem :
      (s : Host K)
      → close_xdp_objects K s
        ≡ (ok tt, record s { kernel = world (close_objects K s.loader.xdp_objs s.kernel) })
  unfolding close_xdp_objects
  close_xdp_lem s =
      recover-ok (λ _. pure tt) (λ _. pure tt) _ tt
        (close_objects-Closes K is_open L s.loader.xdp_objs s.kernel).0

  close_tc_lem :
      (s : Host K)
      → close_tc_objects K s ≡ (
        ok tt,
        record s {
          kernel = world (
              close_objects K s.loader.xdp_objs
                (world (close_objects K s.loader.tc_objs s.kernel)));
        },
      )
  unfolding close_tc_objects
  close_tc_lem s =
      recover-ok (λ _. close_xdp_objects K) (λ _. close_xdp_objects K) _ tt
        (close_objects-Closes K is_open L s.loader.tc_objs s.kernel).0
      ∙ close_xdp_lem (record s { kernel = world (close_objects K s.loader.tc_objs s.kernel) })

  -- With a kernel that loads and closes as documented, `Close` closes the link and the descriptors
  -- of both objects, and no other.
  pub close_lem :
      (s : Host K) (h : ℕ)
      → is_open (world (close K s)).kernel h ≡ (
          not
            (is_handle s.loader.xdp_link h || holds s.loader.tc_objs h || holds s.loader.xdp_objs h)
          && is_open s.kernel h)
  unfolding close
  close_lem s h =
      let (v, e, gone) = close_link_lem s.loader.xdp_link s in
      let tc = s.loader.tc_objs in
      let xdp = s.loader.xdp_objs in
      ap (λ (q : Result (Unit {0}) × Host K). is_open q.1.kernel h)
        (ap (recover (λ _. close_tc_objects K) (λ _. close_tc_objects K)) e
          ∙ close_tc_lem (record s { kernel = v }))
      ∙ (close_objects-Closes K is_open L xdp (world (close_objects K tc v))).1 h
      ∙ ap (λ b. not (holds xdp h) && b)
          ((close_objects-Closes K is_open L tc v).1 h ∙ ap (λ b. not (holds tc h) && b) (gone h))
      ∙ three (is_handle s.loader.xdp_link h) (holds tc h) (holds xdp h) (is_open s.kernel h)
    where
      three : (a b c d : Bool) → (not c && (not b && (not a && d))) ≡ (not (a || b || c) && d)
      three a b c d = ground arith

  -- The two loads undone at once.
  undo_both :
      (tc xdp old mid now : Bool)
      → (tc ≡ true → old ≡ false)
      → mid ≡ (tc || old)
      → (xdp ≡ true → mid ≡ false)
      → now ≡ (xdp || mid)
      → (not (false || tc || xdp) && now) ≡ old
  undo_both tc xdp old mid now fresh₁ added₁ fresh₂ added₂ = ground arith

  -- With a kernel that loads and closes as documented, a `Load` that succeeds and a `Close` behind
  -- it leave open exactly what was open before, if no link was attached.
  pub close-load :
      (s : Host K)
      → s.loader.xdp_link ≡ none
      → answer (load K s) ≡ ok tt
      → (h : ℕ) → is_open (world (close K (world (load K s)))).kernel h ≡ is_open s.kernel h
  close-load s unlinked fine h =
      let t = world (load K s) in
      let (tc, halves) = load-Halves K is_open L s in
      let (v, first, second) = halves.both fine in
      close_lem t h
      ∙ ap
          (λ l.
            not (is_handle l h || holds t.loader.tc_objs h || holds t.loader.xdp_objs h)
            && is_open t.kernel h)
          (halves.link_kept fine ∙ unlinked)
      ∙ ap (λ o. not (false || holds o h || holds t.loader.xdp_objs h) && is_open t.kernel h)
          (halves.tc_kept fine)
      ∙ undo_both (holds tc h) (holds t.loader.xdp_objs h) (is_open s.kernel h) (is_open v h)
          (is_open t.kernel h) (first h).0 (first h).1 (second h).0 (second h).1
