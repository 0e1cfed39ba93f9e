-- ===== src/Bpf/Loader/Descriptors.antt =====
-- The descriptors that the loads and the closes of objects open and close.
use cilion.Base.{
  ℕ, ◌≡◌, refl, sym, ◌∙◌, ap, Bytes, length, List, [], ◌∷◌, Option, none, some, Bool, true, false,
  not, ◌&&◌, ◌||◌, ◌==◌, if◌then◌else◌, arith,
}
use cilion.Effect.{
  Error, Result, ok, err, panic, exit, Exec, raise, continue-ok, recover, world, answer,
}
use cilion.Bpf.Kernel.{Kernel, Objects}
use cilion.Bpf.Loader.{close_all, close_objects, load_tc_egress_objects, load_xdp_ingress_objects}

abbrev pub is_handle : Option ℕ → ℕ → Bool
is_handle none h = false
is_handle (some g) h = g == h

-- `h` is one of the three handles of the objects.
abbrev pub holds : Objects → ℕ → Bool
holds o h = is_handle o.program h || is_handle o.pod_policy_map h || is_handle o.scion_path_cache h

-- The documented behaviour of loading and closing: a successful load opens new descriptors, those
-- of its objects, a failed one opens none; a close closes its own.
pub record IsKernel (K : Kernel) (is_open : K.World → ℕ → Bool) : Type 0 where
  pub spec_keeps :
      (b : Bytes) (w : K.World) (h : ℕ) → is_open (world (K.load_spec b w)) h ≡ is_open w h
  pub assign_ok :
      (p : K.Spec) (w : K.World) (o : Objects)
      → answer (K.load_and_assign p w) ≡ ok o
      → (h : ℕ)
      → (holds o h ≡ true → is_open w h ≡ false)
        × (is_open (world (K.load_and_assign p w)) h ≡ (holds o h || is_open w h))
  pub assign_err :
      (p : K.Spec) (w : K.World) (e : Error)
      → answer (K.load_and_assign p w) ≡ err e
      → (h : ℕ) → is_open (world (K.load_and_assign p w)) h ≡ is_open w h
  pub close_ok :
      (c : Option ℕ) (w : K.World)
      → (answer (K.close_handle c w) ≡ ok tt)
        × ((h : ℕ) → is_open (world (K.close_handle c w)) h ≡ (not (is_handle c h) && is_open w h))

module _ (K : Kernel) (is_open : K.World → ℕ → Bool) (L : IsKernel K is_open) where
  -- What a load of objects answers and opens.
  pub record Loads (w : K.World) (p : Result Objects × K.World) : Type 0 where
    pub loaded :
        (o : Objects)
        → answer p ≡ ok o
        → (h : ℕ)
        → (holds o h ≡ true → is_open w h ≡ false)
          × (is_open (world p) h ≡ (holds o h || is_open w h))
    pub failed : (e : Error) → answer p ≡ err e → (h : ℕ) → is_open (world p) h ≡ is_open w h

  assign-Loads : (p : K.Spec) (w : K.World) → Loads w (K.load_and_assign p w)
  assign-Loads p w = record { loaded = L.assign_ok p w; failed = L.assign_err p w }

  spec_step :
      (f : Error → Error) (w : K.World) (p : Result K.Spec × K.World)
      → ((h : ℕ) → is_open (world p) h ≡ is_open w h)
      → Loads w (recover (λ e v. (err (f e), v)) K.load_and_assign p)
  spec_step f w (ok spec, v) same = record {
    loaded = λ o e h.
        let (fresh, added) = L.assign_ok spec v o e h in
        (λ q. sym (same h) ∙ fresh q, added ∙ ap (λ b. holds o h || b) (same h));
    failed = λ e q h. L.assign_err spec v e q h ∙ same h;
  }
  spec_step f w (err e, v) same = record { loaded = λ o q. cc; failed = λ _ _ h. same h }
  spec_step f w (panic q, v) same = record { loaded = λ o q. cc; failed = λ _ _ h. same h }
  spec_step f w (exit n, v) same = record { loaded = λ o q. cc; failed = λ _ _ h. same h }

  compiled_step :
      (b : Bool) (e : Error) (m : Exec K.World Objects) (w : K.World)
      → Loads w (m w)
      → Loads w ((if b then raise e else m) w)
  compiled_step true e m w l = record { loaded = λ o q. cc; failed = λ _ _ h. refl }
  compiled_step false e m w l = l

  pub tc-Loads : (w : K.World) → Loads w (load_tc_egress_objects K w)
  unfolding load_tc_egress_objects
  tc-Loads w =
      compiled_step (length K.tc_egress_bytes == 0) _ _ w
        (spec_step _ w (K.load_spec K.tc_egress_bytes w) (L.spec_keeps K.tc_egress_bytes w))

  pub xdp-Loads : (w : K.World) → Loads w (load_xdp_ingress_objects K w)
  unfolding load_xdp_ingress_objects
  xdp-Loads w =
      compiled_step (length K.xdp_ingress_bytes == 0) _ _ w
        (spec_step _ w (K.load_spec K.xdp_ingress_bytes w) (L.spec_keeps K.xdp_ingress_bytes w))

  abbrev pub Closes : (ℕ → Bool) → K.World → Result (Unit {0}) × K.World → Type 0
  Closes held w p =
      (answer p ≡ ok tt) × ((h : ℕ) → is_open (world p) h ≡ (not (held h) && is_open w h))

  abbrev held_by : List (Option ℕ) → ℕ → Bool
  held_by [] h = false
  held_by (c ∷ cs) h = is_handle c h || held_by cs h

  close_all-Closes : (cs : List (Option ℕ)) (w : K.World) → Closes (held_by cs) w (close_all K cs w)
  unfolding close_all
  close_all-Closes [] w = (refl, λ h. refl)
  close_all-Closes (c ∷ cs) w =
      let (fine, gone) = L.close_ok c w in
      let w₁ = world (K.close_handle c w) in
      let (fine', gone') = close_all-Closes cs w₁ in
      let e = continue-ok (λ (_ : Unit {0}). close_all K cs) (K.close_handle c w) tt fine in
      (
        ap (λ p. answer p) e ∙ fine',
        λ h.
            ap (λ p. is_open (world p) h) e
            ∙ gone' h
            ∙ ap (λ b. not (held_by cs h) && b) (gone h)
            ∙ merge (is_handle c h) (held_by cs h) (is_open w h),
      )
    where
      merge : (a b d : Bool) → (not b && (not a && d)) ≡ (not (a || b) && d)
      merge a b d = ground arith

  pub close_objects-Closes : (o : Objects) (w : K.World) → Closes (holds o) w (close_objects K o w)
  unfolding close_objects
  close_objects-Closes o w =
      let (fine, gone) =
        close_all-Closes (o.program ∷ o.pod_policy_map ∷ o.scion_path_cache ∷ []) w in
      (
        fine,
        λ h.
            gone h
            ∙ regroup (is_handle o.program h) (is_handle o.pod_policy_map h)
                (is_handle o.scion_path_cache h) (is_open w h),
      )
    where
      regroup : (a b c d : Bool) → (not (a || (b || (c || false))) && d) ≡ (not (a || b || c) && d)
      regroup a b c d = ground arith
