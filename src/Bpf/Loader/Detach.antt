-- ===== src/Bpf/Loader/Detach.antt =====
-- Detaching: which filters a `DetachTC` leaves.
use mathlib.Core.List.{Memᴰ}
use cilion.Base.{
  ℕ, ◌≡◌, ◌≢◌, refl, sym, ◌∙◌, ap, subst, Bytes, codes, List, [], ◌∷◌, Bool, true, false,
  if◌then◌else◌,
}
use cilion.Effect.{
  Error, wrap, Result, ok, err, panic, exit, Exec, raise, recover, recover-ok, catch, world, answer,
}
use cilion.Bpf.Kernel.{Kernel, BpfFilter, Filter, bpf_filter, other_filter, handle_min_egress}
use cilion.Bpf.Loader.{Host, in_kernel, is_tc_egress, delete_filters, detach_tc}

-- A view of the egress filters of a link, with the documented behaviour of the calls: a list
-- reads them, a delete removes its filter, and a lookup of a link changes none.
pub record IsFilters (K : Kernel) (filters : K.World → List Filter) (index : ℕ) : Type 0 where
  pub list_ok :
      (w : K.World) (l : List Filter)
      → answer (K.filter_list index handle_min_egress w) ≡ ok l
      → (l ≡ filters w) × (filters (world (K.filter_list index handle_min_egress w)) ≡ filters w)
  pub del_ok :
      (f : BpfFilter) (w : K.World)
      → answer (K.filter_del f w) ≡ ok tt
      → (g : Filter) → Memᴰ g (filters (world (K.filter_del f w)))
      → Memᴰ g (filters w) × (g ≢ bpf_filter f)

module _ (K : Kernel) where
  -- A step whose error is wrapped, and after which the whole returned, succeeded.
  wrapped-ok :
      {A : Type 0} (h : Error → Error) (k : A → Exec (Host K) (Unit {0})) (p : Result A × Host K)
      → answer (recover (λ e. raise (h e)) k p) ≡ ok tt
      → (a : A) × (answer p ≡ ok a) × (recover (λ e. raise (h e)) k p ≡ k a (world p))
  wrapped-ok h k (ok a, s) r = (a, refl, refl)
  wrapped-ok h k (err e, s) r = absurd (cc r)
  wrapped-ok h k (panic q, s) r = absurd (cc r)
  wrapped-ok h k (exit n, s) r = absurd (cc r)

  module _ (filters : K.World → List Filter) (index : ℕ) (F : IsFilters K filters index)
      (name : Bytes) where
    -- The filters that `p` leaves were there, and none of `l` among them is the program's.
    abbrev Cleans : List Filter → Host K → Result (Unit {0}) × Host K → Type 0
    Cleans l s p =
        (g : Filter)
        → Memᴰ g (filters (world p).kernel)
        → Memᴰ g (filters s.kernel) × (Memᴰ g l → is_tc_egress g ≡ false)

    delete-Cleans :
        (f : BpfFilter) (l : List Filter) (s : Host K)
        → ((t : Host K)
            → answer (delete_filters K name l t) ≡ ok tt
            → Cleans l t (delete_filters K name l t))
        → (b : Bool) → is_tc_egress (bpf_filter f) ≡ b
        → let run =
            (if b
                then catch
                    (in_kernel K (K.filter_del f))
                    (λ e. raise (wrap (codes "DetachTC: del filter on %q: %w") (name ∷ []) e))
                    (λ _. delete_filters K name l)
                else delete_filters K name l)
              s in
          answer run ≡ ok tt → Cleans (bpf_filter f ∷ l) s run
    delete-Cleans f l s rest false foreign fine g m =
        let (old, ours) = rest s fine g m in
        (
          old,
          λ h. elim h [ Memᴰ.head same ↦ ap is_tc_egress same ∙ foreign | Memᴰ.tail t ↦ ours t ],
        )
    delete-Cleans f l s rest true mine fine g m =
        let (_, gone, e) =
          wrapped-ok (wrap (codes "DetachTC: del filter on %q: %w") (name ∷ []))
            (λ (_ : Unit {0}). delete_filters K name l) (in_kernel K (K.filter_del f) s) fine in
        let s₁ : Host K = record s { kernel = world (K.filter_del f s.kernel) } in
        let (now, ours) =
          rest s₁ (ap (λ q. q.0) (sym e) ∙ fine) g
            (subst (λ (q : Result (Unit {0}) × Host K). Memᴰ g (filters q.1.kernel)) e m) in
        let (old, ne) = F.del_ok f s.kernel gone g now in
        (old, λ h. elim h [ Memᴰ.head same ↦ absurd (ne same) | Memᴰ.tail t ↦ ours t ])

    delete_filters-Cleans :
        (l : List Filter) (s : Host K)
        → answer (delete_filters K name l s) ≡ ok tt
        → Cleans l s (delete_filters K name l s)
    unfolding delete_filters is_tc_egress
    delete_filters-Cleans [] s fine g m = (m, λ h. elim h [ ])
    delete_filters-Cleans (other_filter n ∷ l) s fine g m =
        let (old, ours) = delete_filters-Cleans l s fine g m in
        (old, λ h. elim h [ Memᴰ.head e ↦ ap is_tc_egress e | Memᴰ.tail t ↦ ours t ])
    delete_filters-Cleans (bpf_filter f ∷ l) s fine g m =
        delete-Cleans f l s (delete_filters-Cleans l) (is_tc_egress (bpf_filter f)) refl fine g m

    -- `DetachTC` behind the link.
    abbrev listed_then : ℕ → Exec (Host K) (Unit {0})
    listed_then i =
        catch (in_kernel K (K.filter_list i handle_min_egress))
          (λ e. raise (wrap (codes "DetachTC: list filters on %q: %w") (name ∷ []) e))
          (delete_filters K name)

    -- With filters that list and delete as documented, and a lookup of the link that changes none:
    -- after a `DetachTC` that succeeds, no filter of the link is one of the program's, and every
    -- filter that is left was there before.
    pub detach_tc_lem :
        (s : Host K)
        → answer (K.link_by_name name s.kernel) ≡ ok index
        → filters (world (K.link_by_name name s.kernel)) ≡ filters s.kernel
        → answer (detach_tc K name s) ≡ ok tt
        → (g : Filter) → Memᴰ g (filters (world (detach_tc K name s)).kernel)
        → Memᴰ g (filters s.kernel) × (is_tc_egress g ≡ false)
    unfolding detach_tc
    detach_tc_lem s found same fine g m =
        let e₁ =
          recover-ok (λ e. raise (wrap (codes "DetachTC: link %q not found: %w") (name ∷ []) e))
            (listed_then) (in_kernel K (K.link_by_name name) s) index found in
        let w₁ = world (K.link_by_name name s.kernel) in
        let s₁ : Host K = record s { kernel = w₁ } in
        let (l, listed, e₂) =
          wrapped-ok (wrap (codes "DetachTC: list filters on %q: %w") (name ∷ []))
            (delete_filters K name) (in_kernel K (K.filter_list index handle_min_egress) s₁)
            (ap (λ q. q.0) (sym e₁) ∙ fine) in
        let (all, kept) = F.list_ok w₁ l listed in
        let s₂ : Host K = record s { kernel = world (K.filter_list index handle_min_egress w₁) } in
        let e = e₁ ∙ e₂ in
        let (now, ours) =
          delete_filters-Cleans l s₂ (ap (λ q. q.0) (sym e) ∙ fine) g
            (subst (λ (q : Result (Unit {0}) × Host K). Memᴰ g (filters q.1.kernel)) e m) in
        (subst (Memᴰ g) (kept ∙ same) now, ours (subst (Memᴰ g) (kept ∙ sym all) now))
