-- ===== src/Copies/Slices.antt =====
-- Deep copies of slices and of what a pointer leads to.
use cilion.Base.{
  ℕ, ◌≡◌, refl, sym, ◌∙◌, ap, subst, List, [], ◌∷◌, Option, none, some, ◌==◌, if◌then◌else◌, arith,
}
use cilion.Copies.{Metav1, Pointer, Cell, Heap, reserve, put, Copy, each_into, slice_into}
use cilion.Copies.Shape.{Shape, Old, New, Copied, IsDeep, Within-later, both-Copied}

module _ {M : Metav1} {X : Type 0} (S : Shape M X) where
  abbrev pub all_values : List X → Heap M → List S.Value
  all_values [] h = []
  all_values (x ∷ l) h = S.value x h ∷ all_values l h

  abbrev pub AllWithin : (ℕ → Type 0) → List X → Heap M → Type 0
  AllWithin R [] h = Unit
  AllWithin R (x ∷ l) h = S.Within R x h × AllWithin R l h

  pub all_mono :
      (R U : ℕ → Type 0) (l : List X) (h : Heap M)
      → ((a : ℕ) → R a → U a)
      → AllWithin R l h
      → AllWithin U l h
  all_mono R U [] h sub w = tt
  all_mono R U (x ∷ l) h sub (v, w) = (S.mono R U x h sub v, all_mono R U l h sub w)

  pub all_values-frame :
      (R : ℕ → Type 0) (l : List X) (h h' : Heap M)
      → AllWithin R l h
      → ((a : ℕ) → R a → h'.cells a ≡ h.cells a)
      → all_values l h' ≡ all_values l h
  all_values-frame R [] h h' w e = refl
  all_values-frame R (x ∷ l) h h' (v, w) e =
      λ i. S.value-frame R x h h' v e i ∷ all_values-frame R l h h' w e i

  pub AllWithin-frame :
      (R : ℕ → Type 0) (l : List X) (h h' : Heap M)
      → AllWithin R l h
      → ((a : ℕ) → R a → h'.cells a ≡ h.cells a)
      → AllWithin R l h'
  AllWithin-frame R [] h h' w e = tt
  AllWithin-frame R (x ∷ l) h h' (v, w) e =
      (S.within_frame R x h h' v e, AllWithin-frame R l h h' w e)

  -- The elements of an array.
  abbrev pub elements : Shape M (List X)
  elements = record {
    Value = List S.Value;
    value = all_values;
    Within = AllWithin;
    mono = all_mono;
    value-frame = all_values-frame;
    within_frame = AllWithin-frame;
  }

  pub each-IsDeep : (f : Copy M X) → IsDeep S f → IsDeep elements (each_into f)
  unfolding each_into
  each-IsDeep f deep [] h w = record {
    grows = omega arith;
    kept = λ a old. refl;
    same = refl;
    fresh = tt;
  }
  each-IsDeep f deep (x ∷ l) h (v, w) =
      let c = deep x h v in
      let d =
        each-IsDeep f deep l (f x h).1 (Within-later elements l h (f x h).1 c.grows c.kept w) in
      let both = both-Copied S elements x _ l _ h _ _ w c d in
      record {
        grows = both.grows;
        kept = both.kept;
        same = λ i. (both.same i).0 ∷ (both.same i).1;
        fresh = both.fresh;
      }

-- A slice, by the cells that hold its elements.
module _ {M : Metav1} {X : Type 0} (S : Shape M X) (wrap : List X → Cell M)
    (opened : Cell M → List X) where
  abbrev pub slice_value : Pointer → Heap M → Option (List S.Value)
  slice_value none h = none
  slice_value (some a) h = some (all_values S (opened (h.cells a)) h)

  abbrev pub SliceWithin : (ℕ → Type 0) → Pointer → Heap M → Type 0
  SliceWithin R none h = Unit
  SliceWithin R (some a) h = R a × AllWithin S R (opened (h.cells a)) h

  pub slice_mono :
      (R U : ℕ → Type 0) (x : Pointer) (h : Heap M)
      → ((a : ℕ) → R a → U a)
      → SliceWithin R x h
      → SliceWithin U x h
  slice_mono R U none h sub w = tt
  slice_mono R U (some a) h sub (r, w) = (sub a r, all_mono S R U (opened (h.cells a)) h sub w)

  pub slice_value-frame :
      (R : ℕ → Type 0) (x : Pointer) (h h' : Heap M)
      → SliceWithin R x h
      → ((a : ℕ) → R a → h'.cells a ≡ h.cells a)
      → slice_value x h' ≡ slice_value x h
  slice_value-frame R none h h' w e = refl
  slice_value-frame R (some a) h h' (r, w) e =
      ap (λ c. some (all_values S (opened c) h')) (e a r)
      ∙ ap some (all_values-frame S R (opened (h.cells a)) h h' w e)

  pub SliceWithin-frame :
      (R : ℕ → Type 0) (x : Pointer) (h h' : Heap M)
      → SliceWithin R x h
      → ((a : ℕ) → R a → h'.cells a ≡ h.cells a)
      → SliceWithin R x h'
  SliceWithin-frame R none h h' w e = tt
  SliceWithin-frame R (some a) h h' (r, w) e = (
    r,
    subst (λ c. AllWithin S R (opened c) h') (sym (e a r))
        (AllWithin-frame S R (opened (h.cells a)) h h' w e),
  )

  abbrev pub slice : Shape M Pointer
  slice = record {
    Value = Option (List S.Value);
    value = slice_value;
    Within = SliceWithin;
    mono = slice_mono;
    value-frame = slice_value-frame;
    within_frame = SliceWithin-frame;
  }

  -- The copy of an array behind a new address.
  stored-Copied :
      (a : ℕ) (h h₁ : Heap M) (l : List X)
      → ((m : List X) → opened (wrap m) ≡ m)
      → AllWithin S (Old h) (opened (h.cells a)) h
      → Copied (elements S) (opened (h.cells a)) (reserve h) l h₁
      → Copied slice (some a) h (some h.next) (put h.next (wrap l) h₁)
  stored-Copied a h h₁ l back w c =
      let h' = put h.next (wrap l) h₁ in
      let here : opened (h'.cells h.next) ≡ l =
        ap opened (at_eq h.next (wrap l) (h₁.cells h.next)) ∙ back l in
      let frame : (b : ℕ) → New (reserve h) h₁ b → h'.cells b ≡ h₁.cells b =
        λ b new. at_ne b h.next (wrap l) (h₁.cells b) (omega (arith, new.0)) in
      record {
        grows = omega (arith, c.grows);
        kept = λ b old. at_ne b h.next (wrap l) (h₁.cells b) (omega arith) ∙ c.kept b (omega arith);
        same = ap some (
            ap (λ m. all_values S m h') here
            ∙ all_values-frame S (New (reserve h) h₁) l h₁ h' c.fresh frame
            ∙ c.same
            ∙ all_values-frame S (Old h) (opened (h.cells a)) h (reserve h) w (λ b old. refl));
        fresh = (
          (omega arith, omega (arith, c.grows)),
          subst (λ m. AllWithin S (New h h') m h') (sym here)
              (all_mono S (New (reserve h) h₁) (New h h') l h'
                (λ b new. (omega (arith, new.0), new.1))
                (AllWithin-frame S (New (reserve h) h₁) l h₁ h' c.fresh frame)),
        );
      }
    where
      at_eq : (n : ℕ) (c d : Cell M) → (if n == n then c else d) ≡ c
      at_eq n c d = ground arith

      at_ne : (b n : ℕ) (c d : Cell M) → (b ≡ n → ⊥) → (if b == n then c else d) ≡ d
      at_ne b n c d ne = ground arith

  pub slice-IsDeep :
      (f : Copy M X)
      → ((m : List X) → opened (wrap m) ≡ m)
      → IsDeep S f
      → IsDeep slice (slice_into f wrap opened)
  unfolding slice_into
  slice-IsDeep f back deep none h w = record {
    grows = omega arith;
    kept = λ a old. refl;
    same = refl;
    fresh = tt;
  }
  slice-IsDeep f back deep (some a) h (r, w) = stored-Copied a h _ _ back w (
      each-IsDeep S f deep (opened (h.cells a)) (reserve h) (
        all_mono S (Old h) (Old (reserve h)) _ (reserve h) (λ b old. omega arith)
          (AllWithin-frame S (Old h) (opened (h.cells a)) h (reserve h) w (λ b old. refl))))
