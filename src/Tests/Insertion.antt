-- ===== src/Tests/Insertion.antt =====
-- Insertion sort: a sort with the documented behaviour of `sort.Slice`.
use mathlib.Core.List.{Mem, Pairwise, Perm, mem-cons, not-mem-nil, rel_of_Pairwise-cons}
use mathlib.Core.Bool.{Bool-set}
use mathlib.Core.Logic.Or
use mathlib.Core.List.Pairwise
use mathlib.Core.List.Perm
use cilion.Base.{
  ◌≡◌, sym, subst, List, [], ◌∷◌, Bool, true, false, if◌then◌else◌, Bool-cases, inl, inr,
}
use cilion.Scion.Paths.Sort.{IsWeakOrder, IsOrdered, IsSort}

pick_true {ℓ} : {A : Type ℓ} (x y : A) (b : Bool) → b ≡ true → (if b then x else y) ≡ x
pick_true x y b h = rw h

pick_false {ℓ} : {A : Type ℓ} (x y : A) (b : Bool) → b ≡ false → (if b then x else y) ≡ y
pick_false x y b h = rw h

module _ {ℓ} {A : Type ℓ} (less : A → A → Bool) where
  place : A → List A → List A
  place a [] = a ∷ []
  place a (b ∷ l) = let rest = place a l in if less b a then b ∷ rest else a ∷ b ∷ l

  place-Perm : (a : A) (l : List A) → Perm (place a l) (a ∷ l)
  unfolding place
  place-Perm a [] = Perm.refl (a ∷ [])
  place-Perm a (b ∷ l) = elim (Bool-cases (less b a)) [
    | inl q ↦
        subst (λ t. Perm t (a ∷ b ∷ l)) (sym (pick_true _ _ (less b a) q))
          (Perm.trans (Perm.cons b (place-Perm a l)) (Perm.swap a b l))
    | inr q ↦
        subst (λ t. Perm t (a ∷ b ∷ l)) (sym (pick_false _ _ (less b a) q)) (Perm.refl (a ∷ b ∷ l))
  ]

  module _ (W : IsWeakOrder less) where
    asymm : (a b : A) → less b a ≡ true → less a b ≡ false
    asymm a b h = elim (Bool-cases (less a b)) [
      | inl q ↦ absurd (cc (W.trans a b a q h, W.irrefl a))
      | inr q ↦ q
    ]

    below :
        (a b : A) (l : List A)
        → less b a ≡ false
        → IsOrdered less (b ∷ l)
        → (x : A) → Mem x (b ∷ l)
        → less x a ≡ false
    below a b l h o x m =
        Or.elim (Bool-set (less x a) false) (mem-cons.0 m)
          (λ e. subst (λ u. less u a ≡ false) (sym e) h)
          (λ n. W.cotrans x b a (rel_of_Pairwise-cons o n) h)

    placed :
        (a b : A) (l : List A)
        → less b a ≡ true
        → IsOrdered less (b ∷ l)
        → (x : A) → Mem x (place a l)
        → less x b ≡ false
    placed a b l h o x m =
        Or.elim (Bool-set (less x b) false) (mem-cons.0 ((Perm.mem_iff (place-Perm a l)).0 m))
          (λ e. subst (λ u. less u b ≡ false) (sym e) (asymm a b h)) (rel_of_Pairwise-cons o)

    place-IsOrdered : (a : A) (l : List A) → IsOrdered less l → IsOrdered less (place a l)
    unfolding place
    place-IsOrdered a [] o = Pairwise.cons (λ x m. absurd (not-mem-nil m)) Pairwise.nil
    place-IsOrdered a (b ∷ l) o = elim (Bool-cases (less b a)) [
      | inl q ↦
          subst (IsOrdered less) (sym (pick_true _ _ (less b a) q))
            (Pairwise.cons (placed a b l q o) (place-IsOrdered a l (Pairwise.of_cons o)))
      | inr q ↦
          subst (IsOrdered less) (sym (pick_false _ _ (less b a) q))
            (Pairwise.cons (below a b l q o) o)
    ]

module _ {ℓ} {A : Type ℓ} where
  pub insertion_sort : (A → A → Bool) → List A → List A
  insertion_sort less [] = []
  insertion_sort less (a ∷ l) = place less a (insertion_sort less l)

  sorted-Perm : (less : A → A → Bool) (l : List A) → Perm (insertion_sort less l) l
  unfolding insertion_sort
  sorted-Perm less [] = Perm.refl []
  sorted-Perm less (a ∷ l) =
      Perm.trans (place-Perm less a (insertion_sort less l)) (Perm.cons a (sorted-Perm less l))

  sorted-IsOrdered :
      (less : A → A → Bool) (l : List A) → IsWeakOrder less → IsOrdered less (insertion_sort less l)
  unfolding insertion_sort
  sorted-IsOrdered less [] W = Pairwise.nil
  sorted-IsOrdered less (a ∷ l) W =
      place-IsOrdered less W a (insertion_sort less l) (sorted-IsOrdered less l W)

  pub insertion_sort-IsSort : IsSort insertion_sort
  insertion_sort-IsSort = record { permutes = sorted-Perm; orders = sorted-IsOrdered }
