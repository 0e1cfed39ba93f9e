-- ===== src/Copies/Cells.antt =====
-- Deep copies behind a single pointer, what metav1 promises, and what a deep copy is good for.
use cilion.Base.{ℕ, ◌≡◌, refl, ◌∙◌, ap, Option, none, some, ◌==◌, if◌then◌else◌, arith}
use cilion.Copies.{Metav1, Pointer, Cell, Heap, Copy, cell_into, Vendor}
use cilion.Copies.Shape.{Shape, Old, New, IsDeep}

module _ {M : Metav1} {A : Type 0} (opened : Cell M → A) where
  abbrev pub cell_value : Pointer → Heap M → Option A
  cell_value none h = none
  cell_value (some a) h = some (opened (h.cells a))

  abbrev pub CellWithin : (ℕ → Type 0) → Pointer → Type 0
  CellWithin R none = Unit
  CellWithin R (some a) = R a

  pub cell_mono :
      (R U : ℕ → Type 0) (x : Pointer) → ((a : ℕ) → R a → U a) → CellWithin R x → CellWithin U x
  cell_mono R U none sub w = tt
  cell_mono R U (some a) sub w = sub a w

  pub cell_value-frame :
      (R : ℕ → Type 0) (x : Pointer) (h h' : Heap M)
      → CellWithin R x
      → ((a : ℕ) → R a → h'.cells a ≡ h.cells a)
      → cell_value x h' ≡ cell_value x h
  cell_value-frame R none h h' w e = refl
  cell_value-frame R (some a) h h' w e = ap (λ c. some (opened c)) (e a w)

  -- A pointer to a value without pointers.
  abbrev pub cell : Shape M Pointer
  cell = record {
    Value = Option A;
    value = cell_value;
    Within = λ R x h. CellWithin R x;
    mono = λ R U x h. cell_mono R U x;
    value-frame = cell_value-frame;
    within_frame = λ R x h h' w e. w;
  }

  pub cell-IsDeep :
      (wrap : A → Cell M) → ((v : A) → opened (wrap v) ≡ v) → IsDeep cell (cell_into wrap opened)
  unfolding cell_into
  cell-IsDeep wrap back none h w = record {
    grows = omega arith;
    kept = λ a old. refl;
    same = refl;
    fresh = tt;
  }
  cell-IsDeep wrap back (some a) h w =
      let v = opened (h.cells a) in
      record {
        grows = omega arith;
        kept = λ b old. at_ne b h.next (wrap v) (h.cells b) (omega arith);
        same = ap some (ap opened (at_eq h.next (wrap v) (h.cells h.next)) ∙ back v);
        fresh = (omega arith, omega arith);
      }
    where
      at_eq : (n : ℕ) (c d : Cell M) → (if n == n then c else d) ≡ c
      at_eq n c d = ground arith

      at_ne : (b n : ℕ) (c d : Cell M) → (b ≡ n → ⊥) → (if b == n then c else d) ≡ d
      at_ne b n c d ne = ground arith

-- The documented behaviour of the copies of metav1: they are deep.
pub record IsVendor {M : Metav1} (D : Vendor M) : Type 1 where
  pub object_meta : Shape M M.ObjectMeta
  pub list_meta : Shape M M.ListMeta
  pub label_selector : Shape M M.LabelSelector
  pub condition : Shape M M.Condition
  pub object_meta_deep : IsDeep object_meta D.object_meta_into
  pub list_meta_deep : IsDeep list_meta D.list_meta_into
  pub label_selector_deep : IsDeep label_selector D.label_selector_into
  pub condition_deep : IsDeep condition D.condition_into

-- A copy and its original are worth the same, and neither sees what is written through the other:
-- the original is worth the same in any heap that agrees on what was in use before the copy, and
-- the copy in any heap that agrees on what came into use by it.
abbrev pub Independent : {M : Metav1} {X : Type 0} → Shape M X → X → Heap M → X × Heap M → Type 0
Independent {M} S x h p =
    (S.value p.0 p.1 ≡ S.value x h)
    × ((k : Heap M) → ((a : ℕ) → Old h a → k.cells a ≡ p.1.cells a) → S.value x k ≡ S.value x h)
    × ((k : Heap M)
        → ((a : ℕ) → New h p.1 a → k.cells a ≡ p.1.cells a)
        → S.value p.0 k ≡ S.value x h)

pub deep-Independent :
    {M : Metav1} {X : Type 0} (S : Shape M X) (f : Copy M X)
    → IsDeep S f
    → (x : X) (h : Heap M) → S.Within (Old h) x h
    → Independent S x h (f x h)
deep-Independent S f deep x h w =
    let c = deep x h w in
    let p = f x h in
    (
      c.same,
      λ k e. S.value-frame (Old h) x h k w (λ a old. e a old ∙ c.kept a old),
      λ k e. S.value-frame (New h p.1) p.0 p.1 k c.fresh e ∙ c.same,
    )
