-- ===== src/Copies/Shape.antt =====
-- Values in a heap: what they are worth, where they point, and what a deep copy of one is.
use cilion.Base.{ℕ, ◌≤◌, ◌<◌, ◌≡◌, refl, ◌∙◌, arith}
use cilion.Copies.{Metav1, Heap, Copy}

-- How values of a type are read: `value` is what a value stands for once its pointers are followed,
-- `Within R` says that they lead to addresses in `R` only. Both depend on nothing else.
pub record Shape (M : Metav1) (X : Type 0) : Type 1 where
  pub Value : Type 0
  pub value : X → Heap M → Value
  pub Within : (ℕ → Type 0) → X → Heap M → Type 0
  pub mono :
      (R S : ℕ → Type 0) (x : X) (h : Heap M) → ((a : ℕ) → R a → S a) → Within R x h → Within S x h
  pub value-frame :
      (R : ℕ → Type 0) (x : X) (h h' : Heap M)
      → Within R x h
      → ((a : ℕ) → R a → h'.cells a ≡ h.cells a)
      → value x h' ≡ value x h
  pub within_frame :
      (R : ℕ → Type 0) (x : X) (h h' : Heap M)
      → Within R x h
      → ((a : ℕ) → R a → h'.cells a ≡ h.cells a)
      → Within R x h'

-- The addresses of a heap that are in use, and those in use in the second heap only.
abbrev pub Old : {M : Metav1} → Heap M → ℕ → Type 0
Old h a = a < h.next

abbrev pub New : {M : Metav1} → Heap M → Heap M → ℕ → Type 0
New h h' a = (h.next ≤ a) × (a < h'.next)

-- `y` in the heap `h'` is a deep copy of `x` in `h`: it is worth the same, it shares no address with
-- anything that was in use, and what was in use is as it was.
pub record Copied {M : Metav1} {X : Type 0} (S : Shape M X) (x : X) (h : Heap M) (y : X)
    (h' : Heap M) : Type 0 where
  pub grows : h.next ≤ h'.next
  pub kept : (a : ℕ) → Old h a → h'.cells a ≡ h.cells a
  pub same : S.value y h' ≡ S.value x h
  pub fresh : S.Within (New h h') y h'

-- A function makes deep copies of all values that are wholly in use.
abbrev pub IsDeep : {M : Metav1} {X : Type 0} → Shape M X → Copy M X → Type 0
IsDeep {M} {X} S f = (x : X) (h : Heap M) → S.Within (Old h) x h → Copied S x h (f x h).0 (f x h).1

module _ {M : Metav1} where
  -- Values without pointers.
  abbrev pub plain : (X : Type 0) → Shape M X
  plain X = record {
    Value = X;
    value = λ x h. x;
    Within = λ R x h. Unit;
    mono = λ R S x h sub w. tt;
    value-frame = λ R x h h' w e. refl;
    within_frame = λ R x h h' w e. tt;
  }

  -- Values of two parts.
  abbrev pub pair : {X Y : Type 0} → Shape M X → Shape M Y → Shape M (X × Y)
  pair S T = record {
    Value = S.Value × T.Value;
    value = λ p h. (S.value p.0 h, T.value p.1 h);
    Within = λ R p h. S.Within R p.0 h × T.Within R p.1 h;
    mono = λ R U p h sub w. (S.mono R U p.0 h sub w.0, T.mono R U p.1 h sub w.1);
    value-frame =
        λ R p h h' w e i. (S.value-frame R p.0 h h' w.0 e i, T.value-frame R p.1 h h' w.1 e i);
    within_frame =
        λ R p h h' w e. (S.within_frame R p.0 h h' w.0 e, T.within_frame R p.1 h h' w.1 e);
  }

  -- Structs, by their fields.
  abbrev pub via : {X Y : Type 0} → (X → Y) → Shape M Y → Shape M X
  via g S = record {
    Value = S.Value;
    value = λ x h. S.value (g x) h;
    Within = λ R x h. S.Within R (g x) h;
    mono = λ R U x h sub w. S.mono R U (g x) h sub w;
    value-frame = λ R x h h' w e. S.value-frame R (g x) h h' w e;
    within_frame = λ R x h h' w e. S.within_frame R (g x) h h' w e;
  }

  -- Copies of two parts, one after the other.
  abbrev pub pair_into : {X Y : Type 0} → Copy M X → Copy M Y → Copy M (X × Y)
  pair_into f g p h = let q = f p.0 h in let r = g p.1 q.1 in ((q.0, r.0), r.1)

  -- What was in use before the first of two steps is in use between them.
  pub Within-later :
      {X : Type 0} (S : Shape M X) (x : X) (h h' : Heap M)
      → h.next ≤ h'.next
      → ((a : ℕ) → Old h a → h'.cells a ≡ h.cells a)
      → S.Within (Old h) x h
      → S.Within (Old h') x h'
  Within-later S x h h' grows kept w =
      S.mono (Old h) (Old h') x h' (λ a old. omega arith) (S.within_frame (Old h) x h h' w kept)

  -- Two copies in a row: the first one stays as it is made.
  pub both-Copied :
      {X Y : Type 0} (S : Shape M X) (T : Shape M Y) (x x' : X) (y y' : Y) (h h₁ h₂ : Heap M)
      → T.Within (Old h) y h
      → Copied S x h x' h₁
      → Copied T y h₁ y' h₂
      → Copied (pair S T) (x, y) h (x', y') h₂
  both-Copied S T x x' y y' h h₁ h₂ w c d = record {
    grows = omega (arith, c.grows, d.grows);
    kept = λ a old. d.kept a (omega (arith, c.grows)) ∙ c.kept a old;
    same = λ i. (
      (S.value-frame (New h h₁) x' h₁ h₂ c.fresh (λ a new. d.kept a new.1) ∙ c.same) i,
      (d.same ∙ T.value-frame (Old h) y h h₁ w c.kept) i,
    );
    fresh = (
      S.mono (New h h₁) (New h h₂) x' h₂ (λ a new. (new.0, omega (arith, new.1, d.grows)))
          (S.within_frame (New h h₁) x' h₁ h₂ c.fresh (λ a new. d.kept a new.1)),
      T.mono (New h₁ h₂) (New h h₂) y' h₂ (λ a new. (omega (arith, new.0, c.grows), new.1)) d.fresh,
    );
  }

  pub pair-IsDeep :
      {X Y : Type 0} (S : Shape M X) (T : Shape M Y) (f : Copy M X) (g : Copy M Y)
      → IsDeep S f
      → IsDeep T g
      → IsDeep (pair S T) (pair_into f g)
  pair-IsDeep S T f g df dg p h w =
      let c = df p.0 h w.0 in
      both-Copied S T p.0 _ p.1 _ h _ _ w.1 c
        (dg p.1 (f p.0 h).1 (Within-later T p.1 h (f p.0 h).1 c.grows c.kept w.1))

  pub plain-IsDeep : (X : Type 0) → IsDeep (plain X) (λ x h. (x, h))
  plain-IsDeep X x h w = record {
    grows = omega arith;
    kept = λ a old. refl;
    same = refl;
    fresh = tt;
  }
