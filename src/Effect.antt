-- ===== src/Effect.antt =====
-- Go's effects: a call returns a value or an error, panics, or ends the process; what it did to
-- the world before that stays done.
use cilion.Base.{
  ◌≡◌, refl, ap, Bytes, ℕ, List, Option, none, some, Bool, true, false, if◌then◌else◌,
}

-- Go's `error`. `errorf` is a call of `fmt.Errorf` with its format and operands; `wrap` is one
-- that wraps an error by `%w`.
pub data Error : Type 0 where
  errno : ℕ → Error
  errorf : Bytes → List Bytes → Error
  wrap : Bytes → List Bytes → Error → Error

-- The run-time panics that the code can meet.
pub data Fault : Type 0 where
  nil_dereference : Fault

pub data Result {ℓ} (A : Type ℓ) : Type ℓ where
  ok : A → Result A
  err : Error → Result A
  panic : Fault → Result A
  exit : ℕ → Result A

abbrev pub Exec {ℓ} : Type ℓ → Type ℓ → Type ℓ
Exec W A = W → Result A × W

module _ {ℓ} {W A : Type ℓ} where
  abbrev pub pure : A → Exec W A
  pure a w = (ok a, w)

  abbrev pub raise : Error → Exec W A
  raise e w = (err e, w)

  abbrev pub lift : Result A → Exec W A
  lift r w = (r, w)

  -- `*p`, and a method called through the interface `p`.
  abbrev pub deref : Option A → Exec W A
  deref none w = (panic nil_dereference, w)
  deref (some a) w = (ok a, w)

module _ {ℓ} {W A B : Type ℓ} where
  abbrev pub continue : (A → Exec W B) → Result A × W → Result B × W
  continue f (ok a, w) = f a w
  continue f (err e, w) = (err e, w)
  continue f (panic p, w) = (panic p, w)
  continue f (exit n, w) = (exit n, w)

  infixl 10 ◌>>=◌ ◌>>◌
  abbrev pub ◌>>=◌ : Exec W A → (A → Exec W B) → Exec W B
  ◌>>=◌ m f w = continue f (m w)

  abbrev pub ◌>>◌ : Exec W A → Exec W B → Exec W B
  ◌>>◌ m n w = continue (λ _. n) (m w)

  abbrev pub recover : (Error → Exec W B) → (A → Exec W B) → Result A × W → Result B × W
  recover h f (ok a, w) = f a w
  recover h f (err e, w) = h e w
  recover h f (panic p, w) = (panic p, w)
  recover h f (exit n, w) = (exit n, w)

  -- `a, err := m(); if err != nil { h }; f`
  abbrev pub catch : Exec W A → (Error → Exec W B) → (A → Exec W B) → Exec W B
  catch m h f w = recover h f (m w)

module _ {ℓ} {W A : Type ℓ} where
  -- What an action leaves behind, and what it answers.
  abbrev pub world : Result A × W → W
  world p = p.1

  abbrev pub answer : Result A × W → Result A
  answer p = p.0

-- The value of a call through a pure function; an error, panic or exit passes through.
abbrev pub map_result {ℓ κ} : {A : Type ℓ} {B : Type κ} → (A → B) → Result A → Result B
map_result f (ok a) = ok (f a)
map_result f (err e) = err e
map_result f (panic p) = panic p
map_result f (exit n) = exit n

-- What a bind keeps: the first action's world satisfies `P`, and the rest keeps it.
module _ {ℓ κ} {W A : Type ℓ} (P : W → Type κ) where
  pub deref-keeps : (o : Option A) (w : W) → P w → P (world (deref o w))
  deref-keeps none w h = h
  deref-keeps (some a) w h = h

  pub if-keeps :
      (b : Bool) (m n : Exec W A) (w : W)
      → (b ≡ true → P (world (m w)))
      → (b ≡ false → P (world (n w)))
      → P (world ((if b then m else n) w))
  if-keeps true m n w hm hn = hm refl
  if-keeps false m n w hm hn = hn refl

module _ {ℓ κ} {W A B : Type ℓ} (P : W → Type κ) where
  pub continue-keeps :
      (f : A → Exec W B) (p : Result A × W)
      → P (world p)
      → ((a : A) → answer p ≡ ok a → (w : W) → P w → P (world (f a w)))
      → P (world (continue f p))
  continue-keeps f (ok a, w) h k = k a refl w h
  continue-keeps f (err e, w) h k = h
  continue-keeps f (panic p, w) h k = h
  continue-keeps f (exit n, w) h k = h

  pub recover-keeps :
      (g : Error → Exec W B) (f : A → Exec W B) (p : Result A × W)
      → P (world p)
      → ((e : Error) (w : W) → P w → P (world (g e w)))
      → ((a : A) → answer p ≡ ok a → (w : W) → P w → P (world (f a w)))
      → P (world (recover g f p))
  recover-keeps g f (ok a, w) h kg k = k a refl w h
  recover-keeps g f (err e, w) h kg k = kg e w h
  recover-keeps g f (panic p, w) h kg k = h
  recover-keeps g f (exit n, w) h kg k = h

-- A bind whose first action answers runs the rest in the world that it left.
pub continue-ok {ℓ} :
    {W A B : Type ℓ} (f : A → Exec W B) (p : Result A × W) (a : A)
    → answer p ≡ ok a
    → continue f p ≡ f a (world p)
continue-ok f p a h = ap (λ r. continue f (r, world p)) h

pub recover-ok {ℓ} :
    {W A B : Type ℓ} (g : Error → Exec W B) (f : A → Exec W B) (p : Result A × W) (a : A)
    → answer p ≡ ok a
    → recover g f p ≡ f a (world p)
recover-ok g f p a h = ap (λ r. recover g f (r, world p)) h

pub recover-err {ℓ} :
    {W A B : Type ℓ} (g : Error → Exec W B) (f : A → Exec W B) (p : Result A × W) (e : Error)
    → answer p ≡ err e
    → recover g f p ≡ g e (world p)
recover-err g f p e h = ap (λ r. recover g f (r, world p)) h

pub continue-err {ℓ} :
    {W A B : Type ℓ} (f : A → Exec W B) (p : Result A × W) (e : Error)
    → answer p ≡ err e
    → continue f p ≡ (err e, world p)
continue-err f p e h = ap (λ r. continue f (r, world p)) h

abbrev pub value_or {ℓ} : {A : Type ℓ} → A → Result A → A
value_or d (ok a) = a
value_or d (err e) = d
value_or d (panic p) = d
value_or d (exit n) = d

pub ok-injective {ℓ} : {A : Type ℓ} (a b : A) → ok a ≡ ok b → a ≡ b
ok-injective a b h = ap (value_or a) h

-- A bind that answers: its first action did, and the rest did in the world that it left.
pub continue-back {ℓ} :
    {W A B : Type ℓ} (k : A → Exec W B) (p : Result A × W) (b : B)
    → answer (continue k p) ≡ ok b
    → (a : A) × (answer p ≡ ok a)
      × (answer (k a (world p)) ≡ ok b)
      × (world (continue k p) ≡ world (k a (world p)))
continue-back k (ok a, w) b h = (a, refl, h, refl)
continue-back k (err e, w) b h = absurd (cc h)
continue-back k (panic f, w) b h = absurd (cc h)
continue-back k (exit n, w) b h = absurd (cc h)
