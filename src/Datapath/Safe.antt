-- ===== src/Datapath/Safe.antt =====
-- Code that stays inside its packet, by the parts that it is made of.
use cilion.Base.{
  ℕ, ◌+◌, ◌≤◌, ◌≡◌, refl, sym, subst, Bytes, length, Bool, true, false, leb, leb→le, if◌then◌else◌,
}
use cilion.Datapath.Packet.{
  ◌>>=◌, Access, in_bounds, out_of_bounds, load, load_be, store, write, within,
}
use cilion.Datapath.Packet.Bounds.{load-read, load_be-read, store-write}
use cilion.Datapath.Packet.Writes.{write-length}

-- The code stays inside the packet.
abbrev pub IsSafe : {A : Type 0} → Access A → Type 0
IsSafe (in_bounds a) = Unit
IsSafe out_of_bounds = ⊥

pub bind-IsSafe :
    {A B : Type 0} (m : Access A) (f : A → Access B)
    → IsSafe m
    → ((a : A) → m ≡ in_bounds a → IsSafe (f a))
    → IsSafe (m >>= f)
unfolding ◌>>=◌
bind-IsSafe (in_bounds a) f h k = k a refl
bind-IsSafe out_of_bounds f h k = absurd h

pub within-IsSafe :
    {A : Type 0} (size : ℕ) (p : Bytes) (m k : Access A)
    → (size ≤ length p → IsSafe m)
    → IsSafe k
    → IsSafe (within size p m k)
unfolding within
within-IsSafe size p m k hm hk = choose (leb size (length p)) refl
  where
    choose : (b : Bool) → leb size (length p) ≡ b → IsSafe (if b then m else k)
    choose true e = hm (leb→le size (length p) e)
    choose false e = hk

pub load-IsSafe :
    (p : Bytes) (offset size : ℕ) → offset + size ≤ length p → IsSafe (load p offset size)
load-IsSafe p offset size h = subst IsSafe (sym (load-read p offset size h)) tt

pub load_be-IsSafe :
    (p : Bytes) (offset size : ℕ) → offset + size ≤ length p → IsSafe (load_be p offset size)
load_be-IsSafe p offset size h = subst IsSafe (sym (load_be-read p offset size h)) tt

-- A store and what follows, on a packet of the same length.
pub store-IsSafe :
    {B : Type 0} (p v : Bytes) (offset : ℕ) (f : Bytes → Access B)
    → offset + length v ≤ length p
    → ((q : Bytes) → length q ≡ length p → IsSafe (f q))
    → IsSafe (store p offset v >>= f)
unfolding ◌>>=◌
store-IsSafe p v offset f h k =
    subst (λ m. IsSafe (m >>= f)) (sym (store-write p v offset h))
      (k (write offset v p) (write-length offset v p))
