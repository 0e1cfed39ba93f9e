-- ===== src/Datapath/Packet/Bounds.antt =====
-- Loads, stores and tests inside of a packet.
use cilion.Base.{
  ℕ, ◌+◌, ◌≤◌, ◌≡◌, refl, ap, Bytes, length, Bool, true, false, leb, le→leb, leb→le, if◌then◌else◌,
  arith,
}
use cilion.Datapath.Packet.{
  Access, in_bounds, ◌>>=◌, within, write, read, load, store, load_be, big_endian,
}

-- A load inside the packet reads, and a store inside it writes.
pub load-read :
    (p : Bytes) (offset size : ℕ)
    → offset + size ≤ length p
    → load p offset size ≡ in_bounds (read offset size p)
unfolding load
load-read p offset size h = ground arith

pub store-write :
    (p v : Bytes) (offset : ℕ)
    → offset + length v ≤ length p
    → store p offset v ≡ in_bounds (write offset v p)
unfolding store
store-write p v offset h = ground arith

pub load_be-read :
    (p : Bytes) (offset size : ℕ)
    → offset + size ≤ length p
    → load_be p offset size ≡ in_bounds (big_endian (read offset size p))
unfolding load_be ◌>>=◌
load_be-read p offset size h =
    ap (λ m. m >>= λ v. in_bounds (big_endian v)) (load-read p offset size h)

pub within-long :
    {A : Type 0} (size : ℕ) (p : Bytes) (m k : Access A) → size ≤ length p → within size p m k ≡ m
unfolding within
within-long size p m k h = rw (le→leb size (length p) h)

pub load_be-step :
    {A : Type 0} (p : Bytes) (offset size : ℕ) (f : ℕ → Access A)
    → offset + size ≤ length p
    → (load_be p offset size >>= f) ≡ f (big_endian (read offset size p))
unfolding ◌>>=◌
load_be-step p offset size f h = ap (λ m. m >>= f) (load_be-read p offset size h)

pub load-step :
    {A : Type 0} (p : Bytes) (offset size : ℕ) (f : Bytes → Access A)
    → offset + size ≤ length p
    → (load p offset size >>= f) ≡ f (read offset size p)
unfolding ◌>>=◌
load-step p offset size f h = ap (λ m. m >>= f) (load-read p offset size h)

pub store-step :
    {A : Type 0} (p v : Bytes) (offset : ℕ) (f : Bytes → Access A)
    → offset + length v ≤ length p
    → (store p offset v >>= f) ≡ f (write offset v p)
unfolding ◌>>=◌
store-step p v offset f h = ap (λ m. m >>= f) (store-write p v offset h)

-- A test whose branches agree where it holds.
pub within-same :
    {A : Type 0} (size : ℕ) (p : Bytes) (m k : Access A)
    → (size ≤ length p → m ≡ k)
    → within size p m k ≡ k
unfolding within
within-same size p m k h = choose (leb size (length p)) refl
  where
    choose : (b : Bool) → leb size (length p) ≡ b → (if b then m else k) ≡ k
    choose true e = h (leb→le size (length p) e)
    choose false e = refl

-- A test against what a Boolean says.
pub within-if :
    {A : Type 0} (size : ℕ) (p : Bytes) (m k r : Access A)
    → (size ≤ length p → leb size (length p) ≡ true → m ≡ r)
    → (leb size (length p) ≡ false → k ≡ r)
    → within size p m k ≡ r
unfolding within
within-if size p m k r hm hk = choose (leb size (length p)) refl
  where
    choose : (b : Bool) → leb size (length p) ≡ b → (if b then m else k) ≡ r
    choose true e = hm (leb→le size (length p) e) e
    choose false e = hk e
