-- ===== src/Datapath/Packet/Writes.antt =====
-- What reads find behind writes.
use cilion.Base.{
  ℕ, zero, suc, ◌+◌, ◌≤◌, ◌≡◌, refl, ap, Bytes, length, take, drop, [], ◌∷◌, ◌++◌, Bool, true,
  false, leb, leb→le, sym, ◌∙◌, ◌-◌, if◌then◌else◌, arith,
}
use cilion.Datapath.Packet.{Access, in_bounds, out_of_bounds, overlay, write, read, load}

overlay-length : (v p : Bytes) → length (overlay v p) ≡ length p
overlay-length [] p = refl
overlay-length (x ∷ v) [] = refl
overlay-length (x ∷ v) (b ∷ p) = ap suc (overlay-length v p)

pub write-length : (offset : ℕ) (v p : Bytes) → length (write offset v p) ≡ length p
unfolding write
write-length zero v p = overlay-length v p
write-length (suc n) v [] = refl
write-length (suc n) v (b ∷ p) = ap suc (write-length n v p)

take-overlay : (v p : Bytes) → length v ≤ length p → take (length v) (overlay v p) ≡ v
take-overlay [] p h = refl
take-overlay (x ∷ v) [] h = absurd (omega arith)
take-overlay (x ∷ v) (b ∷ p) h = ap (λ l. x ∷ l) (take-overlay v p (omega arith))

-- What was written is read back.
pub read-write :
    (offset : ℕ) (v p : Bytes)
    → offset + length v ≤ length p
    → read offset (length v) (write offset v p) ≡ v
unfolding read write
read-write zero v p h = take-overlay v p (omega arith)
read-write (suc n) v [] h = absurd (omega arith)
read-write (suc n) v (b ∷ p) h = read-write n v p (omega arith)

-- A write behind what is read does not change it.
pub read-write_behind :
    (o n offset : ℕ) (v p : Bytes) → o + n ≤ offset → read o n (write offset v p) ≡ read o n p
unfolding read write
read-write_behind zero zero zero v p h = refl
read-write_behind zero (suc n) zero v p h = absurd (omega arith)
read-write_behind (suc o) n zero v p h = absurd (omega arith)
read-write_behind zero zero (suc k) v p h = refl
read-write_behind zero (suc n) (suc k) v [] h = refl
read-write_behind zero (suc n) (suc k) v (b ∷ p) h =
    ap (λ l. b ∷ l) (read-write_behind zero n k v p (omega arith))
read-write_behind (suc o) n (suc k) v [] h = refl
read-write_behind (suc o) n (suc k) v (b ∷ p) h = read-write_behind o n k v p (omega arith)

drop-overlay : (o : ℕ) (v p : Bytes) → length v ≤ o → drop o (overlay v p) ≡ drop o p
drop-overlay o [] p h = refl
drop-overlay zero (x ∷ v) p h = absurd (omega arith)
drop-overlay (suc o) (x ∷ v) [] h = refl
drop-overlay (suc o) (x ∷ v) (b ∷ p) h = drop-overlay o v p (omega arith)

-- A write in front does not change what is behind it.
pub drop-write :
    (o offset : ℕ) (v p : Bytes) → offset + length v ≤ o → drop o (write offset v p) ≡ drop o p
unfolding write
drop-write o zero v p h = drop-overlay o v p (omega arith)
drop-write zero (suc k) v p h = absurd (omega arith)
drop-write (suc o) (suc k) v [] h = refl
drop-write (suc o) (suc k) v (b ∷ p) h = drop-write o k v p (omega arith)

-- Nor does one in front of it.
pub read-write_front :
    (o n offset : ℕ) (v p : Bytes)
    → offset + length v ≤ o
    → read o n (write offset v p) ≡ read o n p
unfolding read write
read-write_front o n offset v p h = ap (take n) (drop-write o offset v p h)

pub take-length : (n : ℕ) (p : Bytes) → n ≤ length p → length (take n p) ≡ n
take-length zero p h = refl
take-length (suc n) [] h = absurd (omega arith)
take-length (suc n) (b ∷ p) h = ap suc (take-length n p (omega arith))

pub drop-length : (n : ℕ) (p : Bytes) → length (drop n p) ≡ length p - n
drop-length zero p = omega arith
drop-length (suc n) [] = omega arith
drop-length (suc n) (b ∷ p) = omega (arith, drop-length n p)

abbrev value : Access Bytes → Bytes
value (in_bounds a) = a
value out_of_bounds = []

-- A load has the size that was asked for.
pub load-length :
    (p : Bytes) (offset size : ℕ) (v : Bytes) → load p offset size ≡ in_bounds v → length v ≡ size
unfolding load read
load-length p offset size v h = choose (leb (offset + size) (length p)) refl h
  where
    choose :
        (b : Bool)
        → leb (offset + size) (length p) ≡ b
        → (if b then in_bounds (read offset size p) else out_of_bounds) ≡ in_bounds v
        → length v ≡ size
    choose true e h =
        sym (ap (λ m. length (value m)) h)
        ∙ take-length size (drop offset p) (omega (arith, drop-length offset p, leb→le _ _ e))
    choose false e h = absurd (cc h)

-- Behind a prefix of a given length.
pub drop-append : (a b : Bytes) (n : ℕ) → length a ≡ n → drop n (a ++ b) ≡ b
drop-append [] b zero h = refl
drop-append [] b (suc n) h = absurd (omega arith)
drop-append (x ∷ a) b zero h = absurd (omega arith)
drop-append (x ∷ a) b (suc n) h = drop-append a b n (omega arith)

take-overlay_front :
    (n : ℕ) (v p : Bytes) → n ≤ length v → length v ≤ length p → take n (overlay v p) ≡ take n v
take-overlay_front zero v p h fits = refl
take-overlay_front (suc n) [] p h fits = absurd (omega arith)
take-overlay_front (suc n) (x ∷ v) [] h fits = absurd (omega arith)
take-overlay_front (suc n) (x ∷ v) (b ∷ p) h fits =
    ap (λ l. x ∷ l) (take-overlay_front n v p (omega arith) (omega arith))

read-overlay :
    (k n : ℕ) (v p : Bytes)
    → k + n ≤ length v
    → length v ≤ length p
    → read k n (overlay v p) ≡ read k n v
unfolding read
read-overlay zero n v p h fits = take-overlay_front n v p (omega arith) fits
read-overlay (suc k) n [] p h fits = absurd (omega arith)
read-overlay (suc k) n (x ∷ v) [] h fits = absurd (omega arith)
read-overlay (suc k) n (x ∷ v) (b ∷ p) h fits = read-overlay k n v p (omega arith) (omega arith)

-- A part of what was written is read back.
pub read-write_inside :
    (offset k n : ℕ) (v p : Bytes)
    → k + n ≤ length v
    → offset + length v ≤ length p
    → read (offset + k) n (write offset v p) ≡ read k n v
unfolding read write
read-write_inside zero k n v p h fits =
    let same : 0 + k ≡ k = omega arith in
    ap (λ j. take n (drop j (overlay v p))) same ∙ read-overlay k n v p h (omega arith)
read-write_inside (suc o) k n v [] h fits = absurd (omega arith)
read-write_inside (suc o) k n v (b ∷ p) h fits =
    let same : suc o + k ≡ suc (o + k) = omega arith in
    ap (λ j. take n (drop j (b ∷ write o v p))) same ∙ read-write_inside o k n v p h (omega arith)
