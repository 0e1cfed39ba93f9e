-- ===== src/Scion/Paths/Ids.antt =====
-- The identifiers of a path: the hashed text, the hash, and the sorter.
use Prim.Native.Nat.{bit_xor}
use mathlib.Core.List.{cons-ne-nil}
use cilion.Base.{
  ℕ, suc, ◌+◌, ◌-◌, ◌*◌, ◌%◌, ◌^◌, ◌<◌, ◌≡◌, ◌≢◌, refl, sym, ◌∙◌, ap, ap₂, Bytes, codes, length,
  List, [], ◌∷◌, ◌++◌, append_assoc, append-nil, map, All, some, true, false, ltb, if◌then◌else◌,
  arith,
}
use cilion.Effect.{ok}
use cilion.Scion.Paths.{
  Snet, SnetPath, PathMetadata, join, replace_hash, string_to_uint64, fnv_write, id_loop,
  id_from_snet_path, interfaces_to_ids, describe,
}

module _ (N : Snet) where
  id_loop-join :
      (total i : ℕ) (ps : List N.PathInterface) (s : Bytes)
      → i + length ps ≡ total
      → id_loop N total i ps s ≡ s ++ join (codes "-") (map N.interface_string ps)
  unfolding id_loop join
  id_loop-join total i [] s h = sym (append-nil s)
  id_loop-join total i (p ∷ []) s h =
      ap (λ b. if b then (s ++ N.interface_string p) ++ codes "-" else s ++ N.interface_string p)
        (last i total h)
    where
      last : (i total : ℕ) → i + 1 ≡ total → ltb i (total - 1) ≡ false
      last i total h = ground arith
  id_loop-join total i (p ∷ q ∷ ps) s h =
      ap
        (λ b.
          id_loop N total (suc i) (q ∷ ps)
            (if b then (s ++ N.interface_string p) ++ codes "-" else s ++ N.interface_string p))
        (more (length ps) i total h)
      ∙ id_loop-join total (suc i) (q ∷ ps) ((s ++ N.interface_string p) ++ codes "-") (omega arith)
      ∙ append_assoc (s ++ N.interface_string p) (codes "-") _
      ∙ append_assoc s (N.interface_string p) _
    where
      more : (n i total : ℕ) → i + suc (suc n) ≡ total → ltb i (total - 1) ≡ true
      more n i total h = ground arith

  -- The index loop of `IdFromSnetPath` writes the interfaces with a dash between each two, and
  -- none behind the last: `strings.Join` of their prints.
  pub id_from_snet_path-join :
      (m : PathMetadata N)
      → id_from_snet_path N (record { metadata = some m })
        ≡ ok (join (codes "-") (map N.interface_string m.interfaces))
  unfolding id_from_snet_path
  id_from_snet_path-join m =
      ap ok (id_loop-join (length m.interfaces) 0 m.interfaces [] (omega arith))

-- The hash is a 64-bit word.
fnv_write_bound : (s : Bytes) (hash : ℕ) → hash < 2 ^ 64 → fnv_write hash s < 2 ^ 64
unfolding fnv_write
fnv_write_bound [] hash h = h
fnv_write_bound (c ∷ s) hash h =
    fnv_write_bound s ((bit_xor hash c * 1099511628211) % 2 ^ 64) (omega arith)

-- The identifier of a path is a 64-bit word.
pub string_to_uint64_bound : (s : Bytes) → string_to_uint64 s < 2 ^ 64
unfolding string_to_uint64
string_to_uint64_bound s = fnv_write_bound s 14695981039346656037 (omega arith)

abbrev pub Lacks : ℕ → Bytes → Type 0
Lacks c = All (λ d. d ≢ c)

-- A text that is not empty and has no comma.
abbrev pub IsName : Bytes → Type 0
IsName s = (s ≢ []) × Lacks b',' s

-- Two texts without a separator, each with one behind it, are cut at the same place.
cut_at_sep :
    (s t r u : Bytes)
    → Lacks b',' s
    → Lacks b',' t
    → s ++ b',' ∷ r ≡ t ++ b',' ∷ u
    → (s ≡ t) × (r ≡ u)
cut_at_sep [] [] r u hs ht e = (refl, cc)
cut_at_sep [] (d ∷ t) r u hs (hd, ht) e = absurd (hd (cc))
cut_at_sep (c ∷ s) [] r u (hc, hs) ht e = absurd (hc (cc))
cut_at_sep (c ∷ s) (d ∷ t) r u (hc, hs) (hd, ht) e =
    let (same, rest) = cut_at_sep s t r u hs ht (cc) in (cc, rest)

no_sep : (s t r : Bytes) → Lacks b',' s → s ≡ t ++ b',' ∷ r → ⊥
no_sep [] [] r hs e = cc
no_sep [] (d ∷ t) r hs e = cc
no_sep (c ∷ s) [] r (hc, hs) e = hc (cc)
no_sep (c ∷ s) (d ∷ t) r (hc, hs) e = no_sep s t r hs (cc)

join-injective :
    (xs ys : List Bytes)
    → All IsName xs
    → All IsName ys
    → join (codes ",") xs ≡ join (codes ",") ys
    → xs ≡ ys
unfolding join
join-injective [] [] hx hy e = refl
join-injective [] (y ∷ []) hx (hy, _) e = absurd (hy.0 (sym e))
join-injective [] (y ∷ z ∷ ys) hx hy e = absurd (no_sep [] y _ tt e)
join-injective (x ∷ []) [] (hx, _) hy e = absurd (hx.0 e)
join-injective (x ∷ w ∷ xs) [] hx hy e = absurd (no_sep [] x _ tt (sym e))
join-injective (x ∷ []) (y ∷ []) hx hy e = ap (λ s. s ∷ []) e
join-injective (x ∷ []) (y ∷ z ∷ ys) (hx, _) hy e = absurd (no_sep x y _ hx.1 e)
join-injective (x ∷ w ∷ xs) (y ∷ []) hx (hy, _) e = absurd (no_sep y x _ hy.1 (sym e))
join-injective (x ∷ w ∷ xs) (y ∷ z ∷ ys) (hx, hxs) (hy, hys) e =
    let (same, rest) = cut_at_sep x y _ _ hx.1 hy.1 e in
    ap₂ ◌∷◌ same (join-injective (w ∷ xs) (z ∷ ys) hxs hys rest)

replace_hash-Lacks : (s : Bytes) → Lacks b',' s → Lacks b',' (replace_hash s)
unfolding replace_hash
replace_hash-Lacks [] h = tt
replace_hash-Lacks (c ∷ s) (hc, h) = ground (arith, replace_hash-Lacks s h)

replace_hash-IsName : (s : Bytes) → IsName s → IsName (replace_hash s)
unfolding replace_hash
replace_hash-IsName [] (hne, h) = absurd (hne refl)
replace_hash-IsName (c ∷ s) (hne, h) = (cons-ne-nil _ _, replace_hash-Lacks (c ∷ s) h)

module _ (N : Snet) (named : (i : N.PathInterface) → IsName (N.interface_string i)) where
  interfaces_to_ids-All : (intfs : List N.PathInterface) → All IsName (interfaces_to_ids N intfs)
  unfolding interfaces_to_ids
  interfaces_to_ids-All [] = tt
  interfaces_to_ids-All (i ∷ intfs) = (replace_hash-IsName _ (named i), interfaces_to_ids-All intfs)

  -- If no print of an interface is empty or holds a comma, two paths with the same sorter have the
  -- same list of interface identifiers.
  pub sorter_identifies :
      (path path' : SnetPath N) (m m' : PathMetadata N)
      → (describe N path m).sorter ≡ (describe N path' m').sorter
      → (describe N path m).interfaces ≡ (describe N path' m').interfaces
  unfolding describe
  sorter_identifies path path' m m' e =
      join-injective _ _ (interfaces_to_ids-All m.interfaces) (interfaces_to_ids-All m'.interfaces)
        e
