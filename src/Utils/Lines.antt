-- ===== src/Utils/Lines.antt =====
-- Lines that are joined, and what a scan makes of them.
use mathlib.Core.List.{Memᴰ}
use cilion.Base.{
  ℕ, ◌<◌, ◌≡◌, ◌≢◌, refl, sym, ap, ◌∙◌, ◌⊎◌, inl, inr, Bytes, length, str_eq, str_eq-eq, List, [],
  ◌∷◌, ◌++◌, map, append_assoc, append-nil, Bool, true, false, not, ◌==◌, ltb, All, if◌then◌else◌,
  Bool-cases, arith,
}
use cilion.Utils.{
  cons_first, split_lines, non_empty, get_non_empty_lines, drop_cr, max_scan_token_size, scanned,
  scan_lines,
}

-- A line that a scanner can hold.
pub record IsLine (l : Bytes) : Type 0 where
  pub unbroken : Memᴰ 10 l → ⊥
  pub fits : length l < max_scan_token_size

-- Lines with a newline between any two.
abbrev pub joined : Bytes → List Bytes → Bytes
joined l [] = l
joined l (m ∷ ls) = l ++ (10 ∷ joined m ls)

abbrev pub last_of : Bytes → List Bytes → Bytes
last_of l [] = l
last_of l (m ∷ ls) = last_of m ls

-- What ends a text whose last line is scanned: a newline, or nothing behind a line that is not
-- empty.
abbrev pub IsEnd : Bytes → Bytes → Type 0
IsEnd last end = (end ≡ 10 ∷ []) ⊎ ((end ≡ []) × (last ≢ []))

other : (c : ℕ) (s : Bytes) → (Memᴰ 10 (c ∷ s) → ⊥) → (c == 10) ≡ false
other c s h = elim (Bool-cases (c == 10)) [ inl e ↦ absurd (h (Memᴰ.head (same c e))) | inr e ↦ e ]
  where
    same : (c : ℕ) → (c == 10) ≡ true → 10 ≡ c
    same c e = ground arith

split_lines-break :
    (l s : Bytes) → (Memᴰ 10 l → ⊥) → split_lines (l ++ (10 ∷ s)) ≡ l ∷ split_lines s
unfolding split_lines cons_first
split_lines-break [] s h = refl
split_lines-break (c ∷ l) s h = rw (other c l h, split_lines-break l s (λ m. h (Memᴰ.tail m))) refl

split_lines-one : (l : Bytes) → (Memᴰ 10 l → ⊥) → split_lines l ≡ l ∷ []
unfolding split_lines cons_first
split_lines-one [] h = refl
split_lines-one (c ∷ l) h = rw (other c l h, split_lines-one l (λ m. h (Memᴰ.tail m))) refl

split_lines-cons : (s : Bytes) → (l : Bytes) × (ls : List Bytes) × (split_lines s ≡ l ∷ ls)
unfolding split_lines cons_first
split_lines-cons [] = ([], [], refl)
split_lines-cons (c ∷ s) = elim (Bool-cases (c == 10)) [
  | inl e ↦ ([], split_lines s, rw e refl)
  | inr e ↦ let (l, ls, h) = split_lines-cons s in (c ∷ l, ls, rw (e, h) refl)
]

fits_lem : (n : ℕ) → n < max_scan_token_size → ltb n max_scan_token_size ≡ true
fits_lem n h = ground arith

not_empty : (l : Bytes) → l ≢ [] → not (str_eq l []) ≡ true
not_empty l h = elim (Bool-cases (str_eq l [])) [
  | inl e ↦ absurd (h (str_eq-eq l [] e))
  | inr e ↦ ap not e
]

-- A line with more behind it is scanned, whatever follows.
scan_lines-break : (l s : Bytes) → IsLine l → scan_lines (l ++ (10 ∷ s)) ≡ drop_cr l ∷ scan_lines s
unfolding scan_lines scanned
scan_lines-break l s line =
    let (m, ls, h) = split_lines-cons s in
    ap scanned (split_lines-break l s line.unbroken)
    ∙ ap (λ p. scanned (l ∷ p)) h
    ∙ fitting (ltb (length l) max_scan_token_size) _ (fits_lem (length l) line.fits)
    ∙ ap (λ p. drop_cr l ∷ scanned p) (sym h)
  where
    fitting :
        (b : Bool) (r : List Bytes) → b ≡ true → (if b then drop_cr l ∷ r else []) ≡ drop_cr l ∷ r
    fitting b r h = rw h refl

scan_lines-last : (l end : Bytes) → IsLine l → IsEnd l end → scan_lines (l ++ end) ≡ drop_cr l ∷ []
unfolding scan_lines scanned split_lines str_eq
scan_lines-last l end line (inl e) = ap (λ s. scan_lines (l ++ s)) e ∙ scan_lines-break l [] line
scan_lines-last l end line (inr (e, given)) =
    ap (λ s. scan_lines (l ++ s)) e
    ∙ ap scan_lines (append-nil l)
    ∙ ap scanned (split_lines-one l line.unbroken)
    ∙ rw (not_empty l given, fits_lem (length l) line.fits) refl

-- A scan of joined lines gives the lines, each without a carriage return at its end, whether or
-- not a newline follows the last.
pub scan_lines-joined :
    (l : Bytes) (ls : List Bytes) (end : Bytes)
    → IsLine l
    → All IsLine ls
    → IsEnd (last_of l ls) end
    → scan_lines (joined l ls ++ end) ≡ map drop_cr (l ∷ ls)
scan_lines-joined l [] end line lines ended = scan_lines-last l end line ended
scan_lines-joined l (m ∷ ls) end line (h, lines) ended =
    ap scan_lines (append_assoc l (10 ∷ joined m ls) end)
    ∙ scan_lines-break l (joined m ls ++ end) line
    ∙ ap (λ r. drop_cr l ∷ r) (scan_lines-joined m ls end h lines ended)

-- Of joined lines, `GetNonEmptyLines` gives those that are not empty, in their order.
pub get_non_empty_lines-joined :
    (l : Bytes) (ls : List Bytes)
    → (Memᴰ 10 l → ⊥)
    → All (λ m. Memᴰ 10 m → ⊥) ls
    → get_non_empty_lines (joined l ls) ≡ non_empty (l ∷ ls)
unfolding get_non_empty_lines
get_non_empty_lines-joined l ls h hs = ap non_empty (split_lines-joined l ls h hs)
  where
    split_lines-joined :
        (l : Bytes) (ls : List Bytes)
        → (Memᴰ 10 l → ⊥)
        → All (λ m. Memᴰ 10 m → ⊥) ls
        → split_lines (joined l ls) ≡ l ∷ ls
    split_lines-joined l [] h hs = split_lines-one l h
    split_lines-joined l (m ∷ ls) h (k, ks) =
        split_lines-break l (joined m ls) h ∙ ap (λ r. l ∷ r) (split_lines-joined m ls k ks)
