-- ===== src/Tests/Uncommented.antt =====
-- A file in memory, and two commented lines of it.
use mathlib.Core.List.{Memᴰ}
use cilion.Base.{
  ℕ, ◌≡◌, refl, Bytes, codes, str_eq, All, [], ◌∷◌, ◌++◌, map, inl, false, ◌==◌, arith,
}
use cilion.Effect.{ok, err, errorf, world}
use cilion.Utils.{
  split_lines, non_empty, get_non_empty_lines, has_prefix, trim_prefix, index, drop_cr, scan_lines,
  scanned, write_lines, Files, save, uncomment_code, replace_at, replace_lines,
}
use cilion.Utils.Lines.{IsLine, joined}
use cilion.Utils.Uncomment.{bared, uncomment_code_lem}

-- The world is the one file.
abbrev one_file : Files
one_file = record { World = Bytes; read_file = λ n w. (ok w, w); write_file = λ n s w. (ok tt, s) }

abbrev first_line : Bytes
first_line = codes "#a: 1"

abbrev second_line : Bytes
second_line = codes "#b: 2"

abbrev above : Bytes
above = codes "kind: x" ++ (10 ∷ [])

abbrev target : Bytes
target = joined first_line (second_line ∷ []) ++ (10 ∷ [])

abbrev content : Bytes
content = above ++ (target ++ codes "c: 3")

no_break : (l : Bytes) → All (λ c. (c == 10) ≡ false) l → Memᴰ 10 l → ⊥
no_break [] hs m = elim m [ ]
no_break (c ∷ l) (h, hs) (Memᴰ.head e) = different c h e
  where
    different : (c : ℕ) → (c == 10) ≡ false → 10 ≡ c → ⊥
    different c h e = ground arith
no_break (c ∷ l) (h, hs) (Memᴰ.tail m) = no_break l hs m

first_line-IsLine : IsLine first_line
first_line-IsLine = record {
  unbroken = no_break first_line (refl, (refl, (refl, (refl, (refl, tt)))));
  fits = omega arith;
}

second_line-IsLine : IsLine second_line
second_line-IsLine = record {
  unbroken = no_break second_line (refl, (refl, (refl, (refl, (refl, tt)))));
  fits = omega arith;
}

-- The target ends in a newline, which the saved file has not.
uncomment_code_lem_example :
    uncomment_code one_file (codes "f") target (codes "#") content
    ≡ save one_file
        (codes "f")
        (above
          ++ (joined (bared (codes "#") first_line) (map (bared (codes "#")) (second_line ∷ []))
              ++ codes "c: 3"))
        content
unfolding index has_prefix
uncomment_code_lem_example =
    uncomment_code_lem one_file (codes "f") (codes "#") above first_line (second_line ∷ [])
      (10 ∷ []) (codes "c: 3") content first_line-IsLine (second_line-IsLine, tt) (inl refl) refl
      refl

-- The file that is saved.
uncommented :
    world (uncomment_code one_file (codes "f") target (codes "#") content)
    ≡ above ++ (codes "a: 1" ++ (10 ∷ codes "b: 2c: 3"))
unfolding uncomment_code replace_at replace_lines save index has_prefix scan_lines scanned
    split_lines drop_cr write_lines trim_prefix str_eq
uncommented = refl

-- Empty lines are left out.
two_lines :
    get_non_empty_lines (10 ∷ (first_line ++ (10 ∷ (10 ∷ second_line))))
    ≡ first_line ∷ second_line ∷ []
unfolding get_non_empty_lines non_empty split_lines str_eq
two_lines = refl

-- A file without the target is an error.
missing :
    uncomment_code one_file (codes "f") target (codes "#") above
    ≡ (err (errorf (codes "unable to find the code %q to be uncommented") (target ∷ [])), above)
unfolding uncomment_code replace_at index has_prefix
missing = refl
