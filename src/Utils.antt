-- ===== src/Utils.antt =====
-- test/utils/utils.go: what the end-to-end tests do to text, and the commands that they run.
pub mod Lines
pub mod Uncomment
pub mod Commands
use cilion.Base.{
  ℕ, suc, ◌+◌, Bytes, codes, length, take, drop, str_eq, List, [], ◌∷◌, ◌++◌, Option, none, some,
  Bool, true, false, not, ◌==◌, ◌&&◌, ◌||◌, ltb, if◌then◌else◌,
}
use cilion.Effect.{Error, errorf, wrap, Exec, pure, raise, catch}

-- `strings.Split(s, "\n")`
cons_first : ℕ → List Bytes → List Bytes
cons_first c [] = (c ∷ []) ∷ []
cons_first c (l ∷ ls) = (c ∷ l) ∷ ls

unfoldable pub split_lines : Bytes → List Bytes
unfolding cons_first
split_lines [] = [] ∷ []
split_lines (c ∷ s) = let rest = split_lines s in if c == 10 then [] ∷ rest else cons_first c rest

unfoldable pub non_empty : List Bytes → List Bytes
non_empty [] = []
non_empty (l ∷ ls) = let rest = non_empty ls in if not (str_eq l []) then l ∷ rest else rest

unfoldable pub get_non_empty_lines : Bytes → List Bytes
get_non_empty_lines output = non_empty (split_lines output)

-- `strings.HasPrefix` and `strings.TrimPrefix`, the prefix first.
unfoldable pub has_prefix : Bytes → Bytes → Bool
has_prefix [] s = true
has_prefix (c ∷ p) [] = false
has_prefix (c ∷ p) (d ∷ s) = c == d && has_prefix p s

unfoldable pub trim_prefix : Bytes → Bytes → Bytes
trim_prefix p s = if has_prefix p s then drop (length p) s else s

abbrev shift : Option ℕ → Option ℕ
shift none = none
shift (some n) = some (suc n)

-- `strings.Index`: where a target occurs first.
unfoldable pub index : Bytes → Bytes → Option ℕ
index [] target = if has_prefix target [] then some 0 else none
index (c ∷ s) target =
    let rest = shift (index s target) in if has_prefix target (c ∷ s) then some 0 else rest

-- `bufio.Scanner` over lines: a carriage return at the end of a line is dropped, a last line that
-- is empty is not a line, and a line that does not fit in 64 KiB ends the scan.
unfoldable pub drop_cr : Bytes → Bytes
drop_cr [] = []
drop_cr (c ∷ []) = if c == 13 then [] else c ∷ []
drop_cr (c ∷ d ∷ s) = c ∷ drop_cr (d ∷ s)

abbrev pub max_scan_token_size : ℕ
max_scan_token_size = 65536

unfoldable pub scanned : List Bytes → List Bytes
scanned [] = []
scanned (l ∷ []) =
    if not (str_eq l []) && ltb (length l) max_scan_token_size then drop_cr l ∷ [] else []
scanned (l ∷ m ∷ ls) =
    let rest = scanned (m ∷ ls) in
    if ltb (length l) max_scan_token_size then drop_cr l ∷ rest else []

unfoldable pub scan_lines : Bytes → List Bytes
scan_lines target = scanned (split_lines target)

-- The loop of `UncommentCode` over the scanned lines.
unfoldable pub write_lines : Bytes → List Bytes → Bytes
write_lines prefix [] = []
write_lines prefix (l ∷ []) = trim_prefix prefix l
write_lines prefix (l ∷ m ∷ ls) = trim_prefix prefix l ++ (10 ∷ write_lines prefix (m ∷ ls))

-- The files: `os.ReadFile`, and `os.WriteFile` with mode 0644.
pub record Files : Type 1 where
  pub World : Type 0
  pub read_file : Bytes → Exec World Bytes
  pub write_file : Bytes → Bytes → Exec World (Unit {0})

module _ (F : Files) where
  unfoldable pub save : Bytes → Bytes → Exec F.World (Unit {0})
  save filename out =
      catch (F.write_file filename out)
        (λ e. raise (wrap (codes "failed to write file %q: %w") (filename ∷ []) e)) pure

  -- Behind the first `Scan`: a target without a line leaves the file alone.
  unfoldable pub replace_lines :
      Bytes → Bytes → Bytes → Bytes → ℕ → List Bytes → Exec F.World (Unit {0})
  replace_lines filename target prefix content idx [] = pure tt
  replace_lines filename target prefix content idx (l ∷ ls) =
      save filename
        (take idx content ++ (write_lines prefix (l ∷ ls) ++ drop (idx + length target) content))

  -- Behind the search for the target.
  unfoldable pub replace_at : Bytes → Bytes → Bytes → Bytes → Option ℕ → Exec F.World (Unit {0})
  replace_at filename target prefix content none =
      raise (errorf (codes "unable to find the code %q to be uncommented") (target ∷ []))
  replace_at filename target prefix content (some idx) =
      replace_lines filename target prefix content idx (scan_lines target)

  unfoldable pub uncomment_code : Bytes → Bytes → Bytes → Exec F.World (Unit {0})
  uncomment_code filename target prefix =
      catch (F.read_file filename)
        (λ e. raise (wrap (codes "failed to read file %q: %w") (filename ∷ []) e))
        λ content. replace_at filename target prefix content (index content target)
