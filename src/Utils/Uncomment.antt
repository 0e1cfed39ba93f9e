-- ===== src/Utils/Uncomment.antt =====
-- What `UncommentCode` writes.
use cilion.Base.{
  ◌+◌, ◌≡◌, refl, sym, ap, ap₂, ◌∙◌, Bytes, length, take, drop, length-append, List, [], ◌∷◌, ◌++◌,
  map, append_assoc, All, some,
}
use cilion.Effect.{ok, recover-ok, world, answer}
use cilion.Utils.{
  trim_prefix, index, drop_cr, write_lines, Files, save, replace_lines, replace_at, uncomment_code,
}
use cilion.Utils.Lines.{IsLine, joined, last_of, IsEnd, scan_lines-joined}

-- A line as it is written.
abbrev pub bared : Bytes → Bytes → Bytes
bared prefix l = trim_prefix prefix (drop_cr l)

write_lines-joined :
    (prefix l : Bytes) (ls : List Bytes)
    → write_lines prefix (map drop_cr (l ∷ ls)) ≡ joined (bared prefix l) (map (bared prefix) ls)
unfolding write_lines
write_lines-joined prefix l [] = refl
write_lines-joined prefix l (m ∷ ls) =
    ap (λ s. bared prefix l ++ (10 ∷ s)) (write_lines-joined prefix m ls)

take-append : (a b : Bytes) → take (length a) (a ++ b) ≡ a
take-append [] b = refl
take-append (c ∷ a) b = ap (λ s. c ∷ s) (take-append a b)

drop-append : (a b : Bytes) → drop (length a) (a ++ b) ≡ b
drop-append [] b = refl
drop-append (c ∷ a) b = drop-append a b

drop_both : (a b c : Bytes) → drop (length a + length b) (a ++ (b ++ c)) ≡ c
drop_both a b c =
    ap₂ (λ n s. drop n s) (sym (length-append a b)) (sym (append_assoc a b c))
    ∙ drop-append (a ++ b) c

-- A target of one or more lines that each fit in 64 KiB, and that ends in a newline or in a line
-- that is not empty: where the file is read and the target occurs first behind `before`,
-- `UncommentCode` saves the file with each line of the target without the prefix and without a
-- carriage return at its end, and the rest of the file as it was; a newline at the end of the
-- target is not written, so that the text behind it follows the last line at once.
pub uncomment_code_lem :
    (F : Files) (filename prefix before l : Bytes) (ls : List Bytes) (end behind : Bytes)
    (w : F.World)
    → IsLine l
    → All IsLine ls
    → IsEnd (last_of l ls) end
    → let target = joined l ls ++ end in
      let content = before ++ (target ++ behind) in
      answer (F.read_file filename w) ≡ ok content
      → index content target ≡ some (length before)
      → uncomment_code F filename target prefix w
        ≡ save F filename
            (before ++ (joined (bared prefix l) (map (bared prefix) ls) ++ behind))
            (world (F.read_file filename w))
unfolding uncomment_code replace_at replace_lines
uncomment_code_lem F filename prefix before l ls end behind w line lines ended found first =
    let target = joined l ls ++ end in
    let content = before ++ (target ++ behind) in
    let w₁ = world (F.read_file filename w) in
    recover-ok _ (λ c. replace_at F filename target prefix c (index c target))
      (F.read_file filename w) content found
    ∙ ap (λ o. replace_at F filename target prefix content o w₁) first
    ∙ ap (λ t. replace_lines F filename target prefix content (length before) t w₁)
        (scan_lines-joined l ls end line lines ended)
    ∙ ap (λ out. save F filename out w₁)
        (ap₂ (λ a b. a ++ b) (take-append before (target ++ behind))
          (ap₂ (λ a b. a ++ b) (write_lines-joined prefix l ls) (drop_both before target behind)))
