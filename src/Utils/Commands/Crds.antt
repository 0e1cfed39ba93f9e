-- ===== src/Utils/Commands/Crds.antt =====
-- When `IsCertManagerCRDsInstalled` answers true.
use mathlib.Core.List.{Memᴰ}
use cilion.Base.{
  ◌≡◌, refl, sym, ap, ◌∙◌, ◌↔◌, Bytes, List, [], ◌∷◌, Option, none, some, Bool, true, false,
  if◌then◌else◌, Bool-cases, inl, inr, arith,
}
use cilion.Utils.{get_non_empty_lines}
use cilion.Effect.{Error}
use cilion.Utils.Commands.{
  Shell, command, run, cert_manager_crds, contains, in_lines, any_installed, listed, get_crds,
  is_cert_manager_crds_installed,
}

first_or : (b c : Bool) → b ≡ false → (if b then true else c) ≡ true → c ≡ true
first_or b c e h = ground arith

either : (b c : Bool) → c ≡ true → (if b then true else c) ≡ true
either b c h = ground arith

in_lines-found :
    (crd : Bytes) (lines : List Bytes)
    → in_lines crd lines ≡ true
    → (line : Bytes) × Memᴰ line lines × (contains line crd ≡ true)
unfolding in_lines
in_lines-found crd [] h = absurd (cc h)
in_lines-found crd (l ∷ ls) h = elim (Bool-cases (contains l crd)) [
  | inl e ↦ (l, Memᴰ.head refl, e)
  | inr e ↦
      let (line, m, found) = in_lines-found crd ls (first_or _ _ e h) in (line, Memᴰ.tail m, found)
]

in_lines-of :
    (crd line : Bytes) (lines : List Bytes)
    → Memᴰ line lines
    → contains line crd ≡ true
    → in_lines crd lines ≡ true
unfolding in_lines
in_lines-of crd line [] m h = elim m [ ]
in_lines-of crd line (l ∷ ls) (Memᴰ.head e) h = rw (sym (ap (λ k. contains k crd) e) ∙ h) refl
in_lines-of crd line (l ∷ ls) (Memᴰ.tail m) h =
    either (contains l crd) _ (in_lines-of crd line ls m h)

any_installed-found :
    (crds lines : List Bytes)
    → any_installed crds lines ≡ true
    → (crd : Bytes) × Memᴰ crd crds × (in_lines crd lines ≡ true)
unfolding any_installed
any_installed-found [] lines h = absurd (cc h)
any_installed-found (c ∷ cs) lines h = elim (Bool-cases (in_lines c lines)) [
  | inl e ↦ (c, Memᴰ.head refl, e)
  | inr e ↦
      let (crd, m, found) = any_installed-found cs lines (first_or _ _ e h) in
      (crd, Memᴰ.tail m, found)
]

any_installed-of :
    (crd : Bytes) (crds lines : List Bytes)
    → Memᴰ crd crds
    → in_lines crd lines ≡ true
    → any_installed crds lines ≡ true
unfolding any_installed
any_installed-of crd [] lines m h = elim m [ ]
any_installed-of crd (c ∷ cs) lines (Memᴰ.head e) h =
    rw (sym (ap (λ k. in_lines k lines) e) ∙ h) refl
any_installed-of crd (c ∷ cs) lines (Memᴰ.tail m) h =
    either (in_lines c lines) _ (any_installed-of crd cs lines m h)

-- `IsCertManagerCRDsInstalled` answers true exactly if kubectl succeeds and some line of what it
-- prints contains the name of one of the resources.
pub is_cert_manager_crds_installed_lem :
    (S : Shell) (w : S.World)
    → let r = run S (command get_crds) w in
      ((is_cert_manager_crds_installed S w).0 ≡ true) ↔ (
        (r.0.1 ≡ none)
        × (crd : Bytes) × Memᴰ crd cert_manager_crds
        × (line : Bytes) × Memᴰ line (get_non_empty_lines r.0.0)
        × (contains line crd ≡ true))
unfolding is_cert_manager_crds_installed
is_cert_manager_crds_installed_lem S w = answered (run S (command get_crds) w)
  where
    answered :
        (r : (Bytes × Option Error) × S.World)
        → ((listed S r).0 ≡ true) ↔ (
            (r.0.1 ≡ none)
            × (crd : Bytes) × Memᴰ crd cert_manager_crds
            × (line : Bytes) × Memᴰ line (get_non_empty_lines r.0.0)
            × (contains line crd ≡ true))
    answered ((output, some e), v) = ((λ h. absurd (cc h)), λ h. absurd (cc (h.0)))
    answered ((output, none), v) = (
      (λ h.
          let (crd, m, found) =
            any_installed-found cert_manager_crds (get_non_empty_lines output) h in
          let (line, n, here) = in_lines-found crd (get_non_empty_lines output) found in
          (refl, crd, m, line, n, here)),
      λ h.
          let (_, crd, m, line, n, found) = h in
          any_installed-of crd cert_manager_crds (get_non_empty_lines output) m
            (in_lines-of crd line (get_non_empty_lines output) n found),
    )
