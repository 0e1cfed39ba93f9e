-- ===== src/Reconcile/Lifecycle.antt =====
-- The finalizer protocol of a policy: it is added before any path is computed, and removed when
-- the policy is being deleted.
use cilion.Base.{
  ◌≡◌, ◌≢◌, refl, sym, ◌∙◌, ap, subst, Bytes, Option, none, some, true, false, ◌⊎◌, inl, inr, Bool,
  Bool-cases, if◌then◌else◌,
}
use cilion.Effect.{
  Error, Result, ok, err, panic, exit, pure, continue, continue-ok, recover, map_result, world,
  answer,
}
use cilion.Api.{NamespacedName, ScionPathPolicy, key_of}
use cilion.Cluster.{Cluster, ScionClient}
use cilion.Reconcile.{
  done, cilion_finalizer, is_deleted, compute_paths, finalize, reconcile_policy, ignored, reconcile,
}

-- A view of the stored policies, with the documented behaviour of the calls on it: a get reads,
-- an update that the API server accepts stores, the server drops a deleted policy at some update,
-- and the helpers set and clear a finalizer without touching the key or the deletion mark. An
-- update may be refused, with a conflict or for a policy that is not stored.
pub record IsStoring (C : Cluster) (P : C.World → NamespacedName → Option ScionPathPolicy)
    : Type 0 where
  pub get_found :
      (w : C.World) (n : NamespacedName) (p : ScionPathPolicy)
      → P w n ≡ some p
      → C.get_policy n w ≡ (ok p, w)
  pub get_missing :
      (w : C.World) (n : NamespacedName)
      → P w n ≡ none
      → (e : Error) × (C.get_policy n w ≡ (err e, w)) × (C.ignore_not_found e ≡ none)
  pub update_live :
      (w : C.World) (p : ScionPathPolicy)
      → is_deleted p ≡ false
      → answer (C.update_policy p w) ≡ ok tt
      → P (world (C.update_policy p w)) (key_of p.meta) ≡ some p
  pub update_deleted :
      (w : C.World) (p : ScionPathPolicy)
      → is_deleted p ≡ true
      → answer (C.update_policy p w) ≡ ok tt
      → (P (world (C.update_policy p w)) (key_of p.meta) ≡ some p)
        ⊎ (P (world (C.update_policy p w)) (key_of p.meta) ≡ none)
  pub add_contains :
      (p : ScionPathPolicy) (f : Bytes) → C.contains_finalizer (C.add_finalizer p f) f ≡ true
  pub remove_contains :
      (p : ScionPathPolicy) (f : Bytes) → C.contains_finalizer (C.remove_finalizer p f) f ≡ false
  pub add_keeps :
      (p : ScionPathPolicy) (f : Bytes)
      → (key_of (C.add_finalizer p f).meta ≡ key_of p.meta)
        × (is_deleted (C.add_finalizer p f) ≡ is_deleted p)
  pub remove_keeps :
      (p : ScionPathPolicy) (f : Bytes)
      → (key_of (C.remove_finalizer p f).meta ≡ key_of p.meta)
        × (is_deleted (C.remove_finalizer p f) ≡ is_deleted p)

module _ (C : Cluster) (scion : Option (ScionClient C.World))
    (P : C.World → NamespacedName → Option ScionPathPolicy) (T : IsStoring C P) where
  abbrev protect : ScionPathPolicy → ScionPathPolicy
  protect p = C.add_finalizer p cilion_finalizer

  abbrev release : ScionPathPolicy → ScionPathPolicy
  release p = C.remove_finalizer p cilion_finalizer

  reconcile_found :
      (w : C.World) (n : NamespacedName) (p : ScionPathPolicy)
      → P w n ≡ some p
      → reconcile C scion n w ≡ reconcile_policy C scion p w
  unfolding reconcile
  reconcile_found w n p h = ap (recover _ (reconcile_policy C scion)) (T.get_found w n p h)

  reconcile_missing :
      (w : C.World) (n : NamespacedName) → P w n ≡ none → reconcile C scion n w ≡ (ok done, w)
  unfolding reconcile ignored
  reconcile_missing w n h =
      let (e, got, gone) = T.get_missing w n h in
      ap (recover _ (reconcile_policy C scion)) got ∙ ap (λ o. ignored C scion o w) gone

  policy_unprotected :
      (w : C.World) (p : ScionPathPolicy)
      → is_deleted p ≡ false
      → C.contains_finalizer p cilion_finalizer ≡ false
      → answer (C.update_policy (protect p) w) ≡ ok tt
      → reconcile_policy C scion p w ≡ (ok done, world (C.update_policy (protect p) w))
  unfolding reconcile_policy
  policy_unprotected w p live bare fine =
      rw (live, bare) (continue-ok (λ _. pure done) (C.update_policy (protect p) w) tt fine)

  policy_protected :
      (w : C.World) (p : ScionPathPolicy)
      → is_deleted p ≡ false
      → C.contains_finalizer p cilion_finalizer ≡ true
      → reconcile_policy C scion p w ≡ compute_paths C scion p w
  unfolding reconcile_policy
  policy_protected w p live kept = rw (live, kept)

  policy_finalized :
      (w : C.World) (p : ScionPathPolicy)
      → is_deleted p ≡ true
      → C.contains_finalizer p cilion_finalizer ≡ true
      → reconcile_policy C scion p w ≡ (
        map_result (λ _. done) (answer (C.update_policy (release p) w)),
        world (C.update_policy (release p) w),
      )
  unfolding reconcile_policy finalize
  policy_finalized w p dead kept = rw (dead, kept) (passed (C.update_policy (release p) w))
    where
      passed :
          (q : Result (Unit {0}) × C.World)
          → continue (λ _. pure done) q ≡ (map_result (λ _. done) (answer q), world q)
      passed (ok t, v) = refl
      passed (err e, v) = refl
      passed (panic f, v) = refl
      passed (exit n, v) = refl

  policy_released :
      (w : C.World) (p : ScionPathPolicy)
      → is_deleted p ≡ true
      → C.contains_finalizer p cilion_finalizer ≡ false
      → reconcile_policy C scion p w ≡ (ok done, w)
  unfolding reconcile_policy finalize
  policy_released w p dead bare = rw (dead, bare)

  -- With an API server that stores policies as documented, a live policy without the finalizer
  -- takes two reconciles if the update that adds it is accepted: the first one stores it with the
  -- finalizer and does nothing else, the second one computes its paths.
  pub finalizer_first :
      (w : C.World) (p : ScionPathPolicy)
      → P w (key_of p.meta) ≡ some p
      → is_deleted p ≡ false
      → C.contains_finalizer p cilion_finalizer ≡ false
      → answer (C.update_policy (protect p) w) ≡ ok tt
      → let w₁ = world (C.update_policy (protect p) w) in
        (reconcile C scion (key_of p.meta) w ≡ (ok done, w₁))
        × (P w₁ (key_of p.meta) ≡ some (protect p))
        × (reconcile C scion (key_of p.meta) w₁ ≡ compute_paths C scion (protect p) w₁)
  finalizer_first w p stored live bare fine =
      let (keyed, same) = T.add_keeps p cilion_finalizer in
      let w₁ = world (C.update_policy (protect p) w) in
      let kept : P w₁ (key_of p.meta) ≡ some (protect p) =
        subst (λ k. P w₁ k ≡ some (protect p)) keyed (T.update_live w _ (same ∙ live) fine) in
      (
        reconcile_found w _ p stored ∙ policy_unprotected w p live bare fine,
        kept,
        reconcile_found w₁ _ _ kept
            ∙ policy_protected w₁ _ (same ∙ live) (T.add_contains p cilion_finalizer),
      )

  -- What an accepted update of a deleted policy leaves, carried to the key of the policy.
  released_stored :
      (w : C.World) (p : ScionPathPolicy)
      → is_deleted p ≡ true
      → answer (C.update_policy (release p) w) ≡ ok tt
      → (P (world (C.update_policy (release p) w)) (key_of p.meta) ≡ some (release p))
        ⊎ (P (world (C.update_policy (release p) w)) (key_of p.meta) ≡ none)
  released_stored w p dead fine =
      let (keyed, same) = T.remove_keeps p cilion_finalizer in
      subst
        (λ k.
          (P (world (C.update_policy (release p) w)) k ≡ some (release p))
          ⊎ (P (world (C.update_policy (release p) w)) k ≡ none))
        keyed (T.update_deleted w (release p) (same ∙ dead) fine)

  -- The policy is gone or has no finalizer, and a further reconcile changes nothing.
  abbrev pub Settled : NamespacedName → C.World → Type 0
  Settled n w =
      ((P w n ≡ none)
        ⊎ ((q : ScionPathPolicy) × (P w n ≡ some q)
            × (C.contains_finalizer q cilion_finalizer ≡ false)))
      × (reconcile C scion n w ≡ (ok done, w))

  released-Settled :
      (w : C.World) (p : ScionPathPolicy)
      → is_deleted p ≡ true
      → answer (C.update_policy (release p) w) ≡ ok tt
      → Settled (key_of p.meta) (world (C.update_policy (release p) w))
  released-Settled w p dead fine =
      let w₁ = world (C.update_policy (release p) w) in
      elim (released_stored w p dead fine) [
        | inl at ↦
            let bare = T.remove_contains p cilion_finalizer in
            (
              inr (release p, at, bare),
              reconcile_found w₁ _ _ at
                  ∙ policy_released w₁ _ ((T.remove_keeps p cilion_finalizer).1 ∙ dead) bare,
            )
        | inr gone ↦ (inl gone, reconcile_missing w₁ _ gone)
      ]

  -- With an API server that stores the updates that it accepts, and may refuse others: a reconcile
  -- of a stored policy that is being deleted is the update that removes the finalizer, with its
  -- error if it is refused, or nothing if the finalizer is gone. Unless that update is refused it
  -- succeeds and leaves the policy gone or without the finalizer, and then a further reconcile
  -- changes nothing.
  pub deletion_settles :
      (w : C.World) (p : ScionPathPolicy)
      → P w (key_of p.meta) ≡ some p
      → is_deleted p ≡ true
      → let q = C.update_policy (release p) w in
        let r = reconcile C scion (key_of p.meta) w in
        (r ≡ (
          if C.contains_finalizer p cilion_finalizer
          then (map_result (λ _. done) (answer q), world q)
          else (ok done, w)))
        × (((answer r ≡ ok done) × Settled (key_of p.meta) (world r)) ⊎ (answer q ≢ ok tt))
  deletion_settles w p stored dead = elim (Bool-cases (C.contains_finalizer p cilion_finalizer)) [
    | inl kept ↦
        let e = reconcile_found w _ p stored ∙ policy_finalized w p dead kept in
        (e ∙ chosen _ _ _ kept, decided e (answer (C.update_policy (release p) w)) refl)
    | inr bare ↦
        let e = reconcile_found w _ p stored ∙ policy_released w p dead bare in
        (
          e ∙ unchosen _ _ _ bare,
          inl (
            ap (λ r. answer r) e,
            subst (λ r. Settled (key_of p.meta) (world r)) (sym e) (inr (p, stored, bare), e),
          ),
        )
  ]
    where
      chosen : {A : Type 0} (b : Bool) (x y : A) → b ≡ true → x ≡ (if b then x else y)
      chosen b x y h = rw h refl

      unchosen : {A : Type 0} (b : Bool) (x y : A) → b ≡ false → y ≡ (if b then x else y)
      unchosen b x y h = rw h refl

      decided :
          reconcile C scion (key_of p.meta) w ≡ (
            map_result (λ _. done) (answer (C.update_policy (release p) w)),
            world (C.update_policy (release p) w),
          )
          → (a : Result (Unit {0})) → answer (C.update_policy (release p) w) ≡ a
          → ((answer (reconcile C scion (key_of p.meta) w) ≡ ok done)
              × Settled (key_of p.meta) (world (reconcile C scion (key_of p.meta) w)))
            ⊎ (answer (C.update_policy (release p) w) ≢ ok tt)
      decided e (ok t) h = inl (
        ap (λ r. answer r) e ∙ ap (map_result (λ _. done)) h,
        subst (λ r. Settled (key_of p.meta) (world r)) (sym e) (released-Settled w p dead h),
      )
      decided e (err x) h = inr (λ same. absurd (cc (h, same)))
      decided e (panic f) h = inr (λ same. absurd (cc (h, same)))
      decided e (exit n) h = inr (λ same. absurd (cc (h, same)))
