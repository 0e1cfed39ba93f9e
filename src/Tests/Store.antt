-- ===== src/Tests/Store.antt =====
-- An API server and a control service in memory, with the behaviour that the reconciler relies on.
use cilion.Base.{
  ◌≡◌, ◌≢◌, ◌⊎◌, refl, sym, ◌∙◌, ap, subst, Bytes, codes, List, [], ◌∷◌, Option, none, some, Bool,
  true, false, ◌||◌, if◌then◌else◌, Bool-cases, inl, inr, str_eq, str_eq_refl,
}
use cilion.Effect.{errno, errorf, Result, ok, err, panic, exit, world, answer}
use cilion.Api.{
  NamespacedName, ObjectMeta, ScionPathPolicy, ScionClusterPeer, ScionComputedPath, key_of, key_eq,
  key_eq-eq, key_eq_refl,
}
use cilion.Cluster.{Cluster, ScionClient, FetchedPath, IsFramed, IsAccepting, found_or}
use cilion.Reconcile.{is_deleted}
use cilion.Reconcile.Lifecycle.{IsStoring}
use cilion.Reconcile.Outcome.{IsUp}
use cilion.Reconcile.Status.{IsStatusStoring}

pub record Store : Type 0 where
  pub policies : NamespacedName → Option ScionPathPolicy
  pub paths : NamespacedName → Option ScionComputedPath

abbrev pub set :
    {A : Type 0} → (NamespacedName → Option A) → NamespacedName → A → NamespacedName → Option A
set m k a j = if key_eq j k then some a else m j

abbrev keyed : NamespacedName → Option ScionComputedPath → Option ScionComputedPath
keyed k none = none
keyed k (some c) = if key_eq (key_of c.meta) k then some c else none

-- The stored paths: an entry whose object has another key is not there.
abbrev pub view : Store → NamespacedName → Option ScionComputedPath
view w k = keyed k (w.paths k)

abbrev pub get_found : Option ScionPathPolicy → Result ScionPathPolicy
get_found none = err (errno 404)
get_found (some p) = ok p

abbrev pub write : Store → NamespacedName → Result ScionComputedPath → Result (Unit {0}) × Store
write w k (ok c) =
    if key_eq (key_of c.meta) k
    then (ok tt, record w { paths = set w.paths k c })
    else (err (errorf (codes "mutate changed the key") []), w)
write w k (err e) = (err e, w)
write w k (panic f) = (panic f, w)
write w k (exit n) = (exit n, w)

abbrev has : List Bytes → Bytes → Bool
has [] f = false
has (g ∷ gs) f = str_eq f g || has gs f

abbrev without : List Bytes → Bytes → List Bytes
without [] f = []
without (g ∷ gs) f = if str_eq f g then without gs f else g ∷ without gs f

abbrev pub own : Bytes → ScionComputedPath → Option Bytes → Result ScionComputedPath
own owner c none = ok (record c { meta = record c.meta { controller_owner = some owner } })
own owner c (some o) = if str_eq o owner then ok c else err (errorf (codes "already owned") [])

abbrev with_status : ScionPathPolicy → Option ScionPathPolicy → Option ScionPathPolicy
with_status p none = none
with_status p (some old) = some (record old { status = p.status })

abbrev set_status :
    (NamespacedName → Option ScionPathPolicy)
    → ScionPathPolicy
    → NamespacedName
    → Option ScionPathPolicy
set_status m p k = if key_eq k (key_of p.meta) then with_status p (m k) else m k

abbrev pub store_cluster : List ScionClusterPeer → Cluster
store_cluster peers = record {
  World = Store;
  get_policy = λ n w. (get_found (w.policies n), w);
  update_policy = λ p w. (ok tt, record w { policies = set w.policies (key_of p.meta) p });
  update_policy_status = λ p w. (ok tt, record w { policies = set_status w.policies p });
  list_peers = λ w. (ok peers, w);
  create_or_update =
      λ obj f w. write w (key_of obj.meta) (f (found_or obj (view w (key_of obj.meta))));
  ignore_not_found = λ e. none;
  contains_finalizer = λ p f. has p.meta.finalizers f;
  add_finalizer = λ p f. record p { meta = record p.meta { finalizers = f ∷ p.meta.finalizers } };
  remove_finalizer =
      λ p f. record p { meta = record p.meta { finalizers = without p.meta.finalizers f } };
  set_controller_reference = λ p c. own p.meta.name c c.meta.controller_owner;
  set_status_condition = λ l c. c ∷ l;
}

-- A control service with fixed answers.
abbrev pub serving : (Bytes → Bytes → FetchedPath) → ScionClient Store
serving answers = record {
  fetch_path = λ destination preference w. (ok (answers destination preference), w);
}

if_true {ℓ} : {A : Type ℓ} (b : Bool) (x y : A) → b ≡ true → (if b then x else y) ≡ x
if_true b x y h = rw h

if_false {ℓ} : {A : Type ℓ} (b : Bool) (x y : A) → b ≡ false → (if b then x else y) ≡ y
if_false b x y h = rw h

write_frame :
    (w : Store) (j k : NamespacedName) (r : Result ScionComputedPath)
    → k ≢ j
    → view (world (write w j r)) k ≡ view w k
write_frame w j k (err e) h = refl
write_frame w j k (panic f) h = refl
write_frame w j k (exit n) h = refl
write_frame w j k (ok c) h = elim (Bool-cases (key_eq (key_of c.meta) j)) [
  | inl q ↦ ap (λ p. view (world p) k) (if_true _ _ _ q) ∙ (elim (Bool-cases (key_eq k j)) [
    | inl same ↦ absurd (h (key_eq-eq _ _ same))
    | inr other ↦ ap (keyed k) (if_false _ _ _ other)
  ])
  | inr q ↦ ap (λ p. view (world p) k) (if_false _ _ _ q)
]

pub store-IsFramed :
    (peers : List ScionClusterPeer) (answers : Bytes → Bytes → FetchedPath)
    → IsFramed (store_cluster peers) view (serving answers)
store-IsFramed peers answers = record {
  create_frame = λ w obj f k h. write_frame w (key_of obj.meta) k _ h;
  fetch_frame = λ w d p k. refl;
  get_frame = λ w n k. refl;
  list_frame = λ w k. refl;
  update_frame = λ w p k. refl;
  status_frame = λ w p k. refl;
}

abbrev meta_or : ScionComputedPath → Option ScionComputedPath → ObjectMeta
meta_or d none = d.meta
meta_or d (some c) = c.meta

abbrev name_or : Bytes → Option Bytes → Bytes
name_or d none = d
name_or d (some c) = c

keyed-key :
    (k : NamespacedName) (o : Option ScionComputedPath) (c : ScionComputedPath)
    → keyed k o ≡ some c
    → key_of c.meta ≡ k
keyed-key k none c h = cc
keyed-key k (some d) c h = elim (Bool-cases (key_eq (key_of d.meta) k)) [
  | inl q ↦
      let same : some d ≡ some c = sym (if_true _ (some d) none q) ∙ h in
      subst (λ o. key_of (meta_or d o) ≡ k) same (key_eq-eq _ _ q)
  | inr q ↦ let gone : none ≡ some c = sym (if_false _ (some d) none q) ∙ h in cc
]

own_lem :
    (owner : Bytes) (c : ScionComputedPath) (o : Option Bytes)
    → c.meta.controller_owner ≡ o
    → (o ≡ none) ⊎ (o ≡ some owner)
    → (d : ScionComputedPath) × (own owner c o ≡ ok d)
      × (key_of d.meta ≡ key_of c.meta)
      × (d.meta.controller_owner ≡ some owner)
own_lem owner c none at h =
    (record c { meta = record c.meta { controller_owner = some owner } }, refl, refl, refl)
own_lem owner c (some o) at (inl h) = absurd (cc)
own_lem owner c (some o) at (inr h) =
    let same : str_eq o owner ≡ true =
      subst (λ q. str_eq (name_or o q) owner ≡ true) (sym h) (str_eq_refl owner) in
    (c, if_true _ _ _ same, refl, at ∙ h)

write_stores :
    (w : Store) (k : NamespacedName) (r : Result ScionComputedPath) (c : ScionComputedPath)
    → r ≡ ok c
    → key_of c.meta ≡ k
    → (answer (write w k r) ≡ ok tt) × (view (world (write w k r)) k ≡ some c)
write_stores w k r c made at =
    let same : key_eq (key_of c.meta) k ≡ true =
      subst (λ j. key_eq (key_of c.meta) j ≡ true) at (key_eq_refl _) in
    let e : write w k r ≡ (ok tt, record w { paths = set w.paths k c }) =
      ap (write w k) made ∙ if_true _ _ _ same in
    (
      ap (λ p. answer p) e,
      ap (λ p. view (world p) k) e
          ∙ ap (keyed k) (if_true _ (some c) (w.paths k) (key_eq_refl k))
          ∙ if_true _ (some c) none same,
    )

pub store-IsAccepting : (peers : List ScionClusterPeer) → IsAccepting (store_cluster peers) view
store-IsAccepting peers = record {
  stored_key = λ w k c h. keyed-key k (w.paths k) c h;
  references = λ p c h. own_lem p.meta.name c c.meta.controller_owner refl h;
  stores = λ w obj f c made at. write_stores w (key_of obj.meta) _ c made at;
}

pub store-IsUp :
    (peers : List ScionClusterPeer) (answers : Bytes → Bytes → FetchedPath)
    → IsUp (store_cluster peers) (serving answers) view answers peers
store-IsUp peers answers = record {
  framed = store-IsFramed peers answers;
  accepting = store-IsAccepting peers;
  serves = λ w d p. refl;
  lists = λ w. refl;
  status_accepted = λ w p. refl;
}

set_lem :
    {A : Type 0} (m : NamespacedName → Option A) (k : NamespacedName) (a : A) → set m k a k ≡ some a
set_lem m k a = if_true _ (some a) (m k) (key_eq_refl k)

has-without : (l : List Bytes) (f : Bytes) → has (without l f) f ≡ false
has-without [] f = refl
has-without (g ∷ gs) f = elim (Bool-cases (str_eq f g)) [
  | inl q ↦ ap (λ l. has l f) (if_true _ _ _ q) ∙ has-without gs f
  | inr q ↦
      ap (λ l. has l f) (if_false _ _ _ q)
      ∙ ap (λ b. b || has (without gs f) f) q
      ∙ has-without gs f
]

has_head : (l : List Bytes) (f : Bytes) → (str_eq f f || has l f) ≡ true
has_head l f = ap (λ b. b || has l f) (str_eq_refl f)

pub store-IsStoring :
    (peers : List ScionClusterPeer) → IsStoring (store_cluster peers) (λ w. w.policies)
unfolding is_deleted
store-IsStoring peers = record {
  get_found = λ w n p h. ap (λ o. (get_found o, w)) h;
  get_missing = λ w n h. (errno 404, ap (λ o. (get_found o, w)) h, refl);
  update_live = λ w p h fine. set_lem w.policies (key_of p.meta) p;
  update_deleted = λ w p h fine. inl (set_lem w.policies (key_of p.meta) p);
  add_contains = λ p f. has_head p.meta.finalizers f;
  remove_contains = λ p f. has-without p.meta.finalizers f;
  add_keeps = λ p f. (refl, refl);
  remove_keeps = λ p f. (refl, refl);
}

pub store-IsStatusStoring :
    (peers : List ScionClusterPeer) → IsStatusStoring (store_cluster peers) (λ w. w.policies)
store-IsStatusStoring peers w old p h =
    if_true _ (with_status p (w.policies (key_of p.meta))) (w.policies (key_of p.meta))
      (key_eq_refl (key_of p.meta))
    ∙ ap (with_status p) h
