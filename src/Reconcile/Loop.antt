-- ===== src/Reconcile/Loop.antt =====
-- The loop over the peers against its specification: a map from the keys to the paths that the
-- policy, the peers and the answers of the control service determine.
use cilion.Base.{
  ◌≡◌, refl, sym, ◌∙◌, ap, Bytes, List, [], ◌∷◌, Option, none, some, Bool, true, false, ◌&&◌, inl,
  inr, if◌then◌else◌, Bool-cases, arith, subst,
}
use cilion.Effect.{Result, ok, continue-ok, world, answer}
use cilion.Api.{
  NamespacedName, ScionPathPolicy, ScionClusterPeer, ScionComputedPathSpec, key_eq, key_eq-eq,
  key_eq-ne,
}
use cilion.Cluster.{Cluster, ScionClient, FetchedPath, View, IsFramed, IsAccepting, Serves}
use cilion.Reconcile.{reconcile_peer, reconcile_peers}
use cilion.Reconcile.Names.{path_key}
use cilion.Reconcile.Peer.{path_to, spec_of, MayWrite, waiting_step, ready_step}

abbrev pub or_else {ℓ} : {A : Type ℓ} → Option A → Option A → Option A
or_else (some a) o = some a
or_else none o = o

module _ (policy : ScionPathPolicy) (told : ScionClusterPeer → FetchedPath) where
  -- What one peer asks for at a key.
  abbrev pub wanted : ScionClusterPeer → NamespacedName → Option ScionComputedPathSpec
  wanted peer k =
      if (told peer).is_ready && key_eq k (path_key policy peer)
      then some (path_to policy peer (told peer))
      else none

  -- What the peers ask for at a key: the last one that is ready has its way.
  unfoldable pub planned : List ScionClusterPeer → NamespacedName → Option ScionComputedPathSpec
  planned [] k = none
  planned (peer ∷ peers) k = or_else (planned peers k) (wanted peer k)

  unfoldable pub all_ready : List ScionClusterPeer → Bool
  all_ready [] = true
  all_ready (peer ∷ peers) = (told peer).is_ready && all_ready peers

pub or_else_assoc {ℓ} :
    {A : Type ℓ} (a b c : Option A) → or_else (or_else a b) c ≡ or_else a (or_else b c)
or_else_assoc (some a) b c = refl
or_else_assoc none b c = refl

pub or_else_idem {ℓ} : {A : Type ℓ} (a b : Option A) → or_else a (or_else a b) ≡ or_else a b
or_else_idem (some a) b = refl
or_else_idem none b = refl

module _ {ℓ} {A : Type ℓ} (a b : Bool) (x : A) (o : Option A) where
  -- A guarded choice over `o` whose guard holds, and one whose guard does not.
  choice-some : a ≡ true → b ≡ true → some x ≡ or_else (if a && b then some x else none) o
  choice-some ha hb = rw (ha, hb)

  choice-none_right : b ≡ false → o ≡ or_else (if a && b then some x else none) o
  choice-none_right hb = ground arith

  choice-none_left : a ≡ false → o ≡ or_else (if a && b then some x else none) o
  choice-none_left ha = ground arith

and_true : (a : Bool) → a ≡ (a && true)
and_true true = refl
and_true false = refl

and_assoc : (a b c : Bool) → ((a && b) && c) ≡ (a && (b && c))
and_assoc true b c = refl
and_assoc false b c = refl

module _ (C : Cluster) (client : ScionClient C.World) (V : View C) (F : IsFramed C V client)
    (A : IsAccepting C V) (answers : Bytes → Bytes → FetchedPath) (S : Serves client answers)
    (policy : ScionPathPolicy) (pref : Bytes) (given : policy.spec.preference ≡ some pref) where
  abbrev told : ScionClusterPeer → FetchedPath
  told peer = answers peer.spec.remote_as pref

  -- `w'` answers `ready` and holds what `plan` asks for, over what `w` held.
  abbrev pub Refines :
      (NamespacedName → Option ScionComputedPathSpec)
      → Bool
      → C.World
      → Result Bool × C.World
      → Type 0
  Refines plan ready w p =
      (answer p ≡ ok ready)
      × ((k : NamespacedName) → spec_of (V (world p) k) ≡ or_else (plan k) (spec_of (V w k)))
      × MayWrite C V policy (world p)

  pub peer-Refines :
      (peer : ScionClusterPeer) (w : C.World)
      → MayWrite C V policy w
      → Refines
          (wanted policy told peer)
          (told peer).is_ready
          w
          (reconcile_peer C (some client) policy peer w)
  peer-Refines peer w own = elim (Bool-cases (told peer).is_ready) [
    | inl h ↦
        let (fine, stored, owner, elsewhere, own') =
          ready_step C client V F A answers S policy pref given peer w h own in
        (
          fine ∙ ap ok (sym h),
          λ k. elim (Bool-cases (key_eq k (path_key policy peer))) [
            | inl same ↦
                ap (λ j. spec_of (V (world (reconcile_peer C (some client) policy peer w)) j))
                  (key_eq-eq k _ same)
                ∙ stored
                ∙ choice-some _ _ _ _ h same
            | inr other ↦
                ap spec_of (elsewhere k (key_eq-ne k _ other))
                ∙ choice-none_right (told peer).is_ready _ _ _ other
          ],
          own',
        )
    | inr h ↦
        let (fine, same) = waiting_step C client V F A answers S policy pref given peer w h in
        (
          fine ∙ ap ok (sym h),
          λ k. ap spec_of (same k) ∙ choice-none_left _ (key_eq k (path_key policy peer)) _ _ h,
          λ q c at. own q c (sym (same _) ∙ at),
        )
  ]

  -- If the policy may write under each of its names, the loop returns, and leaves under each key
  -- the path that `planned` names, or what was there; it answers whether the flag it began with
  -- and every path were ready, and the policy may write again.
  pub reconcile_peers-Refines :
      (peers : List ScionClusterPeer) (ready : Bool) (w : C.World)
      → MayWrite C V policy w
      → Refines
          (planned policy told peers)
          (ready && all_ready policy told peers)
          w
          (reconcile_peers C (some client) policy peers ready w)
  unfolding reconcile_peers planned all_ready
  reconcile_peers-Refines [] ready w own = (ap ok (and_true ready), λ k. refl, own)
  reconcile_peers-Refines (peer ∷ peers) ready w own =
      let (fine, specs, own₁) = peer-Refines peer w own in
      let w₁ = world (reconcile_peer C (some client) policy peer w) in
      let (fine', specs', own₂) =
        reconcile_peers-Refines peers (ready && (told peer).is_ready) w₁ own₁ in
      let e : reconcile_peers C (some client) policy (peer ∷ peers) ready w
          ≡ reconcile_peers C (some client) policy peers (ready && (told peer).is_ready) w₁ =
        continue-ok (λ r. reconcile_peers C (some client) policy peers (ready && r))
          (reconcile_peer C (some client) policy peer w) _ fine in
      (
        ap (λ p. answer p) e
            ∙ fine'
            ∙ ap ok (and_assoc ready (told peer).is_ready (all_ready policy told peers)),
        λ k.
            ap (λ p. spec_of (V (world p) k)) e
            ∙ specs' k
            ∙ ap (or_else (planned policy told peers k)) (specs k)
            ∙ sym (or_else_assoc (planned policy told peers k) (wanted policy told peer k) _),
        subst (λ p. MayWrite C V policy (world p)) (sym e) own₂,
      )
