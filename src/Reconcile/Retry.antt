-- ===== src/Reconcile/Retry.antt =====
-- A request that comes back until it is settled: controller-runtime hands it to `Reconcile` again
-- after an error and after a positive `RequeueAfter`.
use mathlib.Core.List.{Memᴰ}
use cilion.Base.{
  ◌≡◌, refl, sym, ◌∙◌, ap, subst, Bytes, List, [], ◌∷◌, Option, none, some, Bool, true, false, ◌&&◌,
  ◌==◌, if◌then◌else◌, Bool-cases, inl, inr, arith,
}
use cilion.Effect.{Result, ok, err, panic, exit, world, answer}
use cilion.Api.{NamespacedName, ScionPathPolicy, ScionClusterPeer}
use cilion.Cluster.{Cluster, ScionClient, FetchedPath, View}
use cilion.Reconcile.{reconcile_peers, finish, reconcile, CtrlResult, done, requeue}
use cilion.Reconcile.Keeps.{IsKept, reconcile_peers-keeps}
use cilion.Reconcile.Names.{path_key}
use cilion.Reconcile.Peer.{path_to, spec_of, MayWrite}
use cilion.Reconcile.Loop.{all_ready}
use cilion.Reconcile.Outcome.{
  IsUp, IsLive, reconcile_live, reconcile_refines, reconcile-MayWrite, compute_paths-looped,
}
use cilion.Reconcile.Destinations.{DistinctNames, destination_stored}

-- The answers of the control service.
abbrev pub Answers : Type 0
Answers = Bytes → Bytes → FetchedPath

module _ (C : Cluster) (req : NamespacedName) where
  -- What becomes of a request by the outcome of a reconcile: `some` world if it is settled.
  abbrev pub settled : Result CtrlResult × C.World → Option C.World → Option C.World
  settled (ok r, w) again = if r.requeue_after == 0 then some w else again
  settled (err e, w) again = again
  settled (panic p, w) again = none
  settled (exit n, w) again = none

  -- The reconciles of a request, one for each client, until it is settled.
  unfoldable pub retry : List (ScionClient C.World) → C.World → Option C.World
  retry [] w = none
  retry (client ∷ clients) w =
      settled (reconcile C (some client) req w)
        (retry clients (world (reconcile C (some client) req w)))

  -- Only updates change which policy the request names.
  abbrev pub KeepsPolicy : ScionClient C.World → ScionPathPolicy → Type 0
  KeepsPolicy client policy = IsKept C client (λ w. answer (C.get_policy req w) ≡ ok policy)

-- Where all paths are ready, each is.
all_ready-Mem :
    (policy : ScionPathPolicy) (told : ScionClusterPeer → FetchedPath)
    (peers : List ScionClusterPeer) (peer : ScionClusterPeer)
    → Memᴰ peer peers
    → all_ready policy told peers ≡ true
    → (told peer).is_ready ≡ true
unfolding all_ready
all_ready-Mem policy told [] peer m h = elim m [ ]
all_ready-Mem policy told (q ∷ qs) peer (Memᴰ.head e) h =
    ap (λ p. (told p).is_ready) e ∙ left (told q).is_ready _ h
  where
    left : (a b : Bool) → (a && b) ≡ true → a ≡ true
    left a b h = ground arith
all_ready-Mem policy told (q ∷ qs) peer (Memᴰ.tail m) h =
    all_ready-Mem policy told qs peer m (right (told q).is_ready _ h)
  where
    right : (a b : Bool) → (a && b) ≡ true → b ≡ true
    right a b h = ground arith

module _ (C : Cluster) (V : View C) (peers : List ScionClusterPeer)
    (serve : Answers → ScionClient C.World) (U : (a : Answers) → IsUp C (serve a) V a peers)
    (req : NamespacedName) (policy : ScionPathPolicy) (pref : Bytes)
    (N : (a : Answers) → KeepsPolicy C req (serve a) policy) (distinct : DistinctNames peers) where
  abbrev told : Answers → ScionClusterPeer → FetchedPath
  told a peer = a peer.spec.remote_as pref

  abbrev clients : List Answers → List (ScionClient C.World)
  clients [] = []
  clients (a ∷ rounds) = serve a ∷ clients rounds

  -- A round in which some path is not ready leaves the policy as the request found it.
  waiting-IsLive :
      (a : Answers) (w : C.World)
      → IsLive C req policy pref w
      → MayWrite C V policy w
      → all_ready policy (told a) peers ≡ false
      → IsLive C req policy pref (world (reconcile C (some (serve a)) req w))
  unfolding finish
  waiting-IsLive a w L own h =
      let w₁ = world (C.get_policy req w) in
      let w₂ =
        world (reconcile_peers C (some (serve a)) policy peers true (world (C.list_peers w₁))) in
      let own₁ : MayWrite C V policy w₁ =
        λ q c at. own q c (sym ((U a).framed.get_frame w req _) ∙ at) in
      let e =
        reconcile_live C (some (serve a)) req policy w L.found L.live L.kept
        ∙ compute_paths-looped C (serve a) V a peers (U a) policy pref w₁ L.given own₁
        ∙ ap (λ b. finish C (some (serve a)) policy peers b w₂) h in
      record {
        found =
            subst (λ p. answer (C.get_policy req (world p)) ≡ ok policy) (sym e)
              (reconcile_peers-keeps C (serve a) _ (N a) policy peers true _
                ((N a).list_keeps w₁ ((N a).get_keeps req w L.found)));
        live = L.live;
        kept = L.kept;
        given = L.given;
      }

  -- The request is settled, in a world with a path for each peer, all from the answers of one of
  -- the rounds, in which every path was ready.
  abbrev pub IsSettled : List Answers → Option C.World → Type 0
  IsSettled rounds o =
      (w : C.World) × (a : Answers) × Memᴰ a rounds
      × (o ≡ some w)
      × (all_ready policy (told a) peers ≡ true)
      × ((peer : ScionClusterPeer)
          → Memᴰ peer peers
          → spec_of (V w (path_key policy peer)) ≡ some (path_to policy peer (told a peer)))

  ready-IsSettled :
      (a : Answers) (rounds : List Answers) (again : Option C.World) (w : C.World)
      → IsLive C req policy pref w
      → MayWrite C V policy w
      → all_ready policy (told a) peers ≡ true
      → IsSettled (a ∷ rounds) (settled C req (reconcile C (some (serve a)) req w) again)
  ready-IsSettled a rounds again w L own h =
      let p = reconcile C (some (serve a)) req w in
      let fine = (reconcile_refines C (serve a) V a peers (U a) policy pref req w L own).0 in
      (
        world p,
        a,
        Memᴰ.head refl,
        ap (λ r. settled C req (r, world p) again)
            (fine ∙ ap (λ b. ok (if b then done else requeue)) h),
        h,
        λ peer m.
            destination_stored C (serve a) V a peers (U a) policy pref req w L own peer m distinct
              (all_ready-Mem policy (told a) peers peer m h),
      )

  later-IsSettled :
      (a : Answers) (rounds : List Answers) (o : Option C.World)
      → IsSettled rounds o
      → IsSettled (a ∷ rounds) o
  later-IsSettled a rounds o (w, b, m, at, ready, paths) = (w, b, Memᴰ.tail m, at, ready, paths)

  -- With a cluster that is up and keeps the policy, a live policy that has its finalizer and a
  -- preference and may write under each of its names, and listed peers of distinct names: if the
  -- control service is up in each round, and has every path ready in one of them, the retries end,
  -- without a panic, and leave for each listed peer a stored path of the policy to the peer's pods,
  -- all with the next hops and hop fields of the answers of one of the rounds, in which every path
  -- was ready.
  pub retry-IsSettled :
      (rounds : List Answers) (last : Answers) (w : C.World)
      → Memᴰ last rounds
      → all_ready policy (told last) peers ≡ true
      → IsLive C req policy pref w
      → MayWrite C V policy w
      → IsSettled rounds (retry C req (clients rounds) w)
  unfolding retry
  retry-IsSettled [] last w m ready L own = elim m [ ]
  retry-IsSettled (a ∷ rounds) last w m ready L own =
      elim (Bool-cases (all_ready policy (told a) peers)) [
        | inl h ↦ ready-IsSettled a rounds _ w L own h
        | inr h ↦
            let p = reconcile C (some (serve a)) req w in
            let fine = (reconcile_refines C (serve a) V a peers (U a) policy pref req w L own).0 in
            subst (IsSettled (a ∷ rounds))
              (sym (
                ap (λ r. settled C req (r, world p) (retry C req (clients rounds) (world p)))
                  (fine ∙ ap (λ b. ok (if b then done else requeue)) h)))
              (later-IsSettled a rounds _ (
                retry-IsSettled rounds last (world p) (later m h) ready (waiting-IsLive a w L own h)
                  (reconcile-MayWrite C (serve a) V a peers (U a) policy pref req w L own)))
      ]
    where
      later : Memᴰ last (a ∷ rounds) → all_ready policy (told a) peers ≡ false → Memᴰ last rounds
      later (Memᴰ.head e) h = absurd (cc (ready, h, ap (λ b. all_ready policy (told b) peers) e))
      later (Memᴰ.tail t) h = t
