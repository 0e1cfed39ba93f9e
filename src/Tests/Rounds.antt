-- ===== src/Tests/Rounds.antt =====
-- A request over several rounds, and two policies in both orders.
use mathlib.Core.List.{Memᴰ}
use cilion.Base.{
  ◌==◌, ◌≡◌, ◌≢◌, refl, ◌∙◌, if◌then◌else◌, ap, Bytes, codes, [], ◌∷◌, Option, none, some, Bool,
  true, false, str_eq,
}
use cilion.Effect.{errorf, Result, ok, err, panic, exit, world}
use cilion.Api.{NamespacedName, ScionPathPolicy, ScionComputedPath, key_of, key_eq}
use cilion.Reconcile.{
  computed_path_name, reconcile_peers, reconcile, reconcile_policy, reconcile_peer, publish_path,
  mutate, finish, new_computed_path, is_deleted, compute_paths,
}
use cilion.Reconcile.Names.{path_key}
use cilion.Reconcile.Peer.{spec_of, MayWrite}
use cilion.Reconcile.Loop.{all_ready}
use cilion.Reconcile.Retry.{Answers, KeepsPolicy, IsSettled, retry, retry-IsSettled}
use cilion.Reconcile.Order.{Party, reconciled, Apart, reconcile_commutes}
use cilion.Tests.Store.{Store, view, serving, write, set, get_found, store-IsUp}
use cilion.Tests.Reconciles.{
  policy, peers, west, cluster, distinct, request, start, start-IsLive, nothing_owned, answers,
  client,
}

-- A write of a computed path leaves the policies.
pub write_keeps :
    (w : Store) (k : NamespacedName) (r : Result ScionComputedPath)
    → (world (write w k r)).policies ≡ w.policies
write_keeps w k (ok c) = stored (key_eq (key_of c.meta) k)
  where
    stored :
        (b : Bool)
        → (world (
            if b
            then (ok tt, record w { paths = set w.paths k c })
            else (err (errorf (codes "mutate changed the key") []), w))).policies
          ≡ w.policies
    stored true = refl
    stored false = refl
write_keeps w k (err e) = refl
write_keeps w k (panic f) = refl
write_keeps w k (exit n) = refl

keeps : (a : Answers) → KeepsPolicy cluster request (serving a) policy
keeps a = record {
  get_keeps = λ n w h. h;
  list_keeps = λ w h. h;
  fetch_keeps = λ destination preference w h. h;
  create_keeps = λ obj f w h.
      ap (λ (m : NamespacedName → Option ScionPathPolicy). get_found (m request))
        (write_keeps w (key_of obj.meta) _)
      ∙ h;
}

-- In the second round the control service has found every path.
abbrev found : Answers
found destination preference = record {
  is_ready = true;
  raw_hop_fields = codes "more hops";
  next_hop_ip = codes "192.0.2.2";
}

retry-IsSettled_example :
    IsSettled cluster view peers serving
      (store-IsUp peers)
      request
      policy
      (codes "low-latency")
      keeps
      distinct
      (answers ∷ found ∷ [])
      (retry cluster request (serving answers ∷ serving found ∷ []) start)
unfolding all_ready
retry-IsSettled_example =
    retry-IsSettled cluster view peers serving (store-IsUp peers) request policy
      (codes "low-latency") keeps distinct (answers ∷ found ∷ []) found start
      (Memᴰ.tail (Memᴰ.head refl)) refl start-IsLive (nothing_owned policy)

-- A second policy in the same namespace.
abbrev silver : ScionPathPolicy
silver = record policy { meta = record policy.meta { name = codes "silver" } }

abbrev two : Store
two = record {
  policies = λ k.
      if key_eq k (key_of policy.meta)
      then some policy
      else if key_eq k (key_of silver.meta)
      then some silver
      else none;
  paths = λ k. none;
}

abbrev party : ScionPathPolicy → Party cluster view
party p = record {
  client = client;
  answers = answers;
  peers = peers;
  up = store-IsUp peers answers;
  req = key_of p.meta;
  policy = p;
  pref = codes "low-latency";
}

abbrev starts_with_g : Bytes → Bool
starts_with_g [] = false
starts_with_g (b ∷ l) = b == 103

differ : true ≢ false
differ h = cc h

apart : Apart cluster view (party policy) (party silver)
unfolding computed_path_name
apart q r e = differ (ap (λ (k : NamespacedName). starts_with_g k.name) e)

free : (p : ScionPathPolicy) → MayWrite cluster view p two
free p q c h = cc

reconcile_commutes_example :
    spec_of (
      view
        (reconciled cluster view (party silver) (reconciled cluster view (party policy) two))
        (path_key silver west))
    ≡ spec_of (
        view
          (reconciled cluster view (party policy) (reconciled cluster view (party silver) two))
          (path_key silver west))
unfolding key_eq is_deleted str_eq reconcile reconcile_policy compute_paths reconcile_peers
    reconcile_peer publish_path mutate finish new_computed_path computed_path_name
reconcile_commutes_example =
    reconcile_commutes cluster view (party policy) (party silver) two apart
      (record { found = refl; live = refl; kept = refl; given = refl })
      (record { found = refl; live = refl; kept = refl; given = refl })
      (record { found = refl; live = refl; kept = refl; given = refl })
      (record { found = refl; live = refl; kept = refl; given = refl }) (free policy) (free silver)
      (path_key silver west)
