-- ===== src/Tests/Reconciles.antt =====
-- The reconciler at work on a policy with two peers.
use mathlib.Core.List.{Memᴰ}
use cilion.Base.{
  ◌≡◌, ◌≢◌, refl, ◌∙◌, ap, Bytes, codes, List, [], ◌∷◌, Option, none, some, true, false, str_eq,
  if◌then◌else◌, ◌⊎◌,
}
use cilion.Effect.{errno, ok, err, panic, nil_dereference, ok-injective, world, answer, map_result}
use cilion.Api.{NamespacedName, ScionPathPolicy, ScionClusterPeer, object_meta, key_of, key_eq}
use cilion.Cluster.{Cluster, ScionClient, FetchedPath}
use cilion.Reconcile.{
  cilion_finalizer, computed_path_name, reconcile_peers, reconcile, reconcile_policy,
  reconcile_peer, publish_path, mutate, finish, new_computed_path, is_deleted, compute_paths, done,
  requeue,
}
use cilion.Reconcile.Names.{path_key}
use cilion.Reconcile.Frame.{reconcile_frame}
use cilion.Reconcile.Peer.{path_to, spec_of, MayWrite}
use cilion.Reconcile.Loop.{or_else, planned, all_ready}
use cilion.Reconcile.Outcome.{IsLive, reconcile_refines}
use cilion.Reconcile.Faults.{fetch_error_stops, no_client_panics, no_preference_panics}
use cilion.Reconcile.Lifecycle.{Settled, deletion_settles}
use cilion.Reconcile.Destinations.{DistinctNames, destination_stored}
use cilion.Tests.Store.{
  Store, view, store_cluster, serving, store-IsFramed, store-IsUp, store-IsStoring,
}

abbrev pub named_policy : List Bytes → Option Bytes → ScionPathPolicy
named_policy finalizers preference = record {
  meta = record (object_meta (codes "gold") (codes "shop")) { finalizers = finalizers };
  spec = record {
    pod_selector = record { match_labels = []; match_expressions = [] };
    preference = preference;
  };
  status = record { conditions = [] };
}

abbrev pub policy : ScionPathPolicy
policy = named_policy (cilion_finalizer ∷ []) (some (codes "low-latency"))

-- A policy that was just created.
abbrev pub fresh_policy : ScionPathPolicy
fresh_policy = named_policy [] (some (codes "low-latency"))

abbrev no_preference : ScionPathPolicy
no_preference = named_policy (cilion_finalizer ∷ []) none

abbrev deleted_policy : ScionPathPolicy
deleted_policy = record policy { meta = record policy.meta { deletion_timestamp = some 7 } }

abbrev pub peer : Bytes → Bytes → ScionClusterPeer
peer name remote_as = record {
  meta = object_meta name [];
  spec = record { remote_as = remote_as; pod_cidr = codes "10.1.0.0/16" };
  status = record { conditions = [] };
}

abbrev pub west : ScionClusterPeer
west = peer (codes "west") (codes "1-ff00:0:110")

abbrev pub east : ScionClusterPeer
east = peer (codes "east") (codes "2-ff00:0:210")

abbrev pub peers : List ScionClusterPeer
peers = west ∷ east ∷ []

-- The control service has a path to the first AS, and is still looking for one to the others.
abbrev pub answers : Bytes → Bytes → FetchedPath
answers destination preference = record {
  is_ready = str_eq destination (codes "1-ff00:0:110");
  raw_hop_fields = codes "hops";
  next_hop_ip = codes "192.0.2.1";
}

abbrev pub cluster : Cluster
cluster = store_cluster peers

abbrev pub client : ScionClient Store
client = serving answers

abbrev failing : ScionClient Store
failing = record {
  fetch_path = λ destination preference w. (
    if str_eq destination (codes "1-ff00:0:110")
        then ok (answers destination preference)
        else err (errno 111),
    w,
  );
}

abbrev pub holding : ScionPathPolicy → Store
holding p = record {
  policies = λ k. if key_eq k (key_of p.meta) then some p else none;
  paths = λ k. none;
}

abbrev pub request : NamespacedName
request = key_of policy.meta

abbrev pub start : Store
start = holding policy

pub nothing_owned : (p : ScionPathPolicy) → MayWrite cluster view p start
nothing_owned p q c h = cc

pub start-IsLive : IsLive cluster request policy (codes "low-latency") start
unfolding key_eq is_deleted str_eq
start-IsLive = record { found = refl; live = refl; kept = refl; given = refl }

abbrev elsewhere : NamespacedName
elsewhere = record { namespace = codes "other"; name = codes "gold-to-west" }

elsewhere_other :
    (r : ScionPathPolicy)
    → answer (cluster.get_policy request start) ≡ ok r
    → (s : ScionClusterPeer) → elsewhere ≢ path_key r s
unfolding key_eq str_eq
elsewhere_other r found s e =
    let same : codes "shop" ≡ r.meta.namespace =
      ap (λ (p : ScionPathPolicy). p.meta.namespace) (ok-injective policy r found) in
    let place : codes "other" ≡ r.meta.namespace = ap (λ (k : NamespacedName). k.namespace) e in
    absurd (cc)

reconcile_frame_example :
    view (world (reconcile cluster (some client) request start)) elsewhere ≡ view start elsewhere
reconcile_frame_example =
    reconcile_frame cluster client view (store-IsFramed peers answers) request elsewhere start
      elsewhere_other

abbrev pub told : ScionClusterPeer → FetchedPath
told p = answers p.spec.remote_as (codes "low-latency")

reconcile_refines_example :
    (answer (reconcile cluster (some client) request start)
      ≡ ok (if all_ready policy told peers then done else requeue))
    × ((k : NamespacedName)
        → spec_of (view (world (reconcile cluster (some client) request start)) k)
          ≡ or_else (planned policy told peers k) (spec_of (view start k)))
reconcile_refines_example =
    reconcile_refines cluster client view answers peers (store-IsUp peers answers) policy
      (codes "low-latency") request start start-IsLive (nothing_owned policy)

pub distinct : DistinctNames peers
unfolding str_eq
distinct =
    (λ q m. elim m [ Memᴰ.head e ↦ apart q e | Memᴰ.tail t ↦ elim t [ ] ], (λ q m. elim m [ ], tt))
  where
    apart : (q : ScionClusterPeer) → q ≡ east → codes "west" ≢ q.meta.name
    apart q e h =
        let same : q.meta.name ≡ codes "east" = ap (λ (p : ScionClusterPeer). p.meta.name) e in
        let equal : false ≡ true = ap (λ l. str_eq l (codes "east")) (h ∙ same) in absurd (cc equal)

destination_stored_example :
    spec_of (view (world (reconcile cluster (some client) request start)) (path_key policy west))
    ≡ some (path_to policy west (told west))
unfolding str_eq
destination_stored_example =
    destination_stored cluster client view answers peers (store-IsUp peers answers) policy
      (codes "low-latency") request start start-IsLive (nothing_owned policy) west (Memᴰ.head refl)
      distinct refl

later-IsLive :
    IsLive cluster request policy
      (codes "low-latency")
      (world (reconcile cluster (some client) request start))
unfolding key_eq is_deleted str_eq reconcile reconcile_policy compute_paths reconcile_peers
    reconcile_peer publish_path mutate finish new_computed_path computed_path_name
later-IsLive = record { found = refl; live = refl; kept = refl; given = refl }

fetch_error_stops_example :
    reconcile_peers cluster (some failing) policy (west ∷ east ∷ []) true start ≡ (
      err (errno 111),
      world (
          failing.fetch_path east.spec.remote_as
            (codes "low-latency")
            (world (reconcile_peers cluster (some failing) policy (west ∷ []) true start))),
    )
unfolding key_eq str_eq reconcile_peers reconcile_peer publish_path mutate new_computed_path
    computed_path_name
fetch_error_stops_example =
    fetch_error_stops cluster failing policy (codes "low-latency") (west ∷ []) [] east true true
      start (errno 111) refl refl refl

no_client_panics_example : answer (reconcile cluster none request start) ≡ panic nil_dereference
unfolding key_eq str_eq is_deleted
no_client_panics_example =
    no_client_panics cluster request policy west (east ∷ []) start refl refl refl refl

no_preference_panics_example :
    answer (reconcile cluster (some client) request (holding no_preference)) ≡ panic nil_dereference
unfolding key_eq str_eq is_deleted
no_preference_panics_example =
    no_preference_panics cluster request no_preference west (east ∷ []) (holding no_preference)
      (some client) refl refl refl refl refl

deletion_settles_example :
    let q =
      cluster.update_policy
        (cluster.remove_finalizer deleted_policy cilion_finalizer)
        (holding deleted_policy) in
    let r = reconcile cluster (some client) request (holding deleted_policy) in
    (r ≡ (
      if cluster.contains_finalizer deleted_policy cilion_finalizer
      then (map_result (λ _. done) (answer q), world q)
      else (ok done, holding deleted_policy)))
    × (((answer r ≡ ok done)
          × Settled cluster
              (some client)
              (λ w. w.policies)
              (store-IsStoring peers)
              request
              (world r))
        ⊎ (answer q ≢ ok tt))
unfolding key_eq str_eq is_deleted
deletion_settles_example =
    deletion_settles cluster (some client) (λ w. w.policies) (store-IsStoring peers)
      (holding deleted_policy) deleted_policy refl refl
