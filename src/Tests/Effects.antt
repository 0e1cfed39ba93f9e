-- ===== src/Tests/Effects.antt =====
-- What a reconcile leaves behind: owners, stale paths and the status.
use mathlib.Core.List.{Memᴰ}
use cilion.Base.{
  ◌≡◌, ◌≢◌, ◌⊎◌, ◌∙◌, refl, ap, Bytes, codes, Option, some, Bool, true, false, str_eq,
}
use cilion.Effect.{world}
use cilion.Api.{NamespacedName, ScionPathPolicy, ScionClusterPeer, key_of, key_eq}
use cilion.Reconcile.{reconcile}
use cilion.Reconcile.Names.{path_key}
use cilion.Reconcile.Peer.{spec_of, owner_of}
use cilion.Reconcile.Loop.{all_ready}
use cilion.Reconcile.Keeps.{IsKept}
use cilion.Reconcile.Ownership.{reconcile-Controls, reconcile_stale}
use cilion.Reconcile.Status.{condition_of, IsConditions, IsActive, reconcile_status}
use cilion.Tests.Store.{view, store-IsUp, store-IsStatusStoring}
use cilion.Tests.Reconciles.{
  policy, peers, peer, west, cluster, client, answers, request, start, start-IsLive, nothing_owned,
  told,
}
use cilion.Tests.Rounds.{write_keeps}

reconcile-Controls_example :
    owner_of (view (world (reconcile cluster (some client) request start)) (path_key policy west))
    ≡ some (codes "gold")
unfolding str_eq
reconcile-Controls_example =
    reconcile-Controls cluster client view answers peers (store-IsUp peers answers) policy
      (codes "low-latency") request start start-IsLive (nothing_owned policy) west (Memᴰ.head refl)
      refl

-- A peer that is not listed.
abbrev north : ScionClusterPeer
north = peer (codes "north") (codes "1-ff00:0:110")

abbrev is_north : Bytes → Bool
is_north name = str_eq name (codes "north")

differ : true ≢ false
differ h = cc h

unlisted :
    (q : ScionClusterPeer)
    → Memᴰ q peers
    → (answers q.spec.remote_as (codes "low-latency")).is_ready ≡ true
    → codes "north" ≢ q.meta.name
unfolding str_eq
unlisted q (Memᴰ.head e) ready same =
    differ (ap is_north same ∙ ap (λ (p : ScionClusterPeer). is_north p.meta.name) e)
unlisted q (Memᴰ.tail (Memᴰ.head e)) ready same =
    differ (ap is_north same ∙ ap (λ (p : ScionClusterPeer). is_north p.meta.name) e)
unlisted q (Memᴰ.tail (Memᴰ.tail t)) ready same = elim t [ ]

reconcile_stale_example :
    spec_of (view (world (reconcile cluster (some client) request start)) (path_key policy north))
    ≡ spec_of (view start (path_key policy north))
reconcile_stale_example =
    reconcile_stale cluster client view answers peers (store-IsUp peers answers) policy
      (codes "low-latency") request start start-IsLive (nothing_owned policy) north unlisted

kept : IsKept cluster client (λ w. w.policies (key_of policy.meta) ≡ some policy)
kept = record {
  get_keeps = λ n w h. h;
  list_keeps = λ w h. h;
  fetch_keeps = λ destination preference w h. h;
  create_keeps = λ obj f w h.
      ap (λ (m : NamespacedName → Option ScionPathPolicy). m (key_of policy.meta))
        (write_keeps w (key_of obj.meta) _)
      ∙ h;
}

set-IsConditions : IsConditions cluster
unfolding condition_of
set-IsConditions l c kind = refl

reconcile_status_example :
    let o = (world (reconcile cluster (some client) request start)).policies request in
    ((all_ready policy told peers ≡ true)
      × IsActive cluster client view
          (λ w. w.policies)
          (store-IsStatusStoring peers)
          answers
          peers
          (store-IsUp peers answers)
          policy
          (codes "low-latency")
          o)
    ⊎ ((all_ready policy told peers ≡ false) × (o ≡ some policy))
unfolding key_eq str_eq
reconcile_status_example =
    reconcile_status cluster client view (λ w. w.policies) (store-IsStatusStoring peers) answers
      peers (store-IsUp peers answers) policy (codes "low-latency") request start set-IsConditions
      start-IsLive (nothing_owned policy) kept refl
