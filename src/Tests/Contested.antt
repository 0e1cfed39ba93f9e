-- ===== src/Tests/Contested.antt =====
-- The policies `gold`, with a path to a peer `b-to-west`, and `gold-to-b`, before a peer `west`.
use cilion.Base.{
  ◌≡◌, ◌≢◌, refl, ◌∙◌, ap, Bytes, codes, str_eq, str_eq-eq, [], ◌∷◌, none, some, Bool-cases, inl,
  inr, if◌then◌else◌,
}
use cilion.Effect.{Error, errorf, err, world, answer}
use cilion.Api.{NamespacedName, ScionPathPolicy, ScionComputedPath, object_meta, key_of, key_eq}
use cilion.Reconcile.{is_deleted, reconcile}
use cilion.Reconcile.Contention.{IsRefusing, reconcile-contends}
use cilion.Reconcile.Outcome.{IsLive}
use cilion.Tests.Store.{Store, view, own, write, store-IsUp}
use cilion.Tests.Reconciles.{policy, peers, west, east, cluster, client, answers}

abbrev second : ScionPathPolicy
second = record policy { meta = record policy.meta { name = codes "gold-to-b" } }

abbrev first_path : ScionComputedPath
first_path = record {
  meta = record (object_meta (codes "gold-to-b-to-west") (codes "shop")) {
    controller_owner = some (codes "gold");
  };
  spec = record {
    policy_ref = codes "gold";
    destination_cidr = [];
    next_hop_ip = [];
    hop_fields = [];
  };
  status = record { conditions = [] };
}

abbrev contested : Store
contested = record {
  policies = λ k. if key_eq k (key_of second.meta) then some second else none;
  paths = λ k. if key_eq k (key_of first_path.meta) then some first_path else none;
}

own-refused :
    (owner o : Bytes) (c : ScionComputedPath)
    → o ≢ owner
    → own owner c (some o) ≡ err (errorf (codes "already owned") [])
own-refused owner o c other = elim (Bool-cases (str_eq o owner)) [
  | inl same ↦ absurd (other (str_eq-eq o owner same))
  | inr e ↦ rw e refl
]

store-IsRefusing : IsRefusing cluster view
store-IsRefusing = record {
  refuses = λ p c owner owned other. (
    errorf (codes "already owned") [],
    ap (own p.meta.name c) owned ∙ own-refused p.meta.name owner c other,
  );
  callback_fails = λ w obj f e failed. (
    ap (λ r. answer (write w (key_of obj.meta) r)) failed,
    λ k. ap (λ r. view (world (write w (key_of obj.meta) r)) k) failed,
  );
}

second-IsLive : IsLive cluster (key_of second.meta) second (codes "low-latency") contested
unfolding key_eq is_deleted str_eq
second-IsLive = record { found = refl; live = refl; kept = refl; given = refl }

reconcile-contends_example :
    (e : Error) × (answer (reconcile cluster (some client) (key_of second.meta) contested) ≡ err e)
    × ((k : NamespacedName)
        → view (world (reconcile cluster (some client) (key_of second.meta) contested)) k
          ≡ view contested k)
unfolding key_eq str_eq
reconcile-contends_example =
    reconcile-contends cluster client view store-IsRefusing answers west (east ∷ [])
      (store-IsUp peers answers) second (codes "low-latency") (codes "gold") (codes "b") first_path
      (key_of second.meta) contested second-IsLive refl refl refl refl
