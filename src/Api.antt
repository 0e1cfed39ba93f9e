-- ===== src/Api.antt =====
-- The v1alpha1 API (api/v1alpha1): the three custom resources with the fields of their schemas
-- that the program reads or writes. Strings are byte lists; of the object metadata the fields in
-- use are kept, of a condition those that the code sets. What the Kubernetes packages define (the
-- metadata, selectors, conditions) has the shape of the schemas under config/crd/bases.
use cilion.Base.{
  ℕ, Bytes, List, [], Option, none, str_eq, str_eq-eq, str_eq_refl, ◌≡◌, ◌≢◌, Bool, true, false,
  ◌&&◌, arith,
}

pub record NamespacedName : Type 0 where
  pub namespace : Bytes
  pub name : Bytes

pub record ObjectMeta : Type 0 where
  pub name : Bytes
  pub namespace : Bytes
  pub generation : ℕ
  pub deletion_timestamp : Option ℕ
  pub finalizers : List Bytes
  -- The controlling owner, by name.
  pub controller_owner : Option Bytes

pub record Condition : Type 0 where
  pub kind : Bytes
  pub status : Bytes
  pub reason : Bytes
  pub message : Bytes
  pub observed_generation : ℕ

pub record LabelSelectorRequirement : Type 0 where
  pub key : Bytes
  pub operator : Bytes
  pub values : List Bytes

pub record LabelSelector : Type 0 where
  pub match_labels : List (Bytes × Bytes)
  pub match_expressions : List LabelSelectorRequirement

pub record ScionPathPolicySpec : Type 0 where
  pub pod_selector : LabelSelector
  pub preference : Option Bytes

pub record ScionPathPolicyStatus : Type 0 where
  pub conditions : List Condition

pub record ScionPathPolicy : Type 0 where
  pub meta : ObjectMeta
  pub spec : ScionPathPolicySpec
  pub status : ScionPathPolicyStatus

pub record ScionClusterPeerSpec : Type 0 where
  pub remote_as : Bytes
  pub pod_cidr : Bytes

pub record ScionClusterPeerStatus : Type 0 where
  pub conditions : List Condition

pub record ScionClusterPeer : Type 0 where
  pub meta : ObjectMeta
  pub spec : ScionClusterPeerSpec
  pub status : ScionClusterPeerStatus

pub record ScionComputedPathSpec : Type 0 where
  pub policy_ref : Bytes
  pub destination_cidr : Bytes
  pub next_hop_ip : Bytes
  pub hop_fields : Bytes

pub record ScionComputedPathStatus : Type 0 where
  pub conditions : List Condition

pub record ScionComputedPath : Type 0 where
  pub meta : ObjectMeta
  pub spec : ScionComputedPathSpec
  pub status : ScionComputedPathStatus

-- The metadata of an object literal that gives a name and a namespace, zero elsewhere.
abbrev pub object_meta : Bytes → Bytes → ObjectMeta
object_meta name namespace = record {
  name = name;
  namespace = namespace;
  generation = 0;
  deletion_timestamp = none;
  finalizers = [];
  controller_owner = none;
}

-- `client.ObjectKeyFromObject`.
abbrev pub key_of : ObjectMeta → NamespacedName
key_of m = record { namespace = m.namespace; name = m.name }

unfoldable pub key_eq : NamespacedName → NamespacedName → Bool
key_eq a b = str_eq a.namespace b.namespace && str_eq a.name b.name

pub key_eq-eq : (a b : NamespacedName) → key_eq a b ≡ true → a ≡ b
unfolding key_eq
key_eq-eq a b h = ground (arith, str_eq-eq a.namespace b.namespace, str_eq-eq a.name b.name)

pub key_eq_refl : (a : NamespacedName) → key_eq a a ≡ true
unfolding key_eq
key_eq_refl a = ground (arith, str_eq_refl a.namespace, str_eq_refl a.name)

pub key_eq-ne : (a b : NamespacedName) → key_eq a b ≡ false → a ≢ b
key_eq-ne a b h e = cc (key_eq_refl b)
