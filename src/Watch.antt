-- ===== src/Watch.antt =====
-- The event watches of internal/controller/scionpathpolicy_controller.go (`SetupWithManager`): when
-- a pod event wakes the controller, and which policies a pod or a peer event enqueues.
pub mod Assigned
pub mod Requests
pub mod Setup
use cilion.Base.{
  Bytes, codes, str_eq, List, [], ◌∷◌, ◌++◌, map, Option, none, some, Bool, true, false, not, ◌&&◌,
  if◌then◌else◌,
}
use cilion.Effect.{Result, ok, err, panic, exit}
use cilion.Api.{NamespacedName, LabelSelector, ScionPathPolicy, key_of}

pub record Pod : Type 0 where
  pub name : Bytes
  pub namespace : Bytes
  pub labels : List (Bytes × Bytes)
  pub pod_ip : Bytes

-- A watched object, as far as the type assertions `.(*corev1.Pod)` tell.
pub data Object : Type 0 where
  pod : Pod → Object
  other : Object

-- `PodIP != ""`
abbrev pub has_ip : Pod → Bool
has_ip p = not (str_eq p.pod_ip [])

-- The two functions of `podIPAssignedPredicate`.
unfoldable pub update_func : Object → Object → Bool
update_func (pod old) (pod new) = str_eq old.pod_ip [] && has_ip new
update_func (pod old) other = false
update_func other (pod new) = false
update_func other other = false

unfoldable pub create_func : Object → Bool
create_func (pod p) = has_ip p
create_func other = false

-- The policy for pods that no policy selects.
abbrev pub default_policy : NamespacedName
default_policy = record { namespace = codes "kube-system"; name = codes "default-scion-policy" }

-- `metav1.LabelSelectorAsSelector` and `Selector.Matches` (apimachinery): a selector that the
-- library refuses has no matching function.
pub record Selectors : Type 0 where
  pub as_selector : LabelSelector → Option (List (Bytes × Bytes) → Bool)

-- The items of a list after `List`, whose error the caller drops: none if the call failed.
abbrev pub items {ℓ} : {A : Type ℓ} → Result (List A) → List A
items (ok l) = l
items (err e) = []
items (panic p) = []
items (exit n) = []

module _ (S : Selectors) where
  abbrev pub verdict : Option (List (Bytes × Bytes) → Bool) → List (Bytes × Bytes) → Bool
  verdict none labels = false
  verdict (some selector) labels = selector labels

  -- Whether the loop takes a policy: a selector that cannot be converted is passed over.
  abbrev pub selects : ScionPathPolicy → Pod → Bool
  selects p obj = verdict (S.as_selector p.spec.pod_selector) obj.labels

  -- The loop of `podToPolicyMapper`, with `requests` and `hasSpecificPolicy`.
  pub match_policies :
      Pod → List ScionPathPolicy → List NamespacedName → Bool → List NamespacedName × Bool
  match_policies obj [] requests has_specific_policy = (requests, has_specific_policy)
  match_policies obj (p ∷ policies) requests has_specific_policy =
      match_policies obj policies
        (if selects p obj then requests ++ (key_of p.meta ∷ []) else requests)
        (if selects p obj then true else has_specific_policy)

  -- `podToPolicyMapper`: `list` is the answer of the client for the pod's namespace.
  unfoldable pub pod_to_policy :
      (Bytes → Result (List ScionPathPolicy)) → Object → List NamespacedName
  unfolding match_policies
  pod_to_policy list other = []
  pod_to_policy list (pod obj) =
      let (requests, has_specific_policy) =
        match_policies obj (items (list obj.namespace)) [] false in
      if not has_specific_policy then requests ++ (default_policy ∷ []) else requests

-- The mapper of the peer watch: `requests[i]` for each `i`, over a slice made of that length.
abbrev pub peer_requests : List ScionPathPolicy → List NamespacedName
peer_requests [] = []
peer_requests (p ∷ policies) = key_of p.meta ∷ peer_requests policies

unfoldable pub peer_to_policies : Result (List ScionPathPolicy) → List NamespacedName
peer_to_policies (ok policies) = peer_requests policies
peer_to_policies (err e) = []
peer_to_policies (panic p) = []
peer_to_policies (exit n) = []
