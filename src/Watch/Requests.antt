-- ===== src/Watch/Requests.antt =====
-- Which policies a pod event and a peer event enqueue.
use cilion.Base.{
  ◌≡◌, refl, sym, ◌∙◌, ap, Bytes, List, [], ◌∷◌, ◌++◌, append_assoc, append-nil, Bool, true, false,
  not, ◌||◌, if◌then◌else◌, arith,
}
use cilion.Effect.{Result}
use cilion.Api.{NamespacedName, ScionPathPolicy, key_of}
use cilion.Watch.{
  Pod, pod, default_policy, Selectors, items, selects, match_policies, pod_to_policy,
}

abbrev pub names : List ScionPathPolicy → List NamespacedName
names [] = []
names (p ∷ policies) = key_of p.meta ∷ names policies

abbrev is_cons : List ScionPathPolicy → Bool
is_cons [] = false
is_cons (p ∷ policies) = true

abbrev pub or_default : List ScionPathPolicy → List NamespacedName
or_default [] = default_policy ∷ []
or_default (p ∷ policies) = names (p ∷ policies)

module _ (S : Selectors) (obj : Pod) where
  -- The policies that select the pod, in their order.
  unfoldable pub selected : List ScionPathPolicy → List ScionPathPolicy
  selected [] = []
  selected (p ∷ policies) = if selects S p obj then p ∷ selected policies else selected policies

  match_policies_lem :
      (policies : List ScionPathPolicy) (requests : List NamespacedName) (found : Bool)
      → match_policies S obj policies requests found
        ≡ (requests ++ names (selected policies), is_cons (selected policies) || found)
  unfolding match_policies selected
  match_policies_lem [] requests found =
      ap (λ (r : List NamespacedName). (r, found)) (sym (append-nil requests))
  match_policies_lem (p ∷ policies) requests found = ground (
    arith,
    append_assoc requests (key_of p.meta ∷ []) (names (selected policies)),
    match_policies_lem policies (requests ++ (key_of p.meta ∷ [])) true,
    match_policies_lem policies requests found,
  )

  finish :
      (l : List ScionPathPolicy)
      → (if not (is_cons l || false) then names l ++ (default_policy ∷ []) else names l)
        ≡ or_default l
  finish [] = refl
  finish (p ∷ l) = refl

  -- A pod event enqueues the listed policies of the pod's namespace that select the pod, in their
  -- order, and the default policy exactly if there is none; so too if the list call fails, which
  -- counts as an empty list.
  pub pod_to_policy_lem :
      (list : Bytes → Result (List ScionPathPolicy))
      → pod_to_policy S list (pod obj) ≡ or_default (selected (items (list obj.namespace)))
  unfolding pod_to_policy
  pod_to_policy_lem list =
      ap (λ (r : List NamespacedName × Bool). if not r.1 then r.0 ++ (default_policy ∷ []) else r.0)
        (match_policies_lem (items (list obj.namespace)) [] false)
      ∙ finish (selected (items (list obj.namespace)))
