-- ===== src/Watch/Assigned.antt =====
-- The pod predicate over the life of a pod: how often it lets an event through.
use cilion.Base.{ℕ, ◌+◌, ◌≡◌, List, [], ◌∷◌, true, if◌then◌else◌, arith}
use cilion.Watch.{Pod, pod, has_ip, update_func, create_func}

-- The events that pass for a pod that was `p` and is updated to each of `later` in turn.
wakes_from : Pod → List Pod → ℕ
wakes_from p [] = 0
wakes_from p (q ∷ later) = (if update_func (pod p) (pod q) then 1 else 0) + wakes_from q later

-- The events that pass for a pod that is created as `p` and updated to each of `later` in turn.
pub wakes : Pod → List Pod → ℕ
unfolding wakes_from
wakes p later = (if create_func (pod p) then 1 else 0) + wakes_from p later

-- Once a pod has its address, it keeps one.
abbrev pub KeepsIp : Pod → List Pod → Type 0
KeepsIp p [] = Unit
KeepsIp p (q ∷ later) = (has_ip p ≡ true → has_ip q ≡ true) × KeepsIp q later

abbrev pub last_pod : Pod → List Pod → Pod
last_pod p [] = p
last_pod p (q ∷ later) = last_pod q later

wakes_from_lem :
    (p : Pod) (later : List Pod)
    → KeepsIp p later
    → (if has_ip p then 1 else 0) + wakes_from p later
      ≡ (if has_ip (last_pod p later) then 1 else 0)
unfolding wakes_from update_func
wakes_from_lem p [] h = omega arith
wakes_from_lem p (q ∷ later) (k, h) = ground (arith, wakes_from_lem q later h)

-- A pod that keeps its address once it has one passes the predicate exactly once, over its creation
-- and its updates, if it has an address in the end, and never if it has none.
pub wakes_once :
    (p : Pod) (later : List Pod)
    → KeepsIp p later
    → wakes p later ≡ (if has_ip (last_pod p later) then 1 else 0)
unfolding wakes create_func
wakes_once p later h = wakes_from_lem p later h
