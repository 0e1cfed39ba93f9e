-- ===== src/Tests/Watches.antt =====
-- The watches at concrete pods and policies.
use cilion.Base.{◌≡◌, refl, Bytes, codes, str_eq, [], ◌∷◌, some, true}
use cilion.Api.{ScionPathPolicy, object_meta}
use cilion.Watch.{Pod, Selectors}
use cilion.Watch.Assigned.{wakes, wakes_once}

abbrev pub web : Bytes → Pod
web ip = record { name = codes "web"; namespace = codes "shop"; labels = []; pod_ip = ip }

wakes_once_example :
    wakes (web []) (web [] ∷ web (codes "10.0.0.7") ∷ web (codes "10.0.0.7") ∷ []) ≡ 1
unfolding str_eq
wakes_once_example =
    wakes_once (web []) (web [] ∷ web (codes "10.0.0.7") ∷ web (codes "10.0.0.7") ∷ [])
      ((λ h. h), ((λ h. refl), ((λ h. h), tt)))

abbrev pub all_pods : Selectors
all_pods = record { as_selector = λ selector. some (λ labels. true) }

abbrev pub gold : ScionPathPolicy
gold = record {
  meta = object_meta (codes "gold") (codes "shop");
  spec = record {
    pod_selector = record { match_labels = []; match_expressions = [] };
    preference = some (codes "low-latency");
  };
  status = record { conditions = [] };
}
