-- ===== src/Tests/Copied.antt =====
-- Deep copies in a small heap, with metadata that points to its labels.
use cilion.Base.{◌==◌, if◌then◌else◌, ◌≡◌, refl, Bytes, codes, [], ◌∷◌, none, some, arith}
use cilion.Copies.{
  Metav1, ListStruct, PolicyStruct, PathStruct, PeerStruct, Pointer, Cell, text, octets, conditions,
  peers, paths, policies, foreign, Heap, Vendor, cell_into, peer_list_object, path_list_object,
  policy_list_object,
}
use cilion.Copies.Shape.{plain, plain-IsDeep}
use cilion.Copies.Cells.{cell, cell-IsDeep, IsVendor, Independent}
use cilion.Copies.Peers.{peers_shape, cluster_peer_list-Independent}
use cilion.Copies.Paths.{paths_shape, computed_path_list-Independent}
use cilion.Copies.Policies.{policies_shape, path_policy_list-Independent}
use cilion.Copies.Peers as Peers
use cilion.Copies.Paths as Paths
use cilion.Copies.Policies as Policies

abbrev metav1 : Metav1
metav1 = record {
  TypeMeta = Bytes;
  ObjectMeta = Pointer;
  ListMeta = Bytes;
  LabelSelector = Pointer;
  Condition = Bytes;
  Pointee = Bytes;
}

abbrev labels_of : Cell metav1 → Bytes
labels_of (foreign b) = b
labels_of c = []

abbrev vendor : Vendor metav1
vendor = record {
  object_meta_into = cell_into foreign labels_of;
  list_meta_into = λ x h. (x, h);
  label_selector_into = cell_into foreign labels_of;
  condition_into = λ x h. (x, h);
}

abbrev vendor-IsVendor : IsVendor vendor
vendor-IsVendor = record {
  object_meta = cell labels_of;
  list_meta = plain Bytes;
  label_selector = cell labels_of;
  condition = plain Bytes;
  object_meta_deep = cell-IsDeep labels_of foreign (λ v. refl);
  list_meta_deep = plain-IsDeep Bytes;
  label_selector_deep = cell-IsDeep labels_of foreign (λ v. refl);
  condition_deep = plain-IsDeep Bytes;
}

abbrev gold : PolicyStruct metav1
gold = record {
  type_meta = [];
  object_meta = some 1;
  spec = record { pod_selector = some 2; preference = some 3 };
  status = record { conditions = some 4 };
}

abbrev gold_to_west : PathStruct metav1
gold_to_west = record {
  type_meta = [];
  object_meta = some 1;
  spec = record {
    policy_ref = codes "gold";
    destination_cidr = codes "10.1.0.0/16";
    next_hop_ip = codes "192.0.2.1";
    hop_fields = some 6;
  };
  status = record { conditions = none };
}

abbrev west : PeerStruct metav1
west = record {
  type_meta = [];
  object_meta = some 1;
  spec = record { remote_as = codes "1-ff00:0:110"; pod_cidr = codes "10.1.0.0/16" };
  status = record { conditions = some 4 };
}

-- An array of objects at address 0, and behind it what they point to.
abbrev holding : Cell metav1 → Heap metav1
holding items = record {
  next = 7;
  cells = λ a.
      if a == 0
      then items
      else if a == 3
      then text (codes "low-latency")
      else if a == 4
      then conditions (codes "Active" ∷ [])
      else if a == 6
      then octets (codes "hops")
      else foreign (codes "app=web");
}

abbrev list_at_0 : ListStruct metav1
list_at_0 = record { type_meta = []; list_meta = codes "17"; items = some 0 }

path_policy_list-Independent_example :
    (c : ListStruct metav1) × (h' : Heap metav1) × (Policies.deep_copy_list_object vendor
        (some list_at_0)
        (holding (policies (gold ∷ [])))
      ≡ (some (policy_list_object c), h'))
    × Independent
        (policies_shape vendor vendor-IsVendor)
        list_at_0
        (holding (policies (gold ∷ [])))
        (c, h')
path_policy_list-Independent_example =
    path_policy_list-Independent vendor vendor-IsVendor list_at_0 (holding (policies (gold ∷ []))) (
      (tt, tt),
      (
        omega arith,
        (((tt, omega arith), ((omega arith, omega arith), (omega arith, (tt, tt)))), tt),
      ),
    )

paths_apart :
    (c : ListStruct metav1) × (h' : Heap metav1) × (Paths.deep_copy_list_object vendor
        (some list_at_0)
        (holding (paths (gold_to_west ∷ [])))
      ≡ (some (path_list_object c), h'))
    × Independent
        (paths_shape vendor vendor-IsVendor)
        list_at_0
        (holding (paths (gold_to_west ∷ [])))
        (c, h')
paths_apart =
    computed_path_list-Independent vendor vendor-IsVendor list_at_0
      (holding (paths (gold_to_west ∷ [])))
      ((tt, tt), (omega arith, (((tt, omega arith), ((tt, omega arith), tt)), tt)))

peers_apart :
    (c : ListStruct metav1) × (h' : Heap metav1) × (Peers.deep_copy_list_object vendor
        (some list_at_0)
        (holding (peers (west ∷ [])))
      ≡ (some (peer_list_object c), h'))
    × Independent
        (peers_shape vendor vendor-IsVendor)
        list_at_0
        (holding (peers (west ∷ [])))
        (c, h')
peers_apart =
    cluster_peer_list-Independent vendor vendor-IsVendor list_at_0 (holding (peers (west ∷ [])))
      ((tt, tt), (omega arith, (((tt, omega arith), (tt, (omega arith, (tt, tt)))), tt)))
