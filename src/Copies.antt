-- ===== src/Copies.antt =====
-- api/v1alpha1/zz_generated.deepcopy.go in memory: the objects as structs with pointers, in a heap.
pub mod Shape
pub mod Slices
pub mod Cells
pub mod Objects
pub mod Peers
pub mod Paths
pub mod Policies
use cilion.Base.{ℕ, ◌+◌, Bytes, List, [], ◌∷◌, Option, none, some, Bool, ◌==◌, if◌then◌else◌}

-- The types of metav1 (k8s.io/apimachinery) that stand in the objects, and what they point to.
pub record Metav1 : Type 1 where
  pub TypeMeta : Type 0
  pub ObjectMeta : Type 0
  pub ListMeta : Type 0
  pub LabelSelector : Type 0
  pub Condition : Type 0
  pub Pointee : Type 0

-- A slice or a pointer is the address of what it points to, or nil.
abbrev pub Pointer : Type 0
Pointer = Option ℕ

pub record PeerSpecStruct : Type 0 where
  pub remote_as : Bytes
  pub pod_cidr : Bytes

pub record PathSpecStruct : Type 0 where
  pub policy_ref : Bytes
  pub destination_cidr : Bytes
  pub next_hop_ip : Bytes
  pub hop_fields : Pointer

-- The status structs of the three kinds, which are alike.
pub record StatusStruct : Type 0 where
  pub conditions : Pointer

module _ (M : Metav1) where
  pub record PolicySpecStruct : Type 0 where
    pub pod_selector : M.LabelSelector
    pub preference : Pointer

  -- The object structs of the three kinds are alike but for their specs.
  pub record ObjectStruct (Spec : Type 0) : Type 0 where
    pub type_meta : M.TypeMeta
    pub object_meta : M.ObjectMeta
    pub spec : Spec
    pub status : StatusStruct

  abbrev pub PeerStruct : Type 0
  PeerStruct = ObjectStruct PeerSpecStruct

  abbrev pub PathStruct : Type 0
  PathStruct = ObjectStruct PathSpecStruct

  abbrev pub PolicyStruct : Type 0
  PolicyStruct = ObjectStruct PolicySpecStruct

  -- A list of objects of one kind.
  pub record ListStruct : Type 0 where
    pub type_meta : M.TypeMeta
    pub list_meta : M.ListMeta
    pub items : Pointer

  -- What an address holds.
  pub data Cell : Type 0 where
    free : Cell
    text : Bytes → Cell
    octets : Bytes → Cell
    conditions : List M.Condition → Cell
    peers : List PeerStruct → Cell
    paths : List PathStruct → Cell
    policies : List PolicyStruct → Cell
    foreign : M.Pointee → Cell

  -- Addresses below `next` are in use.
  pub record Heap : Type 0 where
    pub next : ℕ
    pub cells : ℕ → Cell

-- A function that copies, and leaves the heap behind it.
abbrev pub Copy : Metav1 → Type 0 → Type 0
Copy M X = X → Heap M → X × Heap M

module _ {M : Metav1} where
  abbrev pub text_of : Cell M → Bytes
  text_of (text b) = b
  text_of c = []

  abbrev pub octets_of : Cell M → Bytes
  octets_of (octets b) = b
  octets_of c = []

  abbrev pub conditions_of : Cell M → List M.Condition
  conditions_of (conditions l) = l
  conditions_of c = []

  abbrev pub peers_of : Cell M → List (PeerStruct M)
  peers_of (peers l) = l
  peers_of c = []

  abbrev pub paths_of : Cell M → List (PathStruct M)
  paths_of (paths l) = l
  paths_of c = []

  abbrev pub policies_of : Cell M → List (PolicyStruct M)
  policies_of (policies l) = l
  policies_of c = []

  -- `new` and `make`, before anything is written behind the new address, which is the old `next`.
  abbrev pub reserve : Heap M → Heap M
  reserve h = record h { next = h.next + 1 }

  abbrev pub put : ℕ → Cell M → Heap M → Heap M
  put a c h = record h { cells = λ b. if b == a then c else h.cells b }

  -- `for i := range *in { (*in)[i].DeepCopyInto(&(*out)[i]) }`
  unfoldable pub each_into : {X : Type 0} → Copy M X → Copy M (List X)
  each_into f [] h = ([], h)
  each_into f (x ∷ l) h =
      let first = f x h in let rest = each_into f l first.1 in (first.0 ∷ rest.0, rest.1)

  -- `if in.F != nil { *out = make(…, len(*in)); for … }`: `wrap` and `opened` say which cells hold
  -- the elements.
  unfoldable pub slice_into :
      {X : Type 0} → Copy M X → (List X → Cell M) → (Cell M → List X) → Copy M Pointer
  slice_into f wrap opened none h = (none, h)
  slice_into f wrap opened (some a) h =
      let made = each_into f (opened (h.cells a)) (reserve h) in
      (some h.next, put h.next (wrap made.0) made.1)

  -- A pointer to one value, `*out = new(…); **out = **in`, and a slice that `copy` fills.
  unfoldable pub cell_into : {A : Type 0} → (A → Cell M) → (Cell M → A) → Copy M Pointer
  cell_into wrap opened none h = (none, h)
  cell_into wrap opened (some a) h =
      (some h.next, put h.next (wrap (opened (h.cells a))) (reserve h))

  -- `DeepCopy`: nil of nil, and else a new object that `DeepCopyInto` fills.
  unfoldable pub nil_or : {X : Type 0} → Copy M X → Copy M (Option X)
  nil_or f none h = (none, h)
  nil_or f (some x) h = let y = f x h in (some y.0, y.1)

-- The objects behind the interface `runtime.Object`; a nil interface is `none`.
pub data RuntimeObject (M : Metav1) : Type 0 where
  peer_object : PeerStruct M → RuntimeObject M
  peer_list_object : ListStruct M → RuntimeObject M
  path_object : PathStruct M → RuntimeObject M
  path_list_object : ListStruct M → RuntimeObject M
  policy_object : PolicyStruct M → RuntimeObject M
  policy_list_object : ListStruct M → RuntimeObject M

-- `DeepCopyObject`: a nil interface, not an interface around nil.
abbrev pub as_object :
    {M : Metav1} {X : Type 0}
    → (X → RuntimeObject M)
    → Option X × Heap M
    → Option (RuntimeObject M) × Heap M
as_object wrap (none, h) = (none, h)
as_object wrap (some x, h) = (some (wrap x), h)

-- The copies that metav1 makes of its own types (`DeepCopyInto`).
pub record Vendor (M : Metav1) : Type 0 where
  pub object_meta_into : Copy M M.ObjectMeta
  pub list_meta_into : Copy M M.ListMeta
  pub label_selector_into : Copy M M.LabelSelector
  pub condition_into : Copy M M.Condition

module _ {M : Metav1} (D : Vendor M) where
  -- `if in.Conditions != nil { … }` of a status.
  unfoldable pub conditions_into : Copy M StatusStruct
  conditions_into status h =
      let c = slice_into D.condition_into conditions conditions_of status.conditions h in
      (record status { conditions = c.0 }, c.1)

  -- `DeepCopyInto` of an object: its metadata, its spec, its status.
  unfoldable pub fields_into :
      {Spec : Type 0} → Copy M Spec → Copy M StatusStruct → Copy M (ObjectStruct M Spec)
  fields_into spec_into status_into p h =
      let m = D.object_meta_into p.object_meta h in
      let s = spec_into p.spec m.1 in
      let t = status_into p.status s.1 in
      (record p { object_meta = m.0; spec = s.0; status = t.0 }, t.1)

  -- That of a list of objects: its metadata, its items.
  unfoldable pub items_into :
      {X : Type 0} → Copy M X → (List X → Cell M) → (Cell M → List X) → Copy M (ListStruct M)
  items_into object_into wrap opened l h =
      let m = D.list_meta_into l.list_meta h in
      let i = slice_into object_into wrap opened l.items m.1 in
      (record l { list_meta = m.0; items = i.0 }, i.1)
