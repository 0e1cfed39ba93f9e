-- ===== src/Copies/Peers.antt =====
-- The deep copies of the cluster peers (zz_generated.deepcopy.go).
use cilion.Base.{◌≡◌, refl, Option, some}
use cilion.Copies.{
  Metav1, PeerStruct, PeerSpecStruct, StatusStruct, ListStruct, peers, peers_of, Heap, Copy, nil_or,
  conditions_into, fields_into, items_into, RuntimeObject, peer_object, peer_list_object, as_object,
  Vendor,
}
use cilion.Copies.Objects.{object_shape, list_shape, conditions-IsDeep, fields-IsDeep, items-IsDeep}
use cilion.Copies.Shape.{Shape, Old, IsDeep, plain, plain-IsDeep}
use cilion.Copies.Cells.{IsVendor, Independent, deep-Independent}

module _ {M : Metav1} (D : Vendor M) where
  unfoldable pub spec_into : Copy M PeerSpecStruct
  spec_into spec h = (spec, h)

  unfoldable pub status_into : Copy M StatusStruct
  status_into = conditions_into D

  unfoldable pub object_into : Copy M (PeerStruct M)
  object_into = fields_into D spec_into status_into

  unfoldable pub list_into : Copy M (ListStruct M)
  list_into = items_into D object_into peers peers_of

  unfoldable pub deep_copy_spec : Copy M (Option PeerSpecStruct)
  deep_copy_spec = nil_or spec_into

  unfoldable pub deep_copy_status : Copy M (Option StatusStruct)
  deep_copy_status = nil_or status_into

  unfoldable pub deep_copy : Copy M (Option (PeerStruct M))
  deep_copy = nil_or object_into

  unfoldable pub deep_copy_list : Copy M (Option (ListStruct M))
  deep_copy_list = nil_or list_into

  unfoldable pub deep_copy_object :
      Option (PeerStruct M) → Heap M → Option (RuntimeObject M) × Heap M
  deep_copy_object p h = as_object peer_object (deep_copy p h)

  unfoldable pub deep_copy_list_object :
      Option (ListStruct M) → Heap M → Option (RuntimeObject M) × Heap M
  deep_copy_list_object l h = as_object peer_list_object (deep_copy_list l h)

module _ {M : Metav1} (D : Vendor M) (V : IsVendor D) where
  abbrev pub spec_shape : Shape M PeerSpecStruct
  spec_shape = plain PeerSpecStruct

  spec-IsDeep : IsDeep spec_shape (spec_into D)
  unfolding spec_into
  spec-IsDeep = plain-IsDeep PeerSpecStruct

  -- What a list of cluster peers is worth.
  abbrev pub peers_shape : Shape M (ListStruct M)
  peers_shape = list_shape D V (object_shape D V spec_shape) peers peers_of

  -- If the copies that metav1 makes are deep: `DeepCopyObject` of a list of cluster peers whose
  -- pointers are all in use gives a list that is worth the same, and neither list sees what is
  -- later written through the other.
  pub cluster_peer_list-Independent :
      (l : ListStruct M) (h : Heap M)
      → peers_shape.Within (Old h) l h
      → (c : ListStruct M) × (h' : Heap M) × (deep_copy_list_object D (some l) h
          ≡ (some (peer_list_object c), h'))
        × Independent peers_shape l h (c, h')
  unfolding deep_copy_list_object deep_copy_list nil_or list_into object_into status_into
  cluster_peer_list-Independent l h w = (
    (list_into D l h).0,
    (list_into D l h).1,
    refl,
    deep-Independent peers_shape (list_into D)
        (items-IsDeep D V (object_shape D V spec_shape) peers peers_of (object_into D) (λ m. refl)
          (fields-IsDeep D V spec_shape (spec_into D) (status_into D) spec-IsDeep
            (conditions-IsDeep D V)))
        l h w,
  )
