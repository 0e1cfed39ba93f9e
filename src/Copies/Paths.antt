-- ===== src/Copies/Paths.antt =====
-- The deep copies of the computed paths (zz_generated.deepcopy.go).
use cilion.Base.{◌≡◌, refl, Bytes, Option, some}
use cilion.Copies.{
  Metav1, PathStruct, PathSpecStruct, StatusStruct, ListStruct, paths, octets, paths_of, octets_of,
  Heap, Copy, cell_into, nil_or, conditions_into, fields_into, items_into, RuntimeObject,
  path_object, path_list_object, as_object, Vendor,
}
use cilion.Copies.Objects.{object_shape, list_shape, conditions-IsDeep, fields-IsDeep, items-IsDeep}
use cilion.Copies.Shape.{Shape, Old, IsDeep, plain, pair, via, pair-IsDeep, plain-IsDeep}
use cilion.Copies.Cells.{cell, cell-IsDeep, IsVendor, Independent, deep-Independent}

module _ {M : Metav1} (D : Vendor M) where
  unfoldable pub spec_into : Copy M PathSpecStruct
  spec_into spec h =
      let c = cell_into octets octets_of spec.hop_fields h in
      (record spec { hop_fields = c.0 }, c.1)

  unfoldable pub status_into : Copy M StatusStruct
  status_into = conditions_into D

  unfoldable pub object_into : Copy M (PathStruct M)
  object_into = fields_into D spec_into status_into

  unfoldable pub list_into : Copy M (ListStruct M)
  list_into = items_into D object_into paths paths_of

  unfoldable pub deep_copy_spec : Copy M (Option PathSpecStruct)
  deep_copy_spec = nil_or spec_into

  unfoldable pub deep_copy_status : Copy M (Option StatusStruct)
  deep_copy_status = nil_or status_into

  unfoldable pub deep_copy : Copy M (Option (PathStruct M))
  deep_copy = nil_or object_into

  unfoldable pub deep_copy_list : Copy M (Option (ListStruct M))
  deep_copy_list = nil_or list_into

  unfoldable pub deep_copy_object :
      Option (PathStruct M) → Heap M → Option (RuntimeObject M) × Heap M
  deep_copy_object p h = as_object path_object (deep_copy p h)

  unfoldable pub deep_copy_list_object :
      Option (ListStruct M) → Heap M → Option (RuntimeObject M) × Heap M
  deep_copy_list_object l h = as_object path_list_object (deep_copy_list l h)

module _ {M : Metav1} (D : Vendor M) (V : IsVendor D) where
  abbrev pub spec_shape : Shape M PathSpecStruct
  spec_shape =
      via (λ s. ((s.policy_ref, s.destination_cidr, s.next_hop_ip), s.hop_fields))
        (pair (plain (Bytes × Bytes × Bytes)) (cell octets_of))

  spec-IsDeep : IsDeep spec_shape (spec_into D)
  unfolding spec_into
  spec-IsDeep s h w =
      let c =
        pair-IsDeep (plain (Bytes × Bytes × Bytes)) (cell octets_of) (λ x k. (x, k))
          (cell_into octets octets_of) (plain-IsDeep (Bytes × Bytes × Bytes))
          (cell-IsDeep octets_of octets (λ v. refl))
          ((s.policy_ref, s.destination_cidr, s.next_hop_ip), s.hop_fields) h w in
      record { grows = c.grows; kept = c.kept; same = c.same; fresh = c.fresh }

  -- What a list of computed paths is worth.
  abbrev pub paths_shape : Shape M (ListStruct M)
  paths_shape = list_shape D V (object_shape D V spec_shape) paths paths_of

  -- If the copies that metav1 makes are deep: `DeepCopyObject` of a list of computed paths whose
  -- pointers are all in use gives a list that is worth the same, and neither list sees what is
  -- later written through the other.
  pub computed_path_list-Independent :
      (l : ListStruct M) (h : Heap M)
      → paths_shape.Within (Old h) l h
      → (c : ListStruct M) × (h' : Heap M) × (deep_copy_list_object D (some l) h
          ≡ (some (path_list_object c), h'))
        × Independent paths_shape l h (c, h')
  unfolding deep_copy_list_object deep_copy_list nil_or list_into object_into status_into
  computed_path_list-Independent l h w = (
    (list_into D l h).0,
    (list_into D l h).1,
    refl,
    deep-Independent paths_shape (list_into D)
        (items-IsDeep D V (object_shape D V spec_shape) paths paths_of (object_into D) (λ m. refl)
          (fields-IsDeep D V spec_shape (spec_into D) (status_into D) spec-IsDeep
            (conditions-IsDeep D V)))
        l h w,
  )
