-- ===== src/Copies/Policies.antt =====
-- The deep copies of the path policies (zz_generated.deepcopy.go).
use cilion.Base.{◌≡◌, refl, Option, some}
use cilion.Copies.{
  Metav1, PolicyStruct, PolicySpecStruct, StatusStruct, ListStruct, policies, text, policies_of,
  text_of, Heap, Copy, cell_into, nil_or, conditions_into, fields_into, items_into, RuntimeObject,
  policy_object, policy_list_object, as_object, Vendor,
}
use cilion.Copies.Objects.{object_shape, list_shape, conditions-IsDeep, fields-IsDeep, items-IsDeep}
use cilion.Copies.Shape.{Shape, Old, IsDeep, pair, via, pair-IsDeep}
use cilion.Copies.Cells.{cell, cell-IsDeep, IsVendor, Independent, deep-Independent}

module _ {M : Metav1} (D : Vendor M) where
  unfoldable pub spec_into : Copy M (PolicySpecStruct M)
  spec_into spec h =
      let s = D.label_selector_into spec.pod_selector h in
      let p = cell_into text text_of spec.preference s.1 in
      (record spec { pod_selector = s.0; preference = p.0 }, p.1)

  unfoldable pub status_into : Copy M StatusStruct
  status_into = conditions_into D

  unfoldable pub object_into : Copy M (PolicyStruct M)
  object_into = fields_into D spec_into status_into

  unfoldable pub list_into : Copy M (ListStruct M)
  list_into = items_into D object_into policies policies_of

  unfoldable pub deep_copy_spec : Copy M (Option (PolicySpecStruct M))
  deep_copy_spec = nil_or spec_into

  unfoldable pub deep_copy_status : Copy M (Option StatusStruct)
  deep_copy_status = nil_or status_into

  unfoldable pub deep_copy : Copy M (Option (PolicyStruct M))
  deep_copy = nil_or object_into

  unfoldable pub deep_copy_list : Copy M (Option (ListStruct M))
  deep_copy_list = nil_or list_into

  unfoldable pub deep_copy_object :
      Option (PolicyStruct M) → Heap M → Option (RuntimeObject M) × Heap M
  deep_copy_object p h = as_object policy_object (deep_copy p h)

  unfoldable pub deep_copy_list_object :
      Option (ListStruct M) → Heap M → Option (RuntimeObject M) × Heap M
  deep_copy_list_object l h = as_object policy_list_object (deep_copy_list l h)

module _ {M : Metav1} (D : Vendor M) (V : IsVendor D) where
  abbrev pub spec_shape : Shape M (PolicySpecStruct M)
  spec_shape = via (λ s. (s.pod_selector, s.preference)) (pair V.label_selector (cell text_of))

  spec-IsDeep : IsDeep spec_shape (spec_into D)
  unfolding spec_into
  spec-IsDeep s h w =
      let c =
        pair-IsDeep V.label_selector (cell text_of) D.label_selector_into (cell_into text text_of)
          V.label_selector_deep (cell-IsDeep text_of text (λ v. refl))
          (s.pod_selector, s.preference) h w in
      record { grows = c.grows; kept = c.kept; same = c.same; fresh = c.fresh }

  -- What a list of path policies is worth.
  abbrev pub policies_shape : Shape M (ListStruct M)
  policies_shape = list_shape D V (object_shape D V spec_shape) policies policies_of

  -- If the copies that metav1 makes are deep: `DeepCopyObject` of a list of path policies whose
  -- pointers are all in use gives a list that is worth the same, and neither list sees what is
  -- later written through the other.
  pub path_policy_list-Independent :
      (l : ListStruct M) (h : Heap M)
      → policies_shape.Within (Old h) l h
      → (c : ListStruct M) × (h' : Heap M) × (deep_copy_list_object D (some l) h
          ≡ (some (policy_list_object c), h'))
        × Independent policies_shape l h (c, h')
  unfolding deep_copy_list_object deep_copy_list nil_or list_into object_into status_into
  path_policy_list-Independent l h w = (
    (list_into D l h).0,
    (list_into D l h).1,
    refl,
    deep-Independent policies_shape (list_into D)
        (items-IsDeep D V (object_shape D V spec_shape) policies policies_of (object_into D)
          (λ m. refl)
          (fields-IsDeep D V spec_shape (spec_into D) (status_into D) spec-IsDeep
            (conditions-IsDeep D V)))
        l h w,
  )
