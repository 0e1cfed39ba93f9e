-- ===== src/Copies/Objects.antt =====
-- Deep copies of a status, of an object and of a list of objects, whatever their spec.
use cilion.Base.{◌≡◌, refl, List}
use cilion.Copies.{
  Metav1, ObjectStruct, StatusStruct, ListStruct, Cell, conditions, conditions_of, Copy, slice_into,
  Vendor, conditions_into, fields_into, items_into,
}
use cilion.Copies.Shape.{Shape, IsDeep, plain, pair, via, pair_into, pair-IsDeep, plain-IsDeep}
use cilion.Copies.Slices.{slice, slice-IsDeep}
use cilion.Copies.Cells.{IsVendor}

module _ {M : Metav1} (D : Vendor M) (V : IsVendor D) where
  abbrev pub status_shape : Shape M StatusStruct
  status_shape = via (λ s. s.conditions) (slice V.condition conditions conditions_of)

  pub conditions-IsDeep : IsDeep status_shape (conditions_into D)
  unfolding conditions_into
  conditions-IsDeep s h w =
      let c =
        slice-IsDeep V.condition conditions conditions_of D.condition_into (λ l. refl)
          V.condition_deep s.conditions h w in
      record { grows = c.grows; kept = c.kept; same = c.same; fresh = c.fresh }

  module _ {Spec : Type 0} (spec : Shape M Spec) where
    abbrev pub object_shape : Shape M (ObjectStruct M Spec)
    object_shape =
        via (λ p. ((p.type_meta, p.object_meta), (p.spec, p.status)))
          (pair (pair (plain M.TypeMeta) V.object_meta) (pair spec status_shape))

    pub fields-IsDeep :
        (spec_into : Copy M Spec) (status_into : Copy M StatusStruct)
        → IsDeep spec spec_into
        → IsDeep status_shape status_into
        → IsDeep object_shape (fields_into D spec_into status_into)
    unfolding fields_into
    fields-IsDeep spec_into status_into ds dt p h w =
        let c =
          pair-IsDeep (pair (plain M.TypeMeta) V.object_meta) (pair spec status_shape)
            (pair_into (λ x k. (x, k)) D.object_meta_into) (pair_into spec_into status_into)
            (pair-IsDeep (plain M.TypeMeta) V.object_meta (λ x k. (x, k)) D.object_meta_into
              (plain-IsDeep M.TypeMeta) V.object_meta_deep)
            (pair-IsDeep spec status_shape spec_into status_into ds dt)
            ((p.type_meta, p.object_meta), (p.spec, p.status)) h w in
        record { grows = c.grows; kept = c.kept; same = c.same; fresh = c.fresh }

  module _ {X : Type 0} (object : Shape M X) (wrap : List X → Cell M)
      (opened : Cell M → List X) where
    abbrev pub list_shape : Shape M (ListStruct M)
    list_shape =
        via (λ l. ((l.type_meta, l.list_meta), l.items))
          (pair (pair (plain M.TypeMeta) V.list_meta) (slice object wrap opened))

    pub items-IsDeep :
        (object_into : Copy M X)
        → ((l : List X) → opened (wrap l) ≡ l)
        → IsDeep object object_into
        → IsDeep list_shape (items_into D object_into wrap opened)
    unfolding items_into
    items-IsDeep object_into back deep l h w =
        let c =
          pair-IsDeep (pair (plain M.TypeMeta) V.list_meta) (slice object wrap opened)
            (pair_into (λ x k. (x, k)) D.list_meta_into) (slice_into object_into wrap opened)
            (pair-IsDeep (plain M.TypeMeta) V.list_meta (λ x k. (x, k)) D.list_meta_into
              (plain-IsDeep M.TypeMeta) V.list_meta_deep)
            (slice-IsDeep object wrap opened object_into back deep)
            ((l.type_meta, l.list_meta), l.items) h w in
        record { grows = c.grows; kept = c.kept; same = c.same; fresh = c.fresh }
