-- ===== src/Graph/Index/Offsets.antt =====
-- The offsets of fields, from the layout to the index.
use stable_mir_json.Prelude.{
  ℕ, zero, suc, ◌+◌, ◌*◌, ◌<◌, ◌≡◌, refl, ◌∙◌, ap, Option, some, List, [], ◌∷◌, arith, get_elem?,
}
use stable_mir_json.Mir.{Ty, LayoutShape, arbitrary, array_fields}
use stable_mir_json.Graph.Index.{
  LayoutInfo, array_offsets, shape_offsets, from_shape, offset_at, fields_from, make_field_infos,
}

get_elem?-fields_from :
    (layout : Option LayoutInfo) (i j : ℕ) (ts : List Ty) (t : Ty)
    → get_elem? ts j ≡ some t
    → get_elem? (fields_from layout i ts) j
      ≡ some (record { ty = t; offset = offset_at layout (i + j) })
unfolding fields_from
get_elem?-fields_from layout i j [] t h = cc
get_elem?-fields_from layout i zero (u ∷ ts) t h =
    let same : u ≡ t = cc in let at : i + 0 ≡ i = omega arith in rw same (rw at refl)
get_elem?-fields_from layout i (suc j) (u ∷ ts) t h =
    let next : i + suc j ≡ (i + 1) + j = omega arith in
    rw next (get_elem?-fields_from layout (i + 1) j ts t h)

get_elem?-array_offsets :
    (stride i count j : ℕ)
    → j < count
    → get_elem? (array_offsets stride i count) j ≡ some ((i + j) * stride)
unfolding array_offsets
get_elem?-array_offsets stride i zero j h = absurd (omega arith)
get_elem?-array_offsets stride i (suc count) zero h = let at : i + 0 ≡ i = omega arith in rw at refl
get_elem?-array_offsets stride i (suc count) (suc j) h =
    let next : i + suc j ≡ (i + 1) + j = omega arith in
    rw next (get_elem?-array_offsets stride (i + 1) count j (omega arith))

-- Field `j` of a struct with field offsets gets its own type and the offset that the layout has for
-- field `j`.
pub make_field_infos-arbitrary :
    (l : LayoutShape) (offsets fields : List ℕ) (j t : ℕ)
    → l.fields ≡ arbitrary offsets
    → get_elem? fields j ≡ some t
    → get_elem? (make_field_infos fields (some (from_shape l))) j
      ≡ some (record { ty = t; offset = get_elem? offsets j })
unfolding make_field_infos from_shape shape_offsets
make_field_infos-arbitrary l offsets fields j t e h =
    let z : 0 + j ≡ j = omega arith in
    get_elem?-fields_from (some (from_shape l)) 0 j fields t h
    ∙ ap (λ (o : Option ℕ). some (record { ty = t; offset = o })) (rw e (rw z refl))

-- In an array layout the offset of each element is its number times the stride.
pub from_shape-array :
    (l : LayoutShape) (stride count j : ℕ)
    → l.fields ≡ array_fields stride count
    → j < count
    → get_elem? (from_shape l).field_offsets j ≡ some (j * stride)
unfolding from_shape shape_offsets
from_shape-array l stride count j e h =
    let z : 0 + j ≡ j = omega arith in rw e (rw z at (get_elem?-array_offsets stride 0 count j h))
