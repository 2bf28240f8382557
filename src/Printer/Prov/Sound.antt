-- ===== src/Printer/Prov/Sound.antt =====
-- `get_prov_ty` against a description of where the pointers of a type lie.
use stable_mir_json.Prelude.{
  ℕ, zero, suc, ◌+◌, ◌-◌, ◌≤◌, ◌≡◌, ◌⊎◌, refl, sym, ◌∙◌, ap, some, List, [], ◌∷◌, ok, arith,
  get_elem?, Option-cases, inl, inr,
}
use stable_mir_json.Mir.{
  Ty, TyKind, AdtKind, adt, array, slice, tuple, arbitrary, LayoutShape, LayoutAnswer, shape,
  AdtDef, GenericArgs,
}
use stable_mir_json.Compiler.{Compiler}
use stable_mir_json.Printer.Prov.{
  get_prov_ty, in_field, in_kind, in_layout, field_containing_offset, pop_variant,
}
use stable_mir_json.Printer.Prov.Field.{field_containing_offset-start}

module _ (c : Compiler) where
  -- The fields of a struct or a tuple, in source order, with their types.
  pub data HasFields (t : Ty) : List Ty → Type 0 where
    struct_fields :
        {def : AdtDef} {args : GenericArgs} {fields : List Ty}
        → c.kind t ≡ adt def args
        → c.adt_kind def ≡ AdtKind.struct
        → c.variant_fields def args ≡ fields ∷ []
        → HasFields t fields
    tuple_fields : {fields : List Ty} → c.kind t ≡ tuple fields → HasFields t fields

  -- Byte `offset` of a value of type `t` is the start of a pointer to a `p`: in the first element of
  -- an array or a slice, which lies at its start, or in a field.
  pub data PointsTo : Ty → ℕ → Ty → Type 0 where
    at_pointer : {t p : ℕ} → c.builtin_deref (c.kind t) ≡ some p → PointsTo t 0 p
    in_array :
        {t offset p elem n : ℕ}
        → c.kind t ≡ array elem n
        → PointsTo elem offset p
        → PointsTo t offset p
    in_slice :
        {t offset p elem : ℕ} → c.kind t ≡ slice elem → PointsTo elem offset p → PointsTo t offset p
    in_a_field :
        {t offset p start field_ty rest : ℕ} {fields offsets : List ℕ} (l : LayoutShape) (i : ℕ)
        → HasFields t fields
        → c.layout t ≡ shape l
        → l.fields ≡ arbitrary offsets
        → get_elem? offsets i ≡ some start
        → get_elem? fields i ≡ some field_ty
        → offset ≡ start + rest
        → PointsTo field_ty rest p
        → PointsTo t offset p

  -- A type that is an array or a slice, or has a field of such a type.
  pub data HasSequence : Ty → Type 0 where
    is_array : {t elem n : ℕ} → c.kind t ≡ array elem n → HasSequence t
    is_slice : {t elem : ℕ} → c.kind t ≡ slice elem → HasSequence t
    in_part :
        {t field_ty : ℕ} {fields : List ℕ} (i : ℕ)
        → HasFields t fields
        → get_elem? fields i ≡ some field_ty
        → HasSequence field_ty
        → HasSequence t

  -- There is a pointer to a `p`, at the offset unless an array or a slice is in the way.
  abbrev pub IsFound : Ty → ℕ → Ty → Type 0
  IsFound t offset p = (at : ℕ) × (at ≤ offset) × PointsTo t at p × ((at ≡ offset) ⊎ HasSequence t)

  -- A struct has one variant.
  abbrev pub SingleVariant : Type 0
  SingleVariant =
      (def : AdtDef) (args : GenericArgs)
      → c.adt_kind def ≡ AdtKind.struct
      → (fields : List Ty) × (c.variant_fields def args ≡ fields ∷ [])

  module _ (fuel : ℕ) (t offset p : ℕ) (l : LayoutShape) (at : c.layout t ≡ shape l) where
    in_field-PointsTo :
        ((u o : ℕ) → get_prov_ty c fuel u o ≡ ok (some p) → IsFound u o p)
        → (fields : List Ty) → HasFields t fields
        → in_field c (get_prov_ty c fuel) l offset fields ≡ ok (some p)
        → IsFound t offset p
    unfolding in_field
    in_field-PointsTo ih fields has h = elim (Option-cases (field_containing_offset l offset)) [
      | inl e ↦ absurd (ground arith)
      | inr ((i, start), e) ↦ elim (Option-cases (get_elem? fields i)) [
        | inl f ↦ absurd (ground arith)
        | inr (field_ty, f) ↦
            let (offsets, shaped, found, le) = field_containing_offset-start l offset i start e in
            let (o, below, points, where_) = ih field_ty (offset - start) (ground arith) in
            (
              start + o,
              omega arith,
              in_a_field l i has at shaped found f refl points,
              elim where_ [ inl exact ↦ inl (omega arith) | inr seq ↦ inr (in_part i has f seq) ],
            )
      ]
    ]

    in_kind-PointsTo :
        SingleVariant
        → ((u o : ℕ) → get_prov_ty c fuel u o ≡ ok (some p) → IsFound u o p)
        → (k : TyKind) → c.kind t ≡ k
        → in_kind c (get_prov_ty c fuel) l offset k ≡ ok (some p)
        → IsFound t offset p
    unfolding in_kind pop_variant
    in_kind-PointsTo single ih (array elem n) e h =
        let (o, below, points, where_) = ih elem 0 h in
        (o, omega arith, in_array e points, inr (is_array e))
    in_kind-PointsTo single ih (slice elem) e h =
        let (o, below, points, where_) = ih elem 0 h in
        (o, omega arith, in_slice e points, inr (is_slice e))
    in_kind-PointsTo single ih (tuple fields) e h = in_field-PointsTo ih fields (tuple_fields e) h
    in_kind-PointsTo single ih (adt def args) e h = by_kind (c.adt_kind def) refl
      where
        by_kind : (a : AdtKind) → c.adt_kind def ≡ a → IsFound t offset p
        by_kind AdtKind.struct f =
            let (fields, one) = single def args f in
            in_field-PointsTo ih fields (struct_fields e f one) (ground arith)
        by_kind _ f = absurd (ground arith)
    in_kind-PointsTo single ih _ e h = absurd (ground arith)

  -- If every struct has exactly one variant, a type that the search finds is the pointee of a pointer
  -- in the type, which lies at the offset unless the type has an array or a slice in it; with these
  -- the pointer may be one that lies before the offset, in a first element.
  pub get_prov_ty-PointsTo :
      SingleVariant
      → (fuel t offset p : ℕ) → get_prov_ty c fuel t offset ≡ ok (some p)
      → (at : ℕ) × (at ≤ offset) × PointsTo t at p × ((at ≡ offset) ⊎ HasSequence t)
  unfolding get_prov_ty
  get_prov_ty-PointsTo single zero t offset p h = cc
  get_prov_ty-PointsTo single (suc fuel) t offset p h =
      elim (Option-cases (c.builtin_deref (c.kind t))) [
        | inr (q, e) ↦
            let e' : q ≡ p = ground arith in
            let start : offset ≡ 0 = ground arith in
            (0, omega arith, at_pointer (e ∙ ap some e'), inl (sym start))
        | inl e ↦
            by_layout (λ u o. get_prov_ty-PointsTo single fuel u o p) (c.layout t) refl
              (ground arith)
      ]
    where
      by_layout :
          ((u o : ℕ) → get_prov_ty c fuel u o ≡ ok (some p) → IsFound u o p)
          → (a : LayoutAnswer) → c.layout t ≡ a
          → in_layout c (get_prov_ty c fuel) a offset (c.kind t) ≡ ok (some p)
          → IsFound t offset p
      by_layout ih (shape l) f k = in_kind-PointsTo fuel t offset p l f single ih (c.kind t) refl k
      by_layout ih _ f k = absurd (cc)
