-- ===== src/Printer/Prov/Total.antt =====
-- `get_prov_ty` comes to an end, and what it may panic on is a layout.
use stable_mir_json.Prelude.{
  ℕ, zero, suc, ◌-◌, ◌<◌, ◌≡◌, ◌≢◌, refl, sym, ap, subst, ◌∙◌, ◌⊎◌, true, Option, none, some, List,
  Outcome, ok, panic, Panic, arith, get_elem?, Option-cases, Bool-cases, inl, inr, false, nat_beq,
}
use stable_mir_json.Mir.{
  Text, Ty, TyKind, AdtKind, adt, array, slice, raw_ptr, reference, tuple, LayoutShape,
  LayoutAnswer, shape, no_layout, layout_panic, AdtDef, GenericArgs, Mutability,
}
use stable_mir_json.Compiler.{Compiler}
use stable_mir_json.Printer.Prov.{
  get_prov_ty, in_field, in_kind, field_containing_offset, pop_variant,
}
use stable_mir_json.Printer.Prov.Field.{field_containing_offset-start}
use stable_mir_json.Printer.Prov.Sound.{
  HasFields, struct_fields, tuple_fields, SingleVariant, PointsTo, at_pointer, in_array, in_slice,
  in_a_field, get_prov_ty-PointsTo,
}

-- A value of the first type holds a value of the second.
pub data Contains (c : Compiler) (t u : Ty) : Type 0 where
  array_element : {n : ℕ} → c.kind t ≡ array u n → Contains c t u
  slice_element : c.kind t ≡ slice u → Contains c t u
  field_value :
      {fields : List Ty} (i : ℕ)
      → HasFields c t fields
      → get_elem? fields i ≡ some u
      → Contains c t u

-- What the code relies on: structs have one variant, and `builtin_deref(true)` dereferences
-- references, raw pointers and boxes.
pub record IsDocumented (c : Compiler) : Type 0 where
  pub single : SingleVariant c
  pub deref_reference :
      (t p : Ty) (m : Mutability) → c.kind t ≡ reference p m → c.builtin_deref (c.kind t) ≢ none
  pub deref_raw_ptr :
      (t p : Ty) (m : Mutability) → c.kind t ≡ raw_ptr p m → c.builtin_deref (c.kind t) ≢ none
  pub deref_box :
      (t : Ty) (def : AdtDef) (args : GenericArgs)
      → c.kind t ≡ adt def args
      → c.is_box def ≡ true
      → c.builtin_deref (c.kind t) ≢ none

-- Containment is well founded: a measure of types falls along it.
abbrev pub IsRank : Compiler → (Ty → ℕ) → Type 0
IsRank c rank = (t u : Ty) → Contains c t u → rank u < rank t

-- rustc panics on the layout of the type, or of one that a value of it holds.
pub data HasLayoutPanic (c : Compiler) : Ty → Type 0 where
  on_layout : {t : Ty} {message : Text} → c.layout t ≡ layout_panic message → HasLayoutPanic c t
  on_part : {t u : Ty} → Contains c t u → HasLayoutPanic c u → HasLayoutPanic c t

-- A search in a type returns, or panics on a layout.
abbrev pub IsSettled : Compiler → Ty → Outcome (Option Ty) → Type 0
IsSettled c t m =
    ((r : Option Ty) × (m ≡ ok r)) ⊎ ((m ≡ panic Panic.rustc_layout) × HasLayoutPanic c t)

-- The search goes on in a part.
in_part :
    (c : Compiler) (t u : Ty) (m m' : Outcome (Option Ty))
    → Contains c t u
    → m ≡ m'
    → IsSettled c u m'
    → IsSettled c t m
in_part c t u m m' part same settled = elim settled [
  | inl (r, done) ↦ inl (r, same ∙ done)
  | inr (stops, panics) ↦ inr (same ∙ stops, on_part part panics)
]

module _ (c : Compiler) (rank : Ty → ℕ) (ranked : IsRank c rank) (doc : IsDocumented c) where
  module _ (fuel : ℕ) (t offset : ℕ) (l : LayoutShape) (below : rank t < suc fuel) where
    in_field-IsSettled :
        ((u o : ℕ) → rank u < fuel → IsSettled c u (get_prov_ty c fuel u o))
        → (fields : List Ty) → HasFields c t fields
        → IsSettled c t (in_field c (get_prov_ty c fuel) l offset fields)
    unfolding in_field
    in_field-IsSettled ih fields has = elim (Option-cases (field_containing_offset l offset)) [
      | inl e ↦ inl (none, ground arith)
      | inr ((i, start), e) ↦ elim (Option-cases (get_elem? fields i)) [
        | inl f ↦ inl (none, ground arith)
        | inr (field_ty, f) ↦
            let (offsets, shaped, found, le) = field_containing_offset-start l offset i start e in
            let part = field_value i has f in
            let smaller = ranked t field_ty part in
            in_part c t field_ty (in_field c (get_prov_ty c fuel) l offset fields)
              (get_prov_ty c fuel field_ty (offset - start)) part (ground arith)
              (ih field_ty (offset - start) (omega arith))
      ]
    ]

    in_kind-IsSettled :
        ((u o : ℕ) → rank u < fuel → IsSettled c u (get_prov_ty c fuel u o))
        → c.builtin_deref (c.kind t) ≡ none
        → (k : TyKind) → c.kind t ≡ k
        → IsSettled c t (in_kind c (get_prov_ty c fuel) l offset k)
    unfolding in_kind pop_variant
    in_kind-IsSettled ih no_ptr (array elem n) e =
        let part = array_element e in
        let smaller = ranked t elem part in
        in_part c t elem (get_prov_ty c fuel elem 0) (get_prov_ty c fuel elem 0) part refl
          (ih elem 0 (omega arith))
    in_kind-IsSettled ih no_ptr (slice elem) e =
        let part = slice_element e in
        let smaller = ranked t elem part in
        in_part c t elem (get_prov_ty c fuel elem 0) (get_prov_ty c fuel elem 0) part refl
          (ih elem 0 (omega arith))
    in_kind-IsSettled ih no_ptr (tuple fields) e = in_field-IsSettled ih fields (tuple_fields e)
    in_kind-IsSettled ih no_ptr (reference p m) e = absurd (doc.deref_reference t p m e no_ptr)
    in_kind-IsSettled ih no_ptr (raw_ptr p m) e = absurd (doc.deref_raw_ptr t p m e no_ptr)
    in_kind-IsSettled ih no_ptr (adt def args) e = elim (Bool-cases (c.is_box def)) [
      | inl box ↦ absurd (doc.deref_box t def args e box no_ptr)
      | inr other ↦ by_kind other (c.adt_kind def) refl
    ]
      where
        by_kind :
            c.is_box def ≡ false
            → (a : AdtKind) → c.adt_kind def ≡ a
            → IsSettled c t (in_kind c (get_prov_ty c fuel) l offset (adt def args))
        by_kind other AdtKind.struct f =
            let (fields, one) = doc.single def args f in
            let goes : in_kind c (get_prov_ty c fuel) l offset (adt def args)
                ≡ in_field c (get_prov_ty c fuel) l offset fields =
              ground arith in
            subst (λ m. IsSettled c t m) (sym goes)
              (in_field-IsSettled ih fields (struct_fields e f one))
        by_kind other _ f = inl (none, ground arith)
    in_kind-IsSettled ih no_ptr _ e = inl (none, refl)

  -- If containment of types is well founded, structs have one variant, and references, raw pointers
  -- and boxes can be dereferenced, then with any fuel above the rank of the type the search returns,
  -- or it panics because rustc panics on the layout of the type or of one that its values hold.
  pub get_prov_ty-IsSettled :
      (fuel t offset : ℕ)
      → rank t < fuel
      → ((r : Option Ty) × (get_prov_ty c fuel t offset ≡ ok r))
        ⊎ ((get_prov_ty c fuel t offset ≡ panic Panic.rustc_layout) × HasLayoutPanic c t)
  unfolding get_prov_ty
  get_prov_ty-IsSettled zero t offset h = absurd (omega arith)
  get_prov_ty-IsSettled (suc fuel) t offset h = elim (Option-cases (c.builtin_deref (c.kind t))) [
    | inr (p, e) ↦ at_pointer p e
    | inl e ↦ by_layout e (get_prov_ty-IsSettled fuel) (c.layout t) refl
  ]
    where
      at_pointer :
          (p : Ty)
          → c.builtin_deref (c.kind t) ≡ some p
          → IsSettled c t (get_prov_ty c (suc fuel) t offset)
      at_pointer p e = elim (Bool-cases (nat_beq offset 0)) [
        | inl start ↦ inl (some p, ground arith)
        | inr inside ↦ inl (none, ground arith)
      ]

      by_layout :
          c.builtin_deref (c.kind t) ≡ none
          → ((u o : ℕ) → rank u < fuel → IsSettled c u (get_prov_ty c fuel u o))
          → (a : LayoutAnswer) → c.layout t ≡ a
          → IsSettled c t (get_prov_ty c (suc fuel) t offset)
      by_layout e ih (shape l) f =
          let goes : get_prov_ty c (suc fuel) t offset
              ≡ in_kind c (get_prov_ty c fuel) l offset (c.kind t) =
            ground arith in
          subst (λ m. IsSettled c t m) (sym goes)
            (in_kind-IsSettled fuel t offset l h ih e (c.kind t) refl)
      by_layout e ih no_layout f = inl (none, ground arith)
      by_layout e ih (layout_panic message) f = inr (ground arith, on_layout f)

-- The search comes to an end on the types of a family that is closed under what their values hold
-- and under pointees: their ranks are below the fuel.
pub record IsSearchable (c : Compiler) (Real : Ty → Type 0) (prov_fuel : ℕ) : Type 0 where
  pub documented : IsDocumented c
  pub rank : Ty → ℕ
  pub ranked : IsRank c rank
  pub below : (t : Ty) → Real t → rank t < prov_fuel
  pub parts : (t u : Ty) → Contains c t u → Real t → Real u
  pub pointees : (t p : Ty) → c.builtin_deref (c.kind t) ≡ some p → Real t → Real p

module _ (c : Compiler) (Real : Ty → Type 0) (prov_fuel : ℕ)
    (s : IsSearchable c Real prov_fuel) where
  PointsTo-Real : {t offset p : Ty} → PointsTo c t offset p → Real t → Real p
  PointsTo-Real (at_pointer e) real = s.pointees _ _ e real
  PointsTo-Real (in_array e points) real = PointsTo-Real points (s.parts _ _ (array_element e) real)
  PointsTo-Real (in_slice e points) real = PointsTo-Real points (s.parts _ _ (slice_element e) real)
  PointsTo-Real (in_a_field l i has e f o there split points) real =
      PointsTo-Real points (s.parts _ _ (field_value i has there) real)

  -- In the family the search returns, with a type of the family if with any, or panics on a layout.
  pub search-IsSettled :
      (t offset : ℕ)
      → Real t
      → ((r : Option Ty) × (get_prov_ty c prov_fuel t offset ≡ ok r)
          × ((p : Ty) → r ≡ some p → Real p))
        ⊎ ((get_prov_ty c prov_fuel t offset ≡ panic Panic.rustc_layout) × HasLayoutPanic c t)
  search-IsSettled t offset real =
      elim (get_prov_ty-IsSettled c s.rank s.ranked s.documented prov_fuel t offset
        (s.below t real)) [
          | inl (r, done) ↦ inl (
            r,
            done,
            λ p e.
                let (at, le, points, o) =
                  get_prov_ty-PointsTo c s.documented.single prov_fuel t offset p
                    (done ∙ ap ok e) in
                PointsTo-Real points real,
          )
          | inr (stops, why) ↦ inr (stops, why)
        ]
