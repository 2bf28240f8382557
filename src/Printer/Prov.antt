-- ===== src/Printer/Prov.antt =====
-- The search for the type behind a pointer inside an allocation: `field_for_offset`,
-- `field_containing_offset` and `get_prov_ty` of printer/mir_visitor.rs.
pub mod Field
pub mod Sound
pub mod Total
use stable_mir_json.Prelude.{
  ℕ, zero, suc, ◌+◌, ◌-◌, Bool, true, false, ◌&&◌, Option, none, some, List, [], ◌∷◌, Outcome, ok,
  panic, out_of_fuel, Panic, ltb, leb, nat_beq, get_elem?, if◌then◌else◌,
}
use stable_mir_json.Mir.{
  Ty, TyKind, AdtKind, adt, array, slice, raw_ptr, reference, tuple, FieldsShape, arbitrary,
  LayoutShape, LayoutAnswer, shape, no_layout, layout_panic,
}
use stable_mir_json.Compiler.{Compiler}

-- The loop of `field_containing_offset` over the start offsets, from index `i` on.
better : ℕ → ℕ → ℕ → Option (ℕ × ℕ) → Option (ℕ × ℕ)
better offset i start none = if leb start offset then some (i, start) else none
better offset i start (some (best_i, best_start)) =
    if leb start offset && ltb best_start start then some (i, start) else some (best_i, best_start)

scan_fields : ℕ → ℕ → Option (ℕ × ℕ) → List ℕ → Option (ℕ × ℕ)
unfolding better
scan_fields offset i best [] = best
scan_fields offset i best (start ∷ starts) =
    scan_fields offset (i + 1) (better offset i start best) starts

in_arbitrary : FieldsShape → ℕ → Option (ℕ × ℕ)
in_arbitrary (arbitrary offsets) offset = scan_fields offset 0 none offsets
in_arbitrary _ offset = none

unfoldable pub field_containing_offset : LayoutShape → ℕ → Option (ℕ × ℕ)
unfolding in_arbitrary scan_fields
field_containing_offset l offset = in_arbitrary l.fields offset

-- The first index whose start offset is the given one.
find_start : ℕ → ℕ → List ℕ → Option ℕ
find_start offset i [] = none
find_start offset i (start ∷ starts) =
    if nat_beq start offset then some i else find_start offset (i + 1) starts

unfoldable pub field_for_offset : LayoutShape → ℕ → Option ℕ
unfolding find_start
field_for_offset l offset = elim l.fields [
  | arbitrary offsets ↦ find_start offset 0 offsets
  | _ ↦ none
]

-- `variants().pop()`
unfoldable pub pop_variant : List (List Ty) → Option (List Ty)
pop_variant [] = none
pop_variant (v ∷ []) = some v
pop_variant (v ∷ w ∷ vs) = pop_variant (w ∷ vs)

-- `opaque_placeholder_ty()`
abbrev pub opaque_placeholder_ty : Ty
opaque_placeholder_ty = 0

module _ (c : Compiler) (rec : Ty → ℕ → Outcome (Option Ty)) where
  -- The search in the field that holds the offset, given the types of the fields.
  in_field : LayoutShape → ℕ → List Ty → Outcome (Option Ty)
  in_field l offset fields = elim (field_containing_offset l offset) [
    | none ↦ ok none
    | some (i, start) ↦ elim (get_elem? fields i) [
      | none ↦ ok none
      | some field_ty ↦
          if ltb offset start then panic Panic.usize_underflow else rec field_ty (offset - start)
    ]
  ]

  in_struct : LayoutShape → ℕ → List (List Ty) → Outcome (Option Ty)
  unfolding in_field
  in_struct l offset variants = elim (pop_variant variants) [
    | none ↦ ok none
    | some fields ↦ in_field l offset fields
  ]

  in_enum : LayoutShape → ℕ → Outcome (Option Ty)
  in_enum l offset = elim (field_for_offset l offset) [ none ↦ ok none | some i ↦ ok none ]

  in_adt : LayoutShape → ℕ → AdtKind → List (List Ty) → Outcome (Option Ty)
  unfolding in_struct in_enum
  in_adt l offset AdtKind.struct variants = in_struct l offset variants
  in_adt l offset AdtKind.enum variants = in_enum l offset
  in_adt l offset AdtKind.union variants = ok none

  -- The decomposition of a type that is no pointer, given its layout.
  in_kind : LayoutShape → ℕ → TyKind → Outcome (Option Ty)
  unfolding in_adt
  in_kind l offset (array elem n) = rec elem 0
  in_kind l offset (slice elem) = rec elem 0
  in_kind l offset (reference p m) = panic Panic.unreachable_code
  in_kind l offset (raw_ptr p m) = panic Panic.unreachable_code
  in_kind l offset (adt def args) =
      if c.is_box def
      then panic Panic.unreachable_code
      else in_adt l offset (c.adt_kind def) (c.variant_fields def args)
  in_kind l offset (tuple fields) = in_field l offset fields
  in_kind l offset _ = ok none

  in_layout : LayoutAnswer → ℕ → TyKind → Outcome (Option Ty)
  unfolding in_kind
  in_layout (shape l) offset k = in_kind l offset k
  in_layout no_layout offset k = ok none
  in_layout (layout_panic message) offset k = panic Panic.rustc_layout

  pub prov_step : Ty → ℕ → Outcome (Option Ty)
  unfolding in_layout
  prov_step ty offset = elim (c.builtin_deref (c.kind ty)) [
    | some pointee ↦ if nat_beq offset 0 then ok (some pointee) else ok none
    | none ↦ in_layout (c.layout ty) offset (c.kind ty)
  ]

module _ (c : Compiler) where
  -- The recursion descends into the fields; its fuel bounds the depth.
  unfoldable pub get_prov_ty : ℕ → Ty → ℕ → Outcome (Option Ty)
  unfolding prov_step
  get_prov_ty zero ty offset = out_of_fuel
  get_prov_ty (suc fuel) ty offset = prov_step c (get_prov_ty fuel) ty offset
