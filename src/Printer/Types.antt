-- ===== src/Printer/Types.antt =====
-- printer/types.rs, and `TypeMetadata` of printer/schema.rs.
pub mod Returns
use stable_mir_json.Prelude.{
  ℕ, Bool, true, false, Option, none, some, List, [], ◌∷◌, if◌then◌else◌, Outcome, ok, panic, Panic,
  ◌>>=◌,
}
use stable_mir_json.Mir.{
  Text, Ty, AdtDef, GenericArgs, Mutability, TyKind, primitive, str, never, dynamic, foreign_ty,
  pat, coroutine, coroutine_witness, alias, param, bound, adt, array, slice, raw_ptr, reference,
  tuple, fn_def, fn_ptr, closure, AdtKind, LayoutShape,
}
use stable_mir_json.Compiler.{Compiler}
use stable_mir_json.Printer.Prov.{pop_variant}

pub data TypeMetadata : Type 0 where
  primitive_type : TyKind → TypeMetadata
  enum_type :
      (name : Text) (adt_def : AdtDef) (discriminants : List ℕ) (fields : List (List Ty))
      (layout : Option LayoutShape)
      → TypeMetadata
  struct_type union_type :
      (name : Text) (adt_def : AdtDef) (fields : List Ty) (layout : Option LayoutShape)
      → TypeMetadata
  array_type : (elem_type : Ty) (size : Option ℕ) (layout : Option LayoutShape) → TypeMetadata
  ptr_type ref_type :
      (pointee_type : Ty) (layout : Option LayoutShape) (mutability : Mutability) → TypeMetadata
  tuple_type : (types : List Ty) (layout : Option LayoutShape) → TypeMetadata
  dyn_type : (name : Text) (layout : Option LayoutShape) → TypeMetadata
  fun_type : Text → TypeMetadata
  void_type : TypeMetadata

-- `variants().pop().unwrap().fields()`
unfoldable pub single_variant : List (List Ty) → Outcome (List Ty)
single_variant variants = elim (pop_variant variants) [
  | none ↦ panic Panic.unwrap_none
  | some fields ↦ ok fields
]

module _ (c : Compiler) where
  adt_metadata :
      Text → AdtDef → AdtKind → List (List Ty) → Option LayoutShape → Outcome TypeMetadata
  unfolding single_variant
  adt_metadata name def AdtKind.enum variants layout =
      ok (enum_type name def (c.adt_discriminants def) variants layout)
  adt_metadata name def AdtKind.struct variants layout =
      single_variant variants >>= λ fields. ok (struct_type name def fields layout)
  adt_metadata name def AdtKind.union variants layout =
      single_variant variants >>= λ fields. ok (union_type name def fields layout)

  unfoldable pub mk_type_metadata :
      Ty → TyKind → Option LayoutShape → Outcome (Option (Ty × TypeMetadata))
  unfolding adt_metadata
  mk_type_metadata k (primitive int) layout = ok (some (k, primitive_type (primitive int)))
  mk_type_metadata k (adt def args) layout =
      adt_metadata (c.display k) def (c.adt_kind def) (c.variant_fields def args) layout
      >>= λ metadata. ok (some (k, metadata))
  mk_type_metadata k str layout = ok (some (k, primitive_type str))
  mk_type_metadata k (array elem_type ty_const) layout =
      if c.const_is_unevaluated ty_const
      then panic Panic.unevaluated_const
      else ok (some (k, array_type elem_type (some ty_const) layout))
  mk_type_metadata k (slice elem_type) layout = ok (some (k, array_type elem_type none layout))
  mk_type_metadata k (raw_ptr pointee_type mutability) layout =
      ok (some (k, ptr_type pointee_type layout mutability))
  mk_type_metadata k (reference pointee_type mutability) layout =
      ok (some (k, ref_type pointee_type layout mutability))
  mk_type_metadata k (tuple types) layout = ok (some (k, tuple_type types layout))
  mk_type_metadata k (fn_def def args) layout = ok (some (k, fun_type (c.display k)))
  mk_type_metadata k (fn_ptr sig) layout = ok (some (k, fun_type (c.display k)))
  mk_type_metadata k (closure def args) layout = ok (some (k, fun_type (c.display k)))
  mk_type_metadata k dynamic layout = ok (some (k, dyn_type (c.display k) layout))
  mk_type_metadata k never layout = ok (some (k, void_type))
  mk_type_metadata k foreign_ty layout = ok none
  mk_type_metadata k pat layout = ok none
  mk_type_metadata k coroutine layout = ok none
  mk_type_metadata k coroutine_witness layout = ok none
  mk_type_metadata k alias layout = ok none
  mk_type_metadata k param layout = ok none
  mk_type_metadata k bound layout = ok none
