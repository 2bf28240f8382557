-- ===== src/Graph/Index.antt =====
-- mk_graph/index.rs, the indices of types and allocations.
pub mod Offsets
use stable_mir_json.Prelude.{
  ℕ, zero, suc, ◌+◌, ◌*◌, ◌/◌, ◌%◌, Bool, true, false, not, ◌&&◌, ◌||◌, Option, none, some, List,
  [], ◌∷◌, ◌++◌, map, txt, decimal, join, if◌then◌else◌, nat_beq, nat_eq, ltb, leb, Outcome, ok,
  ◌>>=◌, for_each, HashMap, get, insert, length, get_elem?,
}
use stable_mir_json.Mir.{
  Text, Ty, Mutability, AllocId, LayoutShape, FieldsShape, primitive_fields, union_fields,
  array_fields, arbitrary, Allocation, GlobalAlloc, memory, static_alloc, vtable, function,
}
use stable_mir_json.Compiler.{Compiler}
use stable_mir_json.Printer.Types.{
  TypeMetadata, primitive_type, enum_type, struct_type, union_type, array_type, ptr_type, ref_type,
  tuple_type, dyn_type, fun_type, void_type,
}
use stable_mir_json.Graph.Format.{Format}
use stable_mir_json.Graph.Bytes.{bytes_to_u64_le}

pub record LayoutInfo : Type 0 where
  pub size : ℕ
  pub align : ℕ
  pub field_offsets : List ℕ

-- `0..count` times the stride, where `i` elements are done.
unfoldable pub array_offsets : (stride i count : ℕ) → List ℕ
array_offsets stride i zero = []
array_offsets stride i (suc count) = (i * stride) ∷ array_offsets stride (i + 1) count

unfoldable pub shape_offsets : FieldsShape → List ℕ
unfolding array_offsets
shape_offsets primitive_fields = []
shape_offsets (union_fields n) = 0 ∷ []
shape_offsets (array_fields stride count) = array_offsets stride 0 count
shape_offsets (arbitrary offsets) = offsets

unfoldable pub from_shape : LayoutShape → LayoutInfo
unfolding shape_offsets
from_shape l = record { size = l.size; align = l.abi_align; field_offsets = shape_offsets l.fields }

pub record FieldInfo : Type 0 where
  pub ty : Ty
  pub offset : Option ℕ

pub record VariantInfo : Type 0 where
  pub discriminant : ℕ
  pub fields : List FieldInfo

pub data TypeKind : Type 0 where
  primitive_kind dyn_kind function_kind void_kind : TypeKind
  struct_kind union_kind : (fields : List FieldInfo) → TypeKind
  enum_kind : (variants : List VariantInfo) → TypeKind
  array_kind : (elem_ty : Ty) (len : Option ℕ) → TypeKind
  tuple_kind : (fields : List Ty) → TypeKind
  ptr_kind ref_kind : (pointee : Ty) (mutability : Mutability) → TypeKind

pub record TypeEntry : Type 0 where
  pub name : Text
  pub kind : TypeKind
  pub layout : Option LayoutInfo

abbrev pub map_layout : Option LayoutShape → Option LayoutInfo
unfolding from_shape
map_layout none = none
map_layout (some l) = some (from_shape l)

abbrev pub offset_at : Option LayoutInfo → ℕ → Option ℕ
offset_at none i = none
offset_at (some l) i = get_elem? l.field_offsets i

-- The fields from number `i` on.
unfoldable pub fields_from : Option LayoutInfo → ℕ → List Ty → List FieldInfo
fields_from layout i [] = []
fields_from layout i (t ∷ ts) =
    record { ty = t; offset = offset_at layout i } ∷ fields_from layout (i + 1) ts

unfoldable pub make_field_infos : List Ty → Option LayoutInfo → List FieldInfo
unfolding fields_from
make_field_infos fields layout = fields_from layout 0 fields

-- `discriminants.iter().zip(fields.iter())`, the fields without offsets.
variant_infos : List ℕ → List (List Ty) → List VariantInfo
variant_infos [] fields = []
variant_infos (d ∷ ds) [] = []
variant_infos (d ∷ ds) (ts ∷ fields) =
    record { discriminant = d; fields = map (λ t. record { ty = t; offset = none }) ts }
    ∷ variant_infos ds fields

abbrev pub TypeIndex : Type 0
TypeIndex = HashMap ℕ TypeEntry

abbrev pub and_then : Option ℕ → (ℕ → Option ℕ) → Option ℕ
and_then none f = none
and_then (some a) f = f a

module _ (c : Compiler) (fmt : Format) where
  abbrev pub entry : Text → TypeKind → Option LayoutShape → TypeEntry
  entry name kind layout = record { name = name; kind = kind; layout = map_layout layout }

  unfoldable pub from_metadata : TypeMetadata → Ty → TypeEntry
  unfolding make_field_infos variant_infos
  from_metadata (primitive_type rigid) ty = entry (fmt.rigid_ty rigid) primitive_kind none
  from_metadata (struct_type name def fields layout) ty =
      entry name (struct_kind (make_field_infos fields (map_layout layout))) layout
  from_metadata (enum_type name def discriminants fields layout) ty =
      entry name (enum_kind (variant_infos discriminants fields)) layout
  from_metadata (union_type name def fields layout) ty =
      entry name (union_kind (map (λ t. record { ty = t; offset = some 0 }) fields)) layout
  from_metadata (array_type elem_type size layout) ty =
      entry (fmt.ty ty) (array_kind elem_type (and_then size c.eval_target_usize)) layout
  from_metadata (tuple_type types layout) ty = entry (fmt.ty ty) (tuple_kind types) layout
  from_metadata (ptr_type pointee layout mutability) ty =
      entry (fmt.ty ty) (ptr_kind pointee mutability) layout
  from_metadata (ref_type pointee layout mutability) ty =
      entry (fmt.ty ty) (ref_kind pointee mutability) layout
  from_metadata (dyn_type name layout) ty = entry name dyn_kind layout
  from_metadata (fun_type name) ty = entry name function_kind none
  from_metadata void_type ty = entry (txt "()") void_kind none

  unfoldable pub add_types : TypeIndex → List (Ty × TypeMetadata) → TypeIndex
  unfolding from_metadata
  add_types index [] = index
  add_types index ((ty, metadata) ∷ types) =
      add_types (insert index ty (from_metadata metadata ty)) types

  unfoldable pub from_types : List (Ty × TypeMetadata) → TypeIndex
  unfolding add_types
  from_types = add_types []

  unfoldable pub get_name : TypeIndex → Ty → Text
  get_name types ty = elim (get types ty) [ some e ↦ e.name | none ↦ fmt.ty ty ]

abbrev pub get_layout : TypeIndex → Ty → Option LayoutInfo
get_layout types ty = elim (get types ty) [ some e ↦ e.layout | none ↦ none ]
