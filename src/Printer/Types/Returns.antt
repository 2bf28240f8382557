-- ===== src/Printer/Types/Returns.antt =====
-- When the metadata of a type exists, and what it carries.
use mathlib.Core.List.{flatten}
use stable_mir_json.Prelude.{
  ℕ, ◌≡◌, ◌≢◌, refl, Bool, true, false, Option, none, some, List, [], ◌∷◌, if◌then◌else◌, ok, panic,
  Panic, arith, inl, inr, Bool-cases, Option-cases,
}
use stable_mir_json.Mir.{
  Text, Ty, TyKind, primitive, str, never, dynamic, foreign_ty, pat, coroutine, coroutine_witness,
  alias, param, bound, adt, array, slice, raw_ptr, reference, tuple, fn_def, fn_ptr, closure,
  AdtKind, LayoutShape,
}
use stable_mir_json.Compiler.{Compiler}
use stable_mir_json.Printer.Prov.{pop_variant}
use stable_mir_json.Printer.Types.{
  TypeMetadata, primitive_type, enum_type, struct_type, union_type, array_type, ptr_type, ref_type,
  tuple_type, dyn_type, fun_type, void_type, single_variant, mk_type_metadata,
}

-- Types of values that a program can hold, other than coroutines and foreign or pattern types.
abbrev pub is_described : TyKind → Bool
is_described foreign_ty = false
is_described pat = false
is_described coroutine = false
is_described coroutine_witness = false
is_described alias = false
is_described param = false
is_described bound = false
is_described _ = true

-- What metadata carries of each sort, none where it has no place for it.
abbrev pub layout_of : TypeMetadata → Option (Option LayoutShape)
layout_of (primitive_type k) = none
layout_of (enum_type name def discriminants fields l) = some l
layout_of (struct_type name def fields l) = some l
layout_of (union_type name def fields l) = some l
layout_of (array_type elem size l) = some l
layout_of (ptr_type pointee l m) = some l
layout_of (ref_type pointee l m) = some l
layout_of (tuple_type types l) = some l
layout_of (dyn_type name l) = some l
layout_of (fun_type name) = none
layout_of void_type = none

abbrev pub parts_of : TypeMetadata → List Ty
parts_of (enum_type name def discriminants fields l) = flatten fields
parts_of (struct_type name def fields l) = fields
parts_of (union_type name def fields l) = fields
parts_of (array_type elem size l) = elem ∷ []
parts_of (ptr_type pointee l m) = pointee ∷ []
parts_of (ref_type pointee l m) = pointee ∷ []
parts_of (tuple_type types l) = types
parts_of _ = []

abbrev pub name_of : TypeMetadata → Option Text
name_of (enum_type name def discriminants fields l) = some name
name_of (struct_type name def fields l) = some name
name_of (union_type name def fields l) = some name
name_of (dyn_type name l) = some name
name_of (fun_type name) = some name
name_of _ = none

abbrev pub adt_kind_of : TypeMetadata → Option AdtKind
adt_kind_of (enum_type name def discriminants fields l) = some AdtKind.enum
adt_kind_of (struct_type name def fields l) = some AdtKind.struct
adt_kind_of (union_type name def fields l) = some AdtKind.union
adt_kind_of _ = none

-- Aggregates, pointers and trait objects.
abbrev pub has_layout : TyKind → Bool
has_layout (adt def args) = true
has_layout (array t n) = true
has_layout (slice t) = true
has_layout (raw_ptr p m) = true
has_layout (reference p m) = true
has_layout (tuple ts) = true
has_layout dynamic = true
has_layout _ = false

-- Structs, unions, enums, functions and trait objects.
abbrev pub is_named : TyKind → Bool
is_named (adt def args) = true
is_named (fn_def def args) = true
is_named (fn_ptr sig) = true
is_named (closure def args) = true
is_named dynamic = true
is_named _ = false

-- All fields of an enum, those of the last variant of a struct or a union.
abbrev adt_parts : AdtKind → List (List Ty) → List Ty
adt_parts AdtKind.enum variants = flatten variants
adt_parts _ variants = elim (pop_variant variants) [ none ↦ [] | some fields ↦ fields ]

module _ (c : Compiler) where
  -- The types that the code refuses: an array whose length is not evaluated, and a struct or a union
  -- without a variant.
  pub data IsRefused : TyKind → Type 0 where
    unevaluated_array : {t n : ℕ} → c.const_is_unevaluated n ≡ true → IsRefused (array t n)
    without_variant :
        {def args : ℕ}
        → c.adt_kind def ≢ AdtKind.enum
        → pop_variant (c.variant_fields def args) ≡ none
        → IsRefused (adt def args)

  -- The types that a type is directly made of.
  abbrev pub kind_parts : TyKind → List Ty
  kind_parts (adt def args) = adt_parts (c.adt_kind def) (c.variant_fields def args)
  kind_parts (array t n) = t ∷ []
  kind_parts (slice t) = t ∷ []
  kind_parts (raw_ptr p m) = p ∷ []
  kind_parts (reference p m) = p ∷ []
  kind_parts (tuple ts) = ts
  kind_parts _ = []

  abbrev pub kind_of_adt : TyKind → Option AdtKind
  kind_of_adt (adt def args) = some (c.adt_kind def)
  kind_of_adt _ = none

  -- The metadata has the layout, the parts and the name of the type, each if that kind of type has
  -- one, and tells structs, unions and enums apart.
  pub record IsMetadata (k : Ty) (t : TyKind) (layout : Option LayoutShape)
      (metadata : TypeMetadata) : Type 0 where
    pub laid_out : layout_of metadata ≡ (if has_layout t then some layout else none)
    pub parts : parts_of metadata ≡ kind_parts t
    pub named : name_of metadata ≡ (if is_named t then some (c.display k) else none)
    pub told_apart : adt_kind_of metadata ≡ kind_of_adt t

  -- The outcomes: none, metadata, or a panic.
  pub data HasOutcome (k : Ty) (t : TyKind) (layout : Option LayoutShape) : Type 0 where
    skipped :
        is_described t ≡ false → mk_type_metadata c k t layout ≡ ok none → HasOutcome k t layout
    described :
        (metadata : TypeMetadata)
        → is_described t ≡ true
        → mk_type_metadata c k t layout ≡ ok (some (k, metadata))
        → IsMetadata k t layout metadata
        → HasOutcome k t layout
    refused :
        (p : Panic) → IsRefused t → mk_type_metadata c k t layout ≡ panic p → HasOutcome k t layout

  adt_outcome :
      (k : Ty) (def args : ℕ) (layout : Option LayoutShape) (a : AdtKind)
      → c.adt_kind def ≡ a
      → HasOutcome k (adt def args) layout
  unfolding mk_type_metadata single_variant
  adt_outcome k def args layout AdtKind.enum e =
      described
        (enum_type (c.display k) def (c.adt_discriminants def) (c.variant_fields def args) layout)
        refl (rw e refl)
        (record {
          laid_out = refl;
          parts = rw (kind_parts, e) refl;
          named = refl;
          told_apart = rw (kind_of_adt, e) refl;
        })
  adt_outcome k def args layout AdtKind.struct e =
      elim (Option-cases (pop_variant (c.variant_fields def args))) [
        | inl gone ↦ refused Panic.unwrap_none (without_variant (λ enum. cc) gone) (ground arith)
        | inr (fields, f) ↦
            described (struct_type (c.display k) def fields layout) refl (ground arith) (record {
              laid_out = refl;
              parts = rw (kind_parts, e, adt_parts, f) refl;
              named = refl;
              told_apart = rw (kind_of_adt, e) refl;
            })
      ]
  adt_outcome k def args layout AdtKind.union e =
      elim (Option-cases (pop_variant (c.variant_fields def args))) [
        | inl gone ↦ refused Panic.unwrap_none (without_variant (λ enum. cc) gone) (ground arith)
        | inr (fields, f) ↦
            described (union_type (c.display k) def fields layout) refl (ground arith) (record {
              laid_out = refl;
              parts = rw (kind_parts, e, adt_parts, f) refl;
              named = refl;
              told_apart = rw (kind_of_adt, e) refl;
            })
      ]

  pub mk_type_metadata-HasOutcome :
      (k : Ty) (t : TyKind) (layout : Option LayoutShape) → HasOutcome k t layout
  unfolding mk_type_metadata
  mk_type_metadata-HasOutcome k (adt def args) layout =
      adt_outcome k def args layout (c.adt_kind def) refl
  mk_type_metadata-HasOutcome k (array t n) layout = elim (Bool-cases (c.const_is_unevaluated n)) [
    | inl stuck ↦ refused Panic.unevaluated_const (unevaluated_array stuck) (ground arith)
    | inr done ↦
        described (array_type t (some n) layout) refl (ground arith)
          (record { laid_out = refl; parts = refl; named = refl; told_apart = refl })
  ]
  mk_type_metadata-HasOutcome k (primitive int) layout =
      described (primitive_type (primitive int)) refl refl
        (record { laid_out = refl; parts = refl; named = refl; told_apart = refl })
  mk_type_metadata-HasOutcome k str layout =
      described (primitive_type str) refl refl
        (record { laid_out = refl; parts = refl; named = refl; told_apart = refl })
  mk_type_metadata-HasOutcome k (slice t) layout =
      described (array_type t none layout) refl refl
        (record { laid_out = refl; parts = refl; named = refl; told_apart = refl })
  mk_type_metadata-HasOutcome k (raw_ptr p m) layout =
      described (ptr_type p layout m) refl refl
        (record { laid_out = refl; parts = refl; named = refl; told_apart = refl })
  mk_type_metadata-HasOutcome k (reference p m) layout =
      described (ref_type p layout m) refl refl
        (record { laid_out = refl; parts = refl; named = refl; told_apart = refl })
  mk_type_metadata-HasOutcome k (tuple ts) layout =
      described (tuple_type ts layout) refl refl
        (record { laid_out = refl; parts = refl; named = refl; told_apart = refl })
  mk_type_metadata-HasOutcome k dynamic layout =
      described (dyn_type (c.display k) layout) refl refl
        (record { laid_out = refl; parts = refl; named = refl; told_apart = refl })
  mk_type_metadata-HasOutcome k (fn_def def args) layout =
      described (fun_type (c.display k)) refl refl
        (record { laid_out = refl; parts = refl; named = refl; told_apart = refl })
  mk_type_metadata-HasOutcome k (fn_ptr sig) layout =
      described (fun_type (c.display k)) refl refl
        (record { laid_out = refl; parts = refl; named = refl; told_apart = refl })
  mk_type_metadata-HasOutcome k (closure def args) layout =
      described (fun_type (c.display k)) refl refl
        (record { laid_out = refl; parts = refl; named = refl; told_apart = refl })
  mk_type_metadata-HasOutcome k never layout =
      described void_type refl refl
        (record { laid_out = refl; parts = refl; named = refl; told_apart = refl })
  mk_type_metadata-HasOutcome k foreign_ty layout = skipped refl refl
  mk_type_metadata-HasOutcome k pat layout = skipped refl refl
  mk_type_metadata-HasOutcome k coroutine layout = skipped refl refl
  mk_type_metadata-HasOutcome k coroutine_witness layout = skipped refl refl
  mk_type_metadata-HasOutcome k alias layout = skipped refl refl
  mk_type_metadata-HasOutcome k param layout = skipped refl refl
  mk_type_metadata-HasOutcome k bound layout = skipped refl refl
