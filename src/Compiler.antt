-- ===== src/Compiler.antt =====
-- What the program asks of rustc and of the `stable_mir` library, neither of which is part of the
-- repository: the answers to its queries, as functions on the interned values. Nothing is assumed
-- of them here; a theorem that relies on documented behaviour has it as a named hypothesis.
use stable_mir_json.Prelude.{ℕ, Bool, Option, List}
use stable_mir_json.Mir.{
  Text, Ty, AllocId, Instance, AdtDef, FnDef, ConstDef, GenericArgs, Span, AdtKind, TyKind,
  LayoutAnswer, Allocation, GlobalAlloc, Place, Operand, Body, MonoItem, Visit,
}

-- (file, lo_line, lo_col, hi_line, hi_col)
abbrev pub SourceData : Type 0
SourceData = Text × ℕ × ℕ × ℕ × ℕ

-- `FnAbi`: the types of the arguments and of the result.
pub record FnAbi : Type 0 where
  pub args : List Ty
  pub ret : Ty

pub record Compiler : Type 0 where
  -- types
  pub kind : Ty → TyKind
  pub layout : Ty → LayoutAnswer
  pub builtin_deref : TyKind → Option Ty
  pub adt_kind : AdtDef → AdtKind
  pub is_box : AdtDef → Bool
  -- the types of the fields of each variant, under the generic arguments
  pub variant_fields : AdtDef → GenericArgs → List (List Ty)
  -- the types that the library's `super_visit` of a type visits
  pub children : Ty → List Ty
  -- `Display` of a type
  pub display : Ty → Text
  -- of the length of an array: whether it is unevaluated, and its value if it has one
  pub const_is_unevaluated : ℕ → Bool
  pub eval_target_usize : ℕ → Option ℕ
  -- for each variant of an enum, from rustc's internal definition
  pub adt_discriminants : AdtDef → List ℕ
  -- allocations
  pub global_alloc : AllocId → GlobalAlloc
  -- instances
  pub inst_ty : Instance → Ty
  pub inst_name : Instance → Text
  pub inst_def_id : Instance → ℕ
  pub inst_body : Instance → Option Body
  pub kind_repr : Instance → Text
  pub kind_is_reify_shim : Instance → Bool
  pub is_empty_shim : Instance → Bool
  pub intrinsic_name : Instance → Option Text
  pub mangled_name : Instance → Text
  pub fn_abi : Instance → Option FnAbi
  pub fn_ptr_abi : ℕ → FnAbi
  pub resolve : FnDef → GenericArgs → Option Instance
  pub resolve_for_fn_ptr : FnDef → GenericArgs → Option Instance
  pub resolve_closure : ℕ → GenericArgs → Option Instance
  pub resolve_drop_in_place : Ty → Instance
  -- statics, constants and items
  pub static_name : ℕ → Text
  pub eval_initializer : ℕ → Option Allocation
  pub mono_instance : ℕ → Instance
  pub try_resolve : ConstDef → GenericArgs → Option Instance
  pub symbol_name : MonoItem → Text
  pub asm_hash : Text → Text
  pub asm_debug : Text → Text
  -- `mono_collect`: the items of all codegen units, in order
  pub mono_items : List MonoItem
  -- bodies
  pub place_ty : List Ty → Place → Option Ty
  pub operand_ty : List Ty → Operand → Option Ty
  pub visits : Body → List Visit
  pub resolve_span : Span → SourceData
