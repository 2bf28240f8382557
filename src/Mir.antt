-- ===== src/Mir.antt =====
-- The data of `stable_mir` that the code matches on, with the constructors and the fields that the
-- matches in printer/ and mk_graph/ name. Interned values (types, definitions, instances, spans,
-- allocation ids) are their indices; what the code asks of them is in `Compiler`.
use stable_mir_json.Prelude.{ℕ, Bool, Option, List}

-- Text is the list of its UTF-8 bytes.
abbrev pub Text : Type 0
Text = List ℕ

abbrev pub Ty : Type 0
Ty = ℕ

abbrev pub AllocId : Type 0
AllocId = ℕ

abbrev pub Instance : Type 0
Instance = ℕ

abbrev pub AdtDef : Type 0
AdtDef = ℕ

abbrev pub FnDef : Type 0
FnDef = ℕ

abbrev pub ConstDef : Type 0
ConstDef = ℕ

abbrev pub GenericArgs : Type 0
GenericArgs = ℕ

abbrev pub Span : Type 0
Span = ℕ

pub data Mutability : Type 0 where
  not mut : Mutability

pub data AdtKind : Type 0 where
  struct enum union : AdtKind

-- `TyKind::RigidTy` is flattened into its variants. `primitive` is any type for which
-- `is_primitive` holds but `str`, with the flag that it is `Int` or `Uint`.
pub data TyKind : Type 0 where
  primitive : Bool → TyKind
  str never dynamic foreign_ty pat coroutine coroutine_witness alias param bound : TyKind
  adt : AdtDef → GenericArgs → TyKind
  array : Ty → ℕ → TyKind
  slice : Ty → TyKind
  raw_ptr : Ty → Mutability → TyKind
  reference : Ty → Mutability → TyKind
  tuple : List Ty → TyKind
  fn_def : FnDef → GenericArgs → TyKind
  fn_ptr : ℕ → TyKind
  closure : ℕ → GenericArgs → TyKind

pub data FieldsShape : Type 0 where
  primitive_fields : FieldsShape
  union_fields : ℕ → FieldsShape
  array_fields : (stride count : ℕ) → FieldsShape
  arbitrary : (offsets : List ℕ) → FieldsShape

pub record LayoutShape : Type 0 where
  pub fields : FieldsShape
  pub size : ℕ
  pub abi_align : ℕ

-- The answer of `ty.layout()`: a shape, an error, or a panic inside rustc with its message.
pub data LayoutAnswer : Type 0 where
  shape : LayoutShape → LayoutAnswer
  no_layout : LayoutAnswer
  layout_panic : Text → LayoutAnswer

-- An allocation: bytes, some of them uninitialised, and the pointers in it by offset.
pub record Allocation : Type 0 where
  pub bytes : List (Option ℕ)
  pub ptrs : List (ℕ × AllocId)

pub data GlobalAlloc : Type 0 where
  memory : Allocation → GlobalAlloc
  static_alloc : ℕ → GlobalAlloc
  vtable : Ty → GlobalAlloc
  function : Instance → GlobalAlloc

pub data ProjectionElem : Type 0 where
  deref : ProjectionElem
  field : ℕ → Ty → ProjectionElem
  index : ℕ → ProjectionElem
  constant_index : (offset min_length : ℕ) (from_end : Bool) → ProjectionElem
  subslice : (from to : ℕ) (from_end : Bool) → ProjectionElem
  downcast : ℕ → ProjectionElem
  opaque_cast : Ty → ProjectionElem
  subtype : Ty → ProjectionElem

pub record Place : Type 0 where
  pub local : ℕ
  pub projection : List ProjectionElem

-- `ty_value` is `Ty` around `TyConstKind::Value`, `ty_other` around any other.
pub data ConstantKind : Type 0 where
  allocated : Allocation → ConstantKind
  ty_value ty_other zero_sized param_const : ConstantKind
  unevaluated : ConstDef → GenericArgs → ConstantKind

pub record MirConst : Type 0 where
  pub kind : ConstantKind
  pub ty : Ty

pub data Operand : Type 0 where
  copy : Place → Operand
  move : Place → Operand
  constant : MirConst → Operand

pub data UnwindAction : Type 0 where
  continue_unwind unreachable_unwind terminate_unwind : UnwindAction
  cleanup : ℕ → UnwindAction

pub data TerminatorKind : Type 0 where
  goto : (target : ℕ) → TerminatorKind
  switch_int : Operand → (branches : List (ℕ × ℕ)) (otherwise : ℕ) → TerminatorKind
  resume abort return unreachable : TerminatorKind
  drop : Place → (target : ℕ) (unwind : UnwindAction) → TerminatorKind
  call :
      Operand → List Operand → Place → (target : Option ℕ) (unwind : UnwindAction) → TerminatorKind
  assert : Operand → (expected : Bool) (target : ℕ) (unwind : UnwindAction) → TerminatorKind
  inline_asm : (destination : Option ℕ) (unwind : UnwindAction) → TerminatorKind

-- The operators and kinds that are printed by their derived `Debug` are numbered.
pub data CastKind : Type 0 where
  reify_fn_pointer : CastKind
  other_cast : ℕ → CastKind

pub data BorrowKind : Type 0 where
  mut_borrow other_borrow : BorrowKind

pub data AggregateKind : Type 0 where
  array_aggregate tuple_aggregate closure_aggregate coroutine_aggregate : AggregateKind
  adt_aggregate : (variant : ℕ) → AggregateKind
  raw_ptr_aggregate : Ty → Mutability → AggregateKind

pub data NullOp : Type 0 where
  offset_of : NullOp
  other_null_op : ℕ → NullOp

pub data Rvalue : Type 0 where
  address_of : Mutability → Place → Rvalue
  aggregate : AggregateKind → List Operand → Rvalue
  binary_op : ℕ → Operand → Operand → Rvalue
  cast : CastKind → Operand → Ty → Rvalue
  checked_binary_op : ℕ → Operand → Operand → Rvalue
  copy_for_deref : Place → Rvalue
  discriminant : Place → Rvalue
  len : Place → Rvalue
  ref : BorrowKind → Place → Rvalue
  repeat : Operand → Rvalue
  shallow_init_box : Operand → Rvalue
  thread_local_ref : Rvalue
  nullary_op : NullOp → Ty → Rvalue
  unary_op : ℕ → Operand → Rvalue
  use_op : Operand → Rvalue

pub data NonDivergingIntrinsic : Type 0 where
  assume : Operand → NonDivergingIntrinsic
  copy_non_overlapping : (dst src count : Operand) → NonDivergingIntrinsic

pub data StatementKind : Type 0 where
  assign : Place → Rvalue → StatementKind
  fake_read : Place → StatementKind
  set_discriminant : Place → (variant_index : ℕ) → StatementKind
  deinit : Place → StatementKind
  storage_live : ℕ → StatementKind
  storage_dead : ℕ → StatementKind
  retag : Place → StatementKind
  place_mention : Place → StatementKind
  ascribe_user_type : Place → (base : ℕ) → StatementKind
  coverage const_eval_counter nop : StatementKind
  intrinsic : NonDivergingIntrinsic → StatementKind

pub record BasicBlock : Type 0 where
  pub statements : List StatementKind
  pub terminator : TerminatorKind

pub record Body : Type 0 where
  pub blocks : List BasicBlock
  pub local_decls : List Ty

pub data MonoItem : Type 0 where
  fn_item : Instance → MonoItem
  static_item : ℕ → MonoItem
  global_asm : Text → MonoItem

-- A call of one of the methods that the visitors of the program override. The library's traversal
-- of a body calls them in a fixed order, a parent before what it contains.
pub data Visit : Type 0 where
  span : Span → Visit
  terminator : TerminatorKind → Visit
  rvalue : Rvalue → Visit
  mir_const : MirConst → Visit
  ty : Ty → Visit
