-- ===== src/Tests/Sample.antt =====
-- A small crate, as the compiler would describe it. Its function `main` has a constant that points
-- to a pair of a number and a reference, calls a function, and mentions an unevaluated constant.
use stable_mir_json.Prelude.{ℕ, ◌+◌, true, false, none, some, List, [], ◌∷◌, nat_beq, if◌then◌else◌}
use stable_mir_json.Mir
use stable_mir_json.Mir.{
  Text, Ty, TyKind, primitive, tuple, reference, raw_ptr, fn_def, adt, never, FieldsShape,
  arbitrary, primitive_fields, LayoutShape, LayoutAnswer, shape, no_layout, Allocation, GlobalAlloc,
  memory, MirConst, allocated, zero_sized, unevaluated, Operand, constant, TerminatorKind, call,
  return, BasicBlock, Body, MonoItem, fn_item, Visit, mir_const, terminator, ty, AdtKind,
}
use stable_mir_json.Compiler.{Compiler}

-- 1: u64, 2: &u64, 3: (u64, &u64), 4: &(u64, &u64), 5 and 6: functions,
-- 7: struct Node { next: *mut Node }, 8: *mut Node, 9: PhantomData, 10: struct (PhantomData, &u64)
abbrev pub kind : Ty → TyKind
kind t =
    if nat_beq t 1
    then primitive true
    else if nat_beq t 2
    then reference 1 Mir.Mutability.not
    else if nat_beq t 3
    then tuple (1 ∷ 2 ∷ [])
    else if nat_beq t 4
    then reference 3 Mir.Mutability.not
    else if nat_beq t 5
    then fn_def 0 0
    else if nat_beq t 6
    then fn_def 1 0
    else if nat_beq t 7
    then adt 0 0
    else if nat_beq t 8
    then raw_ptr 7 Mir.Mutability.mut
    else if nat_beq t 9
    then adt 1 0
    else if nat_beq t 10
    then adt 2 0
    else never

abbrev pub offsets : Ty → List ℕ
offsets t =
    if nat_beq t 3
    then 0 ∷ 8 ∷ []
    else if nat_beq t 7
    then 0 ∷ []
    else if nat_beq t 10
    then 0 ∷ 0 ∷ []
    else []

abbrev pub fields : ℕ → List Ty
fields def = if nat_beq def 0 then 8 ∷ [] else if nat_beq def 2 then 9 ∷ 2 ∷ [] else []

abbrev pub pair_alloc : Allocation
pair_alloc = record { bytes = some 5 ∷ some 0 ∷ []; ptrs = (8, 1) ∷ [] }

abbrev pub number_alloc : Allocation
number_alloc = record { bytes = some 7 ∷ []; ptrs = [] }

abbrev pub main_visits : List Visit
main_visits =
    mir_const (record { kind = allocated (record { bytes = []; ptrs = (0, 0) ∷ [] }); ty = 4 })
    ∷ terminator (
        call (constant (record { kind = zero_sized; ty = 6 })) []
          (record { local = 0; projection = [] }) none Mir.UnwindAction.continue_unwind)
    ∷ mir_const (record { kind = unevaluated 0 0; ty = 1 })
    ∷ ty 3
    ∷ []

abbrev pub main_body : Body
main_body = record { blocks = []; local_decls = 3 ∷ [] }

abbrev pub sample : Compiler
sample = record {
  kind = kind;
  layout = λ t. shape (record { fields = arbitrary (offsets t); size = 16; abi_align = 8 });
  builtin_deref = elim [ reference p m ↦ some p | raw_ptr p m ↦ some p | _ ↦ none ];
  adt_kind = λ def. AdtKind.struct;
  is_box = λ def. false;
  variant_fields = λ def args. fields def ∷ [];
  children =
      λ t. elim (kind t) [ reference p m ↦ p ∷ [] | raw_ptr p m ↦ p ∷ [] | tuple ts ↦ ts | _ ↦ [] ];
  display = λ t. 84 ∷ (48 + t) ∷ [];
  const_is_unevaluated = λ n. false;
  eval_target_usize = λ n. some n;
  adt_discriminants = λ def. [];
  global_alloc = λ id. if nat_beq id 0 then memory pair_alloc else memory number_alloc;
  inst_ty = λ inst. if nat_beq inst 0 then 5 else 6;
  inst_name = λ inst. inst ∷ [];
  inst_def_id = λ inst. inst;
  inst_body = λ inst. if nat_beq inst 0 then some main_body else none;
  kind_repr = λ inst. inst ∷ [];
  kind_is_reify_shim = λ inst. false;
  is_empty_shim = λ inst. false;
  intrinsic_name = λ inst. none;
  mangled_name = λ inst. 95 ∷ inst ∷ [];
  fn_abi = λ inst. some (record { args = 1 ∷ []; ret = 2 });
  fn_ptr_abi = λ sig. record { args = []; ret = 1 };
  resolve = λ def args. some def;
  resolve_for_fn_ptr = λ def args. some def;
  resolve_closure = λ def args. none;
  resolve_drop_in_place = λ t. 2;
  static_name = λ def. def ∷ [];
  eval_initializer = λ def. none;
  mono_instance = λ def. def;
  try_resolve = λ def args. some 2;
  symbol_name = elim [ fn_item inst ↦ 95 ∷ inst ∷ [] | _ ↦ [] ];
  asm_hash = λ asm. asm;
  asm_debug = λ asm. asm;
  mono_items = fn_item 0 ∷ fn_item 1 ∷ [];
  place_ty = λ locals place. some 1;
  operand_ty = λ locals op. some 6;
  visits = λ body. main_visits;
  resolve_span = λ sp. ([], sp, 0, sp, 1);
}
