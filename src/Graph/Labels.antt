-- ===== src/Graph/Labels.antt =====
-- mk_graph/util.rs, the labels of places, operands and rvalues.
use mathlib.Core.List.{foldl}
use stable_mir_json.Prelude.{true, List, [], ◌∷◌, ◌++◌, map, txt, decimal, join, if◌then◌else◌}
use stable_mir_json.Mir.{
  Text, Ty, TyKind, primitive, Mutability, ProjectionElem, deref, field, index, constant_index,
  subslice, downcast, opaque_cast, subtype, Place, Operand, copy, move, constant, AggregateKind,
  array_aggregate, tuple_aggregate, adt_aggregate, closure_aggregate, coroutine_aggregate,
  raw_ptr_aggregate, Rvalue, address_of, aggregate, binary_op, cast, checked_binary_op,
  copy_for_deref, discriminant, len, ref, repeat, shallow_init_box, thread_local_ref, nullary_op,
  unary_op, use_op, NullOp, offset_of, other_null_op, mut_borrow, other_borrow,
  NonDivergingIntrinsic, assume, copy_non_overlapping,
}
use stable_mir_json.Compiler.{Compiler}
use stable_mir_json.Graph.Format.{Format}

-- `f(a)` and `f(a, b)`
abbrev pub call_text : Text → List Text → Text
call_text f args = f ++ (txt "(" ++ (join (txt ", ") args ++ txt ")"))

module _ (fmt : Format) where
  unfoldable pub decorate : Text → ProjectionElem → Text
  decorate thing deref = txt "(*" ++ (thing ++ txt ")")
  decorate thing (field i t) = thing ++ (txt "." ++ decimal i)
  decorate thing (index local) = thing ++ (txt "[_" ++ (decimal local ++ txt "]"))
  decorate thing (constant_index offset min_length from_end) =
      thing ++ (txt "[" ++ ((if from_end then txt "-" else []) ++ (decimal offset ++ txt "]")))
  decorate thing (subslice from to from_end) =
      thing
      ++ (txt "["
          ++ (decimal from
              ++ (txt ".." ++ ((if from_end then txt "-" else []) ++ (decimal to ++ txt "]")))))
  decorate thing (downcast i) = txt "(" ++ (thing ++ (txt " as variant " ++ (decimal i ++ txt ")")))
  decorate thing (opaque_cast t) = thing ++ (txt " as type " ++ fmt.ty t)
  decorate thing (subtype t) = thing ++ (txt " :> " ++ fmt.ty t)

  unfoldable pub project : Text → List ProjectionElem → Text
  unfolding decorate
  project = foldl decorate

  unfoldable pub place_label : Place → Text
  unfolding project
  place_label p = project (decimal p.local) p.projection

  unfoldable pub aggregate_label : AggregateKind → Text
  aggregate_label array_aggregate = txt "Array"
  aggregate_label tuple_aggregate = txt "Tuple"
  aggregate_label (adt_aggregate variant) = txt "Adt{" ++ (decimal variant ++ txt "}")
  aggregate_label closure_aggregate = txt "Closure"
  aggregate_label coroutine_aggregate = txt "Coroutine"
  aggregate_label (raw_ptr_aggregate t Mutability.mut) = txt "*mut (" ++ (fmt.ty t ++ txt ")")
  aggregate_label (raw_ptr_aggregate t Mutability.not) = txt "*(" ++ (fmt.ty t ++ txt ")")

  unfoldable pub null_op_label : NullOp → Text
  null_op_label offset_of = txt "OffsetOf(..)"
  null_op_label (other_null_op k) = fmt.null_op k

  -- The label of an rvalue, given that of its operands: `label` here and `render_rvalue` of
  -- mk_graph/context.rs differ in nothing else.
  unfoldable pub rvalue_text : (Operand → Text) → Rvalue → Text
  unfolding place_label aggregate_label null_op_label
  rvalue_text op (address_of Mutability.not p) = txt "&raw " ++ place_label p
  rvalue_text op (address_of Mutability.mut p) = txt "&raw mut " ++ place_label p
  rvalue_text op (aggregate kind operands) =
      aggregate_label kind ++ (txt " (" ++ (join (txt ", ") (map op operands) ++ txt ")"))
  rvalue_text op (binary_op k a b) = call_text (fmt.bin_op k) (op a ∷ op b ∷ [])
  rvalue_text op (cast kind a t) = txt "Cast-" ++ (fmt.cast_kind kind ++ (txt " " ++ op a))
  rvalue_text op (checked_binary_op k a b) =
      call_text (txt "chkd-" ++ fmt.bin_op k) (op a ∷ op b ∷ [])
  rvalue_text op (copy_for_deref p) = call_text (txt "CopyForDeref") (place_label p ∷ [])
  rvalue_text op (discriminant p) = call_text (txt "Discriminant") (place_label p ∷ [])
  rvalue_text op (len p) = call_text (txt "Len") (place_label p ∷ [])
  rvalue_text op (ref mut_borrow p) = txt "&mut " ++ place_label p
  rvalue_text op (ref other_borrow p) = txt "& " ++ place_label p
  rvalue_text op (repeat a) = txt "Repeat " ++ op a
  rvalue_text op (shallow_init_box a) = call_text (txt "ShallowInitBox") (op a ∷ [])
  rvalue_text op thread_local_ref = txt "ThreadLocalRef"
  rvalue_text op (nullary_op k t) = null_op_label k ++ (txt " :: " ++ fmt.ty t)
  rvalue_text op (unary_op k a) = call_text (fmt.un_op k) (op a ∷ [])
  rvalue_text op (use_op a) = call_text (txt "Use") (op a ∷ [])

  module _ (c : Compiler) where
    const_label : Ty → TyKind → Text
    const_label t (primitive true) = txt "const ?_" ++ fmt.ty t
    const_label t _ = txt "const " ++ fmt.ty t

    unfoldable pub operand_label : Operand → Text
    unfolding const_label place_label
    operand_label (constant k) = const_label k.ty (c.kind k.ty)
    operand_label (copy p) = call_text (txt "cp") (place_label p ∷ [])
    operand_label (move p) = call_text (txt "mv") (place_label p ∷ [])

    unfoldable pub rvalue_label : Rvalue → Text
    unfolding rvalue_text operand_label
    rvalue_label = rvalue_text operand_label

    unfoldable pub intrinsic_label : NonDivergingIntrinsic → Text
    unfolding operand_label
    intrinsic_label (assume op) = txt "Assume " ++ operand_label op
    intrinsic_label (copy_non_overlapping dst src count) =
        txt "CopyNonOverlapping: "
        ++ (operand_label dst
            ++ (txt " <- "
                ++ (call_text (operand_label src) (operand_label count ∷ []) ++ txt ")")))
