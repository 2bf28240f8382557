-- ===== src/Graph/Context.antt =====
-- mk_graph/context.rs, the rendering with the indices at hand.
use stable_mir_json.Prelude.{
  ℕ, ◌≡◌, refl, Bool, true, false, Returned, Option, none, some, List, [], ◌∷◌, ◌++◌, map, txt,
  decimal, join, if◌then◌else◌, nat_eq, leb, Outcome, ok, ◌>>=◌, panic, out_of_fuel, HashMap, get,
  insert,
}
use stable_mir_json.Mir.{
  Text, Ty, Allocation, ConstantKind, allocated, ty_value, ty_other, zero_sized, param_const,
  unevaluated, MirConst, Operand, copy, move, constant, Rvalue, NonDivergingIntrinsic, assume,
  copy_non_overlapping, StatementKind, assign, fake_read, set_discriminant, deinit, storage_live,
  storage_dead, retag, place_mention, ascribe_user_type, coverage, const_eval_counter, nop,
  intrinsic, TerminatorKind, goto, switch_int, resume, abort, return, unreachable, drop, call,
  assert, inline_asm,
}
use stable_mir_json.Compiler.{Compiler}
use stable_mir_json.Printer.LinkMap.{is_fn_def}
use stable_mir_json.Printer.Schema.{LinkMapKey, FnSymType}
use stable_mir_json.Printer.Types.{TypeMetadata}
use stable_mir_json.Graph.Format.{Format}
use stable_mir_json.Graph.Labels.{place_label, call_text, rvalue_text, operand_label}
use stable_mir_json.Graph.Bytes.{bytes_to_u64_le}
use stable_mir_json.Graph.AllocIndex.Total.{fits_u64_returns}
use stable_mir_json.Graph.Names.{short_fn_name, function_string}
use stable_mir_json.Graph.Index.{TypeIndex, get_name, from_types}
use stable_mir_json.Graph.AllocIndex.{
  AllocInfo, from_alloc_infos, AllocEntry, describe, concrete, fits_u64, short_description,
}

pub record GraphContext : Type 0 where
  pub allocs : HashMap ℕ AllocEntry
  pub types : TypeIndex
  pub functions : HashMap Ty Text

function_names : HashMap Ty Text → List (LinkMapKey × FnSymType) → HashMap Ty Text
unfolding function_string
function_names m [] = m
function_names m ((k, v) ∷ functions) = function_names (insert m k.ty (function_string v)) functions

-- From the types, the allocations and the functions of a `SmirJson`.
unfoldable pub from_smir :
    Compiler
    → Format
    → List (Ty × TypeMetadata)
    → List AllocInfo
    → List (LinkMapKey × FnSymType)
    → Outcome GraphContext
unfolding function_names from_types from_alloc_infos
from_smir c fmt types allocs functions =
    let index = from_types c fmt types in
    from_alloc_infos c fmt allocs index >>= λ entries.
    ok (record { allocs = entries; types = index; functions = function_names [] functions })

-- The result of a conversion that is shown to return.
unfoldable pub returned : (m : Outcome ℕ) → Returned m → ℕ
returned (ok n) shown = n
returned (panic p) (n, shown) = absurd (cc)
returned out_of_fuel (n, shown) = absurd (cc)

-- The bytes of a constant without pointers. They are converted only under the test, `t` is its value,
-- and under it the conversion does not panic, which the definition has to show.
unfoldable pub inline_constant : Text → (bytes : List ℕ) (t : Bool) → fits_u64 bytes ≡ t → Text
unfolding returned
inline_constant ty_name bytes true fits =
    let n = returned (bytes_to_u64_le bytes) (fits_u64_returns bytes fits) in
    txt "const " ++ (decimal n ++ (txt "_" ++ ty_name))
inline_constant ty_name bytes false long = txt "const " ++ ty_name

-- `sort_by_key` on the ids.
unfoldable pub insert_entry : AllocEntry → List AllocEntry → List AllocEntry
insert_entry e [] = e ∷ []
insert_entry e (f ∷ es) =
    let rest = insert_entry e es in if leb e.alloc_id f.alloc_id then e ∷ f ∷ es else f ∷ rest

abbrev pub sort_entries : HashMap ℕ AllocEntry → List AllocEntry
unfolding insert_entry
sort_entries [] = []
sort_entries ((id, e) ∷ m) = insert_entry e (sort_entries m)

module _ (c : Compiler) (fmt : Format) (ctx : GraphContext) where
  render_allocated : Text → Allocation → Text
  unfolding inline_constant
  render_allocated ty_name alloc = elim alloc.ptrs [
    | ptr ∷ ptrs ↦
        txt "const ["
        ++ (join (txt ", ") (map (λ (offset, prov). describe ctx.allocs prov) alloc.ptrs)
            ++ txt "]")
    | [] ↦ let bytes = concrete alloc.bytes in inline_constant ty_name bytes (fits_u64 bytes) refl
  ]

  render_kind : Ty → Text → ConstantKind → Text
  unfolding render_allocated
  render_kind ty ty_name (allocated alloc) = render_allocated ty_name alloc
  render_kind ty ty_name zero_sized =
      if is_fn_def (c.kind ty)
      then (elim (get ctx.functions ty) [
        | some name ↦ txt "const fn " ++ short_fn_name name
        | none ↦ txt "const " ++ ty_name
      ])
      else txt "const " ++ ty_name
  render_kind ty ty_name ty_value = txt "const " ++ ty_name
  render_kind ty ty_name ty_other = txt "const " ++ ty_name
  render_kind ty ty_name (unevaluated def args) = txt "const unevaluated " ++ ty_name
  render_kind ty ty_name param_const = txt "const param " ++ ty_name

  unfoldable pub render_const : MirConst → Text
  unfolding render_kind
  render_const k = render_kind k.ty (get_name c fmt ctx.types k.ty) k.kind

  unfoldable pub render_operand : Operand → Text
  unfolding render_const place_label
  render_operand (constant k) = render_const k
  render_operand (copy p) = call_text (txt "cp") (place_label fmt p ∷ [])
  render_operand (move p) = call_text (txt "mv") (place_label fmt p ∷ [])

  unfoldable pub render_rvalue : Rvalue → Text
  unfolding rvalue_text render_operand
  render_rvalue = rvalue_text fmt render_operand

  unfoldable pub allocs_legend_lines : List Text
  allocs_legend_lines = txt "ALLOCS" ∷ map short_description (sort_entries ctx.allocs)

  unfoldable pub resolve_call_target : Operand → Option Text
  resolve_call_target (constant k) =
      if is_fn_def (c.kind k.ty) then get ctx.functions k.ty else none
  resolve_call_target (copy p) = none
  resolve_call_target (move p) = none

  unfoldable pub render_intrinsic : NonDivergingIntrinsic → Text
  unfolding render_operand
  render_intrinsic (assume op) = txt "Assume " ++ render_operand op
  render_intrinsic (copy_non_overlapping dst src count) =
      txt "CopyNonOverlapping: "
      ++ (operand_label fmt c dst
          ++ (txt " <- " ++ call_text (operand_label fmt c src) (render_operand count ∷ [])))

  unfoldable pub render_stmt : StatementKind → Text
  unfolding render_rvalue render_intrinsic place_label
  render_stmt (assign p v) = place_label fmt p ++ (txt " <- " ++ render_rvalue v)
  render_stmt (fake_read p) = txt "Fake-Read " ++ place_label fmt p
  render_stmt (set_discriminant p variant_index) =
      txt "set discriminant " ++ call_text (place_label fmt p) (decimal variant_index ∷ [])
  render_stmt (deinit p) = txt "Deinit " ++ place_label fmt p
  render_stmt (storage_live l) = txt "Storage Live _" ++ decimal l
  render_stmt (storage_dead l) = txt "Storage Dead _" ++ decimal l
  render_stmt (retag p) = txt "Retag " ++ place_label fmt p
  render_stmt (place_mention p) = txt "Mention " ++ place_label fmt p
  render_stmt (ascribe_user_type p base) =
      txt "Ascribe " ++ (place_label fmt p ++ (txt "." ++ decimal base))
  render_stmt coverage = txt "Coverage"
  render_stmt (intrinsic i) = txt "Intr: " ++ render_intrinsic i
  render_stmt const_eval_counter = txt "ConstEvalCounter"
  render_stmt nop = txt "Nop"

  abbrev pub callee : Option Text → Text
  callee none = txt "?"
  callee (some n) = short_fn_name n

  unfoldable pub render_terminator : TerminatorKind → Text
  unfolding render_operand resolve_call_target place_label short_fn_name
  render_terminator (goto target) = txt "Goto"
  render_terminator (switch_int discr branches otherwise) = txt "SwitchInt " ++ render_operand discr
  render_terminator resume = txt "Resume"
  render_terminator abort = txt "Abort"
  render_terminator return = txt "Return"
  render_terminator unreachable = txt "Unreachable"
  render_terminator (drop p target unwind) = txt "Drop " ++ place_label fmt p
  render_terminator (call func args destination target unwind) =
      place_label fmt destination
      ++ (txt " = " ++ call_text (callee (resolve_call_target func)) (map render_operand args))
  render_terminator (assert cond expected target unwind) =
      txt "Assert "
      ++ (render_operand cond ++ (txt " == " ++ (if expected then txt "true" else txt "false")))
  render_terminator (inline_asm destination unwind) = txt "InlineAsm"
