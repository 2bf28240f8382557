-- ===== src/Printer/Analyzer.antt =====
-- `BodyAnalyzer` of printer/mir_visitor.rs: what each visited part of a body adds to the results.
pub mod Keeps
pub mod Grows
pub mod Discovers
pub mod Ends
pub mod Distinct
use stable_mir_json.Prelude.{
  ℕ, Bool, true, false, Option, none, some, List, [], ◌∷◌, ◌++◌, Outcome, ok, panic, Panic, ◌>>=◌,
  for_each, HashMap, insert, nat_eq, if◌then◌else◌,
}
use stable_mir_json.Mir.{
  Text, Ty, AllocId, Instance, ConstDef, Span, Allocation, MirConst, ConstantKind, allocated,
  ty_value, ty_other, zero_sized, param_const, unevaluated, Operand, constant, TerminatorKind, call,
  drop, Rvalue, cast, reify_fn_pointer, MonoItem, fn_item, Visit, span, terminator, rvalue,
  mir_const, ty, Body,
}
use stable_mir_json.Compiler.{Compiler, SourceData}
use stable_mir_json.Printer.Schema.{LinkMap, item, term, fptr}
use stable_mir_json.Printer.LinkMap.{
  FnSymInfo, fn_inst_sym, fn_inst_for_ty, is_fn_def, update_link_map,
}
use stable_mir_json.Printer.Allocs.{AllocMap, collect_alloc}
use stable_mir_json.Printer.TyVisitor.{TyCollector, visit_ty, Flow}
use stable_mir_json.Printer.Items.{resolve_unevaluated_const}

-- The environment variables, each read once.
pub record Settings : Type 0 where
  pub link_items : Bool
  pub link_inst : Bool

-- Bounds on the depth of the three recursions.
pub record Fuel : Type 0 where
  pub prov : ℕ
  pub alloc : ℕ
  pub types : ℕ

pub record UnevalConstInfo : Type 0 where
  pub const_def : ConstDef
  pub item_name : Text
  pub mono_item : MonoItem

-- What `BodyAnalyzer` borrows mutably.
pub record Collected : Type 0 where
  pub link_map : LinkMap
  pub visited_allocs : AllocMap
  pub ty_visitor : TyCollector
  pub spans : HashMap Span SourceData
  pub new_unevaluated : List UnevalConstInfo

module _ (c : Compiler) (set : Settings) (fuel : Fuel) where
  -- `update_link_map(self.link_map, …)`
  pub link : Collected → ℕ → Option FnSymInfo → Outcome Collected
  link s source sym =
      update_link_map set.link_inst s.link_map sym source >>= λ m. ok (record s { link_map = m })

  -- `maybe_add_to_link_map`
  unfoldable pub maybe_add_to_link_map : Collected → MonoItem → Outcome Collected
  unfolding link
  maybe_add_to_link_map s (fn_item inst) =
      if set.link_items then link s item (fn_inst_sym c none (some inst)) else ok s
  maybe_add_to_link_map s _ = ok s

  pub visit_span : Collected → Span → Outcome Collected
  visit_span s sp = ok (record s { spans = insert s.spans sp (c.resolve_span sp) })

  -- `expect` on the resolution of an instance
  pub expect_inst : Option Instance → Outcome Instance
  expect_inst none = panic Panic.unwrap_none
  expect_inst (some inst) = ok inst

  pub unwrap_ty : Option Ty → Outcome Ty
  unwrap_ty none = panic Panic.unwrap_none
  unwrap_ty (some t) = ok t

  pub call_sym : MirConst → Outcome (Option FnSymInfo)
  unfolding expect_inst
  call_sym k = elim k.kind [
    | zero_sized ↦ expect_inst (fn_inst_for_ty c k.ty true) >>= λ inst.
        ok (fn_inst_sym c (some k.ty) (some inst))
    | _ ↦ ok none
  ]

  pub terminator_sym : List Ty → TerminatorKind → Outcome (Option FnSymInfo)
  unfolding call_sym unwrap_ty
  terminator_sym locals (call (constant k) args destination target unwind) = call_sym k
  terminator_sym locals (drop place target unwind) = unwrap_ty (c.place_ty locals place) >>= λ t.
      ok (fn_inst_sym c none (some (c.resolve_drop_in_place t)))
  terminator_sym locals _ = ok none

  pub visit_terminator : List Ty → Collected → TerminatorKind → Outcome Collected
  unfolding terminator_sym link
  visit_terminator locals s t = terminator_sym locals t >>= link s term

  pub visit_rvalue : List Ty → Collected → Rvalue → Outcome Collected
  unfolding link expect_inst unwrap_ty
  visit_rvalue locals s (cast reify_fn_pointer op t) = unwrap_ty (c.operand_ty locals op) >>= λ u.
      expect_inst (fn_inst_for_ty c u false) >>= λ inst.
      link s fptr (fn_inst_sym c none (some inst))
  visit_rvalue locals s _ = ok s

  -- The allocations that a constant points to.
  pub visit_alloc : Ty → Collected → ℕ × AllocId → Outcome Collected
  visit_alloc t s (offset, prov) =
      collect_alloc c fuel.prov fuel.alloc s.visited_allocs t offset prov >>= λ m.
      ok (record s { visited_allocs = m })

  -- A function item that is used as a value.
  pub visit_fn_value : Collected → Ty → Outcome Collected
  unfolding link
  visit_fn_value s t =
      if is_fn_def (c.kind t)
      then elim (fn_inst_for_ty c t false) [
        | some inst ↦ link s fptr (fn_inst_sym c (some t) (some inst))
        | none ↦ elim (fn_inst_for_ty c t true) [
          | some inst ↦ link s fptr (fn_inst_sym c (some t) (some inst))
          | none ↦ ok s
        ]
      ]
      else ok s

  pub visit_mir_const : Collected → Ty → ConstantKind → Outcome Collected
  unfolding visit_alloc visit_fn_value
  visit_mir_const s t (allocated alloc) = for_each (visit_alloc t) s alloc.ptrs
  visit_mir_const s t ty_value = panic Panic.ty_const_value
  visit_mir_const s t ty_other = ok s
  visit_mir_const s t zero_sized = visit_fn_value s t
  visit_mir_const s t param_const = ok s
  visit_mir_const s t (unevaluated def args) =
      resolve_unevaluated_const c def args >>= λ (item, name). ok (record s {
        new_unevaluated =
            s.new_unevaluated
            ++ (record { const_def = def; item_name = name; mono_item = item } ∷ []);
      })

  -- A break of the type visitor is not passed on.
  pub visit_type : Collected → Ty → Outcome Collected
  visit_type s t = visit_ty c fuel.types s.ty_visitor t >>= λ (collector, flow).
      ok (record s { ty_visitor = collector })

  unfoldable pub visit : List Ty → Collected → Visit → Outcome Collected
  unfolding visit_span visit_terminator visit_rvalue visit_mir_const visit_type
  visit locals s (span sp) = visit_span s sp
  visit locals s (terminator t) = visit_terminator locals s t
  visit locals s (rvalue r) = visit_rvalue locals s r
  visit locals s (mir_const k) = visit_mir_const s k.ty k.kind
  visit locals s (ty t) = visit_type s t

  -- `visit_body`
  unfoldable pub visit_body : List Ty → Collected → Body → Outcome Collected
  unfolding visit
  visit_body locals s body = for_each (visit locals) s (c.visits body)
