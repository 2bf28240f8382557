-- ===== src/Printer/TyVisitor.antt =====
-- printer/ty_visitor.rs: the collection of the reachable types with their layouts.
pub mod Visited
pub mod Closed
pub mod Ends
pub mod Distinct
use mathlib.Core.List.{flatten}
use stable_mir_json.Prelude.{
  ℕ, zero, suc, Bool, true, false, ◌||◌, Option, none, some, List, [], ◌∷◌, ◌++◌, Outcome, ok,
  panic, out_of_fuel, Panic, ◌>>=◌, HashMap, contains_key, insert, nat_beq, nat_eq, if◌then◌else◌,
}
use stable_mir_json.Mir.{
  Text, Ty, Instance, TyKind, closure, coroutine_witness, fn_def, fn_ptr, adt, LayoutShape, shape,
  no_layout, layout_panic,
}
use stable_mir_json.Compiler.{Compiler, FnAbi}

pub record TyCollector : Type 0 where
  pub types : HashMap Ty (TyKind × Option LayoutShape)
  pub layout_panics : List (Ty × Text)
  pub resolved : List Ty

abbrev pub empty : TyCollector
empty = record { types = []; layout_panics = []; resolved = [] }

-- `HashSet::contains`
abbrev pub contains : List Ty → Ty → Bool
contains [] t = false
contains (u ∷ us) t = if nat_beq u t then true else contains us t

-- `HashSet::insert`
abbrev pub add : List Ty → Ty → List Ty
add us t = if contains us t then us else t ∷ us

-- The type was recorded, or its signature was resolved.
abbrev pub seen : TyCollector → Ty → Bool
seen s t = contains_key s.types t || contains s.resolved t

pub data ControlFlow : Type 0 where
  continue_flow break_flow : ControlFlow

abbrev pub Flow : Type 0
Flow = TyCollector × ControlFlow

-- The `?` on a `ControlFlow`, and the matches on one: go on, or stop at a break.
abbrev pub and_then : (TyCollector → Outcome Flow) → Flow → Outcome Flow
and_then k (s, continue_flow) = k s
and_then k (s, break_flow) = ok (s, break_flow)

module _ (c : Compiler) where
  -- A panic of rustc's layout engine is caught by `try_layout_shape` and noted.
  layout_shape_or_record : TyCollector → Ty → TyCollector × Option LayoutShape
  layout_shape_or_record s t = elim (c.layout t) [
    | shape l ↦ (s, some l)
    | no_layout ↦ (s, none)
    | layout_panic message ↦
        (record s { layout_panics = s.layout_panics ++ ((t, message) ∷ []) }, none)
  ]

  pub record_type : TyCollector → Ty → TyCollector
  unfolding layout_shape_or_record
  record_type s t =
      let (s', layout) = layout_shape_or_record s t in
      record s' { types = insert s'.types t (c.kind t, layout) }

  abbrev mark_resolved : TyCollector → Ty → TyCollector
  mark_resolved s t = record s { resolved = add s.resolved t }

  -- The types of the arguments and of the result, which is visited last.
  abbrev pub inputs_outputs : FnAbi → List Ty
  inputs_outputs abi = abi.args ++ (abi.ret ∷ [])

  -- `variants().iter().flat_map(|v| v.fields())`
  abbrev pub adt_fields : ℕ → ℕ → List Ty
  adt_fields def args = flatten (c.variant_fields def args)

  module _ (rec : TyCollector → Ty → Outcome Flow) where
    -- The library's `super_visit` of a list: each element in turn, up to the first break.
    pub visit_list : TyCollector → List Ty → Outcome Flow
    visit_list s [] = ok (s, continue_flow)
    visit_list s (t ∷ ts) =
        let rest = λ (s' : TyCollector). visit_list s' ts in rec s t >>= and_then rest

    -- `visit_instance`, once the instance is resolved.
    visit_abi : TyCollector → FnAbi → Outcome Flow
    visit_abi s abi = visit_list s (inputs_outputs abi)

    visit_instance : TyCollector → Option Instance → Outcome Flow
    unfolding visit_abi
    visit_instance s none = panic Panic.unwrap_none
    visit_instance s (some inst) = elim (c.fn_abi inst) [
      | none ↦ panic Panic.unwrap_none
      | some abi ↦ visit_abi s abi
    ]

    visit_kind : TyCollector → Ty → TyKind → Outcome Flow
    unfolding visit_instance record_type
    visit_kind s t (closure def args) =
        visit_instance (mark_resolved s t) (c.resolve_closure def args)
        >>= and_then (λ s'. ok (record_type s' t, continue_flow))
    visit_kind s t coroutine_witness = ok (s, break_flow)
    visit_kind s t (fn_def def args) = visit_instance (mark_resolved s t) (c.resolve def args)
    visit_kind s t (fn_ptr sig) = visit_abi (mark_resolved s t) (c.fn_ptr_abi sig)
    visit_kind s t (adt def args) =
        visit_list s (c.children t)
        >>= and_then (λ s'. visit_list (record_type s' t) (adt_fields def args))
    visit_kind s t _ =
        visit_list s (c.children t) >>= and_then (λ s'. ok (record_type s' t, continue_flow))

  -- The fuel bounds the depth of the recursion.
  unfoldable pub visit_ty : ℕ → TyCollector → Ty → Outcome Flow
  unfolding visit_kind visit_list
  visit_ty zero s t = out_of_fuel
  visit_ty (suc fuel) s t =
      if seen s t then ok (s, continue_flow) else visit_kind (visit_ty fuel) s t (c.kind t)
