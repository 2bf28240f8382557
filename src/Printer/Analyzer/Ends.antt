-- ===== src/Printer/Analyzer/Ends.antt =====
-- The walk over a body ends.
use stable_mir_json.Prelude.{
  ℕ, suc, ◌+◌, ◌*◌, ◌≤◌, ◌<◌, ◌≡◌, true, false, Option, none, some, List, [], ◌∷◌, Ends, >>=-Ends,
  for_each-Ends, All, arith, Bool-cases, Option-cases, inl, inr, length,
}
use stable_mir_json.Mir.{
  Ty, AllocId, Instance, ConstantKind, allocated, ty_value, ty_other, zero_sized, param_const,
  unevaluated, TerminatorKind, Rvalue, cast, reify_fn_pointer, other_cast, MonoItem, fn_item, Visit,
  span, terminator, rvalue, mir_const, ty, Body, call, drop, constant, copy, move, MirConst,
}
use stable_mir_json.Compiler.{Compiler}
use stable_mir_json.Printer.LinkMap.{
  FnSymInfo, update_link_map, is_fn_def, fn_inst_for_ty, fn_inst_sym,
}
use stable_mir_json.Printer.LinkMap.Ends.{update_link_map-Ends}
use stable_mir_json.Printer.Schema.{item, term, fptr}
use stable_mir_json.Printer.Items.{resolve_unevaluated_const}
use stable_mir_json.Printer.TyVisitor.{TyCollector, contains, visit_ty}
use stable_mir_json.Printer.TyVisitor.Ends.{unseen, IsTyUniverse, IsStructureRank, visit_ty-Ends}
use stable_mir_json.Printer.Prov.Total.{IsSearchable}
use stable_mir_json.Printer.Allocs.{AllocMap}
use stable_mir_json.Printer.Allocs.Finite.{member, fresh, IsUniverse, collect_alloc-IsReached}
use stable_mir_json.Printer.Analyzer.{
  Settings, Fuel, Collected, visit, visit_body, visit_alloc, visit_mir_const, link,
  maybe_add_to_link_map, visit_terminator, visit_rvalue, visit_type, visit_fn_value, terminator_sym,
  call_sym, unwrap_ty, expect_inst, visit_span,
}

-- The allocations and the types that a visit leads to are in the lists.
abbrev pub StaysIn : List AllocId → List Ty → Visit → Type 0
StaysIn ids types (mir_const k) = elim k.kind [
  | allocated a ↦ (contains types k.ty ≡ true) × All (λ (offset, i). member ids i ≡ true) a.ptrs
  | _ ↦ Unit
]
StaysIn ids types (ty t) = contains types t ≡ true
StaysIn ids types _ = Unit

-- A crate with finitely many allocations and types: those of the lists, which hold all that the
-- bodies of its instances lead to. What a type is built from is of lower rank, up to `top`.
pub record IsFinite (c : Compiler) (ids : List AllocId) (types : List Ty) (rank : Ty → ℕ) (top : ℕ)
    : Type 0 where
  pub allocs : IsUniverse c ids
  pub tys : IsTyUniverse c types
  pub ranked : IsStructureRank c rank top
  pub bodies :
      (inst : Instance) (body : Body)
      → c.inst_body inst ≡ some body
      → All (StaysIn ids types) (c.visits body)

-- Fuel enough for the crate.
pub record IsEnough (c : Compiler) (ids : List AllocId) (types : List Ty) (top : ℕ) (fuel : Fuel)
    : Type 0 where
  pub prov : IsSearchable c (λ t. contains types t ≡ true) fuel.prov
  pub alloc : length ids < fuel.alloc
  pub visits : length types * suc top + top < fuel.types

fresh-length : (m : AllocMap) (ids : List AllocId) → fresh m ids ≤ length ids
unfolding fresh
fresh-length m [] = omega arith
fresh-length m (i ∷ ids) = ground (arith, fresh-length m ids)

unseen-length : (types : List Ty) (s : TyCollector) → unseen types s ≤ length types
unfolding unseen
unseen-length [] s = omega arith
unseen-length (t ∷ types) s = ground (arith, unseen-length types s)

budget : (u n k top fuel : ℕ) → u ≤ n → k ≤ top → n * suc top + top < fuel → u * suc top + k < fuel
budget u n k top fuel h low enough = grind arith

module _ (c : Compiler) (set : Settings) (fuel : Fuel) where
  link-Ends :
      (s : Collected) (source : ℕ) (sym : Option FnSymInfo) → Ends (link c set fuel s source sym)
  unfolding link
  link-Ends s source sym =
      >>=-Ends (update_link_map set.link_inst s.link_map sym source) _
        (update_link_map-Ends set.link_inst s.link_map sym source) (λ m e. λ f. cc)

  pub maybe_add_to_link_map-Ends :
      (s : Collected) (i : MonoItem) → Ends (maybe_add_to_link_map c set fuel s i)
  unfolding maybe_add_to_link_map
  maybe_add_to_link_map-Ends s (fn_item inst) = elim (Bool-cases set.link_items) [
    | inl on ↦ rw on (link-Ends s item (fn_inst_sym c none (some inst)))
    | inr off ↦ rw off (λ e. cc)
  ]
  maybe_add_to_link_map-Ends s _ = λ e. cc

  expect_inst-Ends : (o : Option Instance) → Ends (expect_inst c set fuel o)
  unfolding expect_inst
  expect_inst-Ends none = λ e. cc
  expect_inst-Ends (some inst) = λ e. cc

  unwrap_ty-Ends : (o : Option Ty) → Ends (unwrap_ty c set fuel o)
  unfolding unwrap_ty
  unwrap_ty-Ends none = λ e. cc
  unwrap_ty-Ends (some t) = λ e. cc

  visit_fn_value-Ends : (s : Collected) (t : Ty) → Ends (visit_fn_value c set fuel s t)
  unfolding visit_fn_value
  visit_fn_value-Ends s t = elim (Bool-cases (is_fn_def (c.kind t))) [
    | inr other ↦ rw other (λ e. cc)
    | inl is ↦ elim (Option-cases (fn_inst_for_ty c t false)) [
      | inr (inst, e) ↦ rw (is, e) (link-Ends s fptr (fn_inst_sym c (some t) (some inst)))
      | inl e ↦ elim (Option-cases (fn_inst_for_ty c t true)) [
        | inr (inst, f) ↦ rw (is, e, f) (link-Ends s fptr (fn_inst_sym c (some t) (some inst)))
        | inl f ↦ rw (is, e, f) (λ e. cc)
      ]
    ]
  ]

  terminator_sym-Ends :
      (locals : List Ty) (t : TerminatorKind) → Ends (terminator_sym c set fuel locals t)
  unfolding terminator_sym call_sym
  terminator_sym-Ends locals (call (constant k) args destination target unwind) = called k.kind
    where
      called :
          (kind : ConstantKind) → Ends (call_sym c set fuel (record { kind = kind; ty = k.ty }))
      called zero_sized =
          >>=-Ends (expect_inst c set fuel (fn_inst_for_ty c k.ty true)) _
            (expect_inst-Ends (fn_inst_for_ty c k.ty true)) (λ inst e. λ f. cc)
      called _ = λ e. cc
  terminator_sym-Ends locals (drop place target unwind) =
      >>=-Ends (unwrap_ty c set fuel (c.place_ty locals place)) _
        (unwrap_ty-Ends (c.place_ty locals place)) (λ t e. λ f. cc)
  terminator_sym-Ends locals (call (copy p) args destination target unwind) = λ e. cc
  terminator_sym-Ends locals (call (move p) args destination target unwind) = λ e. cc
  terminator_sym-Ends locals _ = λ e. cc

  visit_rvalue-Ends :
      (locals : List Ty) (s : Collected) (r : Rvalue) → Ends (visit_rvalue c set fuel locals s r)
  unfolding visit_rvalue
  visit_rvalue-Ends locals s (cast reify_fn_pointer op t) =
      >>=-Ends (unwrap_ty c set fuel (c.operand_ty locals op)) _
        (unwrap_ty-Ends (c.operand_ty locals op))
        (λ u e.
          >>=-Ends (expect_inst c set fuel (fn_inst_for_ty c u false)) _
            (expect_inst-Ends (fn_inst_for_ty c u false))
            (λ inst f. link-Ends s fptr (fn_inst_sym c none (some inst))))
  visit_rvalue-Ends locals s (cast (other_cast k) op t) = λ e. cc
  visit_rvalue-Ends locals s _ = λ e. cc

  resolve_unevaluated_const-Ends : (def args : ℕ) → Ends (resolve_unevaluated_const c def args)
  unfolding resolve_unevaluated_const
  resolve_unevaluated_const-Ends def args = elim (Option-cases (c.try_resolve def args)) [
    | inl gone ↦ rw (resolve_unevaluated_const, gone) (λ e. cc)
    | inr (inst, found) ↦ rw (resolve_unevaluated_const, found) (λ e. cc)
  ]

  module _ (ids : List AllocId) (types : List Ty) (rank : Ty → ℕ) (top : ℕ)
      (finite : IsFinite c ids types rank top) (enough : IsEnough c ids types top fuel) where
    visit_alloc-Ends :
        (t : Ty) (s : Collected) (ptr : ℕ × AllocId)
        → contains types t ≡ true
        → member ids (ptr.1) ≡ true
        → Ends (visit_alloc c set fuel t s ptr)
    unfolding visit_alloc
    visit_alloc-Ends t s (offset, id) known in_ids =
        elim (collect_alloc-IsReached c fuel.prov ids finite.allocs (λ t. contains types t ≡ true)
          enough.prov fuel.alloc s.visited_allocs t offset id known in_ids
          (omega (arith, fresh-length s.visited_allocs ids, enough.alloc))) [
            | inl (m, done, less) ↦ rw done (λ e. cc)
            | inr (stops, why) ↦ rw stops (λ e. cc)
          ]

    visit_mir_const-Ends :
        (s : Collected) (k : MirConst)
        → StaysIn ids types (mir_const k)
        → Ends (visit_mir_const c set fuel s k.ty k.kind)
    unfolding visit_mir_const
    visit_mir_const-Ends s k stays = by_kind k.kind stays
      where
        by_kind :
            (kind : ConstantKind)
            → StaysIn ids types (mir_const (record { kind = kind; ty = k.ty }))
            → Ends (visit_mir_const c set fuel s k.ty kind)
        by_kind (allocated a) stays =
            for_each-Ends (visit_alloc c set fuel k.ty) (λ s. Unit {0})
              (λ (offset, i). member ids i ≡ true)
              (λ s ptr i in_ids. visit_alloc-Ends k.ty s ptr stays.0 in_ids) (λ s t ptr i p e. tt)
              a.ptrs s tt stays.1
        by_kind zero_sized stays = visit_fn_value-Ends s k.ty
        by_kind (unevaluated def args) stays =
            >>=-Ends (resolve_unevaluated_const c def args) _
              (resolve_unevaluated_const-Ends def args) (λ found e. λ f. cc)
        by_kind ty_value stays = λ e. cc
        by_kind ty_other stays = λ e. cc
        by_kind param_const stays = λ e. cc

    visit_type-Ends :
        (s : Collected) (t : Ty) → contains types t ≡ true → Ends (visit_type c set fuel s t)
    unfolding visit_type
    visit_type-Ends s t in_types =
        >>=-Ends (visit_ty c fuel.types s.ty_visitor t) _
          (visit_ty-Ends c types finite.tys rank top finite.ranked fuel.types s.ty_visitor t
            in_types
            (budget (unseen types s.ty_visitor) (length types) (rank t) top fuel.types
              (unseen-length types s.ty_visitor) (finite.ranked.bounded t) enough.visits))
          (λ r e. λ f. cc)

    visit-Ends :
        (locals : List Ty) (s : Collected) (v : Visit)
        → StaysIn ids types v
        → Ends (visit c set fuel locals s v)
    unfolding visit visit_terminator visit_span
    visit-Ends locals s (span sp) stays = λ e. cc
    visit-Ends locals s (terminator t) stays =
        >>=-Ends (terminator_sym c set fuel locals t) _ (terminator_sym-Ends locals t)
          (λ sym e. link-Ends s term sym)
    visit-Ends locals s (rvalue r) stays = visit_rvalue-Ends locals s r
    visit-Ends locals s (mir_const k) stays = visit_mir_const-Ends s k stays
    visit-Ends locals s (ty t) stays = visit_type-Ends s t stays

    -- The walk over the body of an instance of a finite crate ends with enough fuel.
    pub visit_body-Ends :
        (locals : List Ty) (s : Collected) (inst : Instance) (body : Body)
        → c.inst_body inst ≡ some body
        → Ends (visit_body c set fuel locals s body)
    unfolding visit_body
    visit_body-Ends locals s inst body own =
        for_each-Ends (visit c set fuel locals) (λ s. Unit {0}) (StaysIn ids types)
          (λ s v i stays. visit-Ends locals s v stays) (λ s t v i p e. tt) (c.visits body) s tt
          (finite.bodies inst body own)
