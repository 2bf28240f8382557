-- ===== src/Printer/Analyzer/Keeps.antt =====
-- The visits that change neither the allocations nor the constants found.
use stable_mir_json.Prelude.{
  ℕ, ◌≡◌, true, false, Option, none, some, List, ok, ◌>>=◌, >>=-eq-ok, arith, Bool-cases,
  Option-cases, inl, inr,
}
use stable_mir_json.Mir.{
  Ty, Instance, TerminatorKind, Rvalue, cast, reify_fn_pointer, other_cast, Span, MonoItem, fn_item,
}
use stable_mir_json.Compiler.{Compiler}
use stable_mir_json.Printer.LinkMap.{
  FnSymInfo, update_link_map, is_fn_def, fn_inst_for_ty, fn_inst_sym,
}
use stable_mir_json.Printer.Schema.{fptr, term}
use stable_mir_json.Printer.TyVisitor.{visit_ty}
use stable_mir_json.Printer.Analyzer.{
  Settings, Fuel, Collected, link, maybe_add_to_link_map, visit_terminator, visit_rvalue,
  visit_type, visit_fn_value, terminator_sym, unwrap_ty, expect_inst, visit_span,
}

-- Between two states of the analysis neither changed.
abbrev pub Keeps : Collected → Collected → Type 0
Keeps s t = (s.visited_allocs ≡ t.visited_allocs) × (s.new_unevaluated ≡ t.new_unevaluated)

module _ (c : Compiler) (set : Settings) (fuel : Fuel) where
  pub link-Keeps :
      (s t : Collected) (source : ℕ) (sym : Option FnSymInfo)
      → link c set fuel s source sym ≡ ok t
      → Keeps s t
  unfolding link
  link-Keeps s t source sym h =
      let (m, done, e) =
        >>=-eq-ok (update_link_map set.link_inst s.link_map sym source)
          (λ m. ok (record s { link_map = m })) h in
      ground arith

  pub maybe_add_to_link_map-Keeps :
      (s t : Collected) (item : MonoItem)
      → maybe_add_to_link_map c set fuel s item ≡ ok t
      → Keeps s t
  unfolding maybe_add_to_link_map
  maybe_add_to_link_map-Keeps s t (fn_item inst) h = elim (Bool-cases set.link_items) [
    | inl on ↦ link-Keeps s t _ _ (rw on at h)
    | inr off ↦ ground arith
  ]
  maybe_add_to_link_map-Keeps s t _ h = ground arith

  pub visit_fn_value-Keeps :
      (u : Ty) (s t : Collected) → visit_fn_value c set fuel s u ≡ ok t → Keeps s t
  unfolding visit_fn_value
  visit_fn_value-Keeps u s t h = elim (Bool-cases (is_fn_def (c.kind u))) [
    | inr other ↦ ground arith
    | inl is ↦ elim (Option-cases (fn_inst_for_ty c u false)) [
      | inr (inst, e) ↦ link-Keeps s t fptr (fn_inst_sym c (some u) (some inst)) (ground arith)
      | inl e ↦ elim (Option-cases (fn_inst_for_ty c u true)) [
        | inr (inst, f) ↦ link-Keeps s t fptr (fn_inst_sym c (some u) (some inst)) (ground arith)
        | inl f ↦ ground arith
      ]
    ]
  ]

  pub visit_terminator-Keeps :
      (locals : List Ty) (s t : Collected) (k : TerminatorKind)
      → visit_terminator c set fuel locals s k ≡ ok t
      → Keeps s t
  unfolding visit_terminator
  visit_terminator-Keeps locals s t k h =
      let (sym, done, e) =
        >>=-eq-ok (terminator_sym c set fuel locals k) (link c set fuel s term) h in
      link-Keeps s t term sym e

  pub visit_rvalue-Keeps :
      (locals : List Ty) (s t : Collected) (r : Rvalue)
      → visit_rvalue c set fuel locals s r ≡ ok t
      → Keeps s t
  unfolding visit_rvalue
  visit_rvalue-Keeps locals s t (cast reify_fn_pointer op u) h =
      let next = λ (inst : Instance). link c set fuel s fptr (fn_inst_sym c none (some inst)) in
      let (v, typed, e) =
        >>=-eq-ok (unwrap_ty c set fuel (c.operand_ty locals op))
          (λ v. expect_inst c set fuel (fn_inst_for_ty c v false) >>= next) h in
      let (inst, found, f) = >>=-eq-ok (expect_inst c set fuel (fn_inst_for_ty c v false)) next e in
      link-Keeps s t fptr (fn_inst_sym c none (some inst)) f
  visit_rvalue-Keeps locals s t (cast (other_cast k) op u) h = ground arith
  visit_rvalue-Keeps locals s t _ h = ground arith

  pub visit_span-Keeps :
      (s t : Collected) (sp : Span) → visit_span c set fuel s sp ≡ ok t → Keeps s t
  unfolding visit_span
  visit_span-Keeps s t sp h = ground arith

  pub visit_type-Keeps : (s t : Collected) (u : Ty) → visit_type c set fuel s u ≡ ok t → Keeps s t
  unfolding visit_type
  visit_type-Keeps s t u h =
      let (r, done, e) =
        >>=-eq-ok (visit_ty c fuel.types s.ty_visitor u)
          (λ (collector, flow). ok (record s { ty_visitor = collector })) h in
      ground arith
