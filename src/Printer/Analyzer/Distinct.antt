-- ===== src/Printer/Analyzer/Distinct.antt =====
-- The maps that the analysis fills have each key once.
use stable_mir_json.Prelude.{
  ℕ, ◌≡◌, subst, true, false, ◌++◌, Option, none, some, List, [], ◌∷◌, Outcome, ok, ◌>>=◌,
  >>=-eq-ok, for_each, arith, Bool-cases, Option-cases, inl, inr, HasDistinctKeys, nat_eq,
}
use stable_mir_json.Mir.{
  Ty, Instance, AllocId, ConstantKind, allocated, zero_sized, unevaluated, Rvalue, cast,
  reify_fn_pointer, other_cast, MonoItem, fn_item, Visit, span, terminator, rvalue, mir_const, ty,
  Body,
}
use stable_mir_json.Compiler.{Compiler}
use stable_mir_json.Printer.Schema.{key_eq, fptr, term}
use stable_mir_json.Printer.LinkMap.{
  FnSymInfo, update_link_map, is_fn_def, fn_inst_for_ty, fn_inst_sym,
}
use stable_mir_json.Printer.LinkMap.Distinct.{update_link_map-HasDistinctKeys}
use stable_mir_json.Printer.Allocs.{collect_alloc}
use stable_mir_json.Printer.TyVisitor.{visit_ty}
use stable_mir_json.Printer.TyVisitor.Distinct.{visit_ty-IsDistinct}
use stable_mir_json.Printer.Items.{resolve_unevaluated_const}
use stable_mir_json.Printer.Analyzer.{
  Settings, Fuel, Collected, link, maybe_add_to_link_map, visit_terminator, visit_rvalue,
  visit_type, visit_fn_value, terminator_sym, unwrap_ty, expect_inst, visit_span, visit_alloc,
  visit_mir_const, visit, visit_body,
}

-- No key of the link map and no recorded type occurs twice.
pub record IsDistinct (s : Collected) : Type 0 where
  pub calls : HasDistinctKeys s.link_map
  pub types : HasDistinctKeys s.ty_visitor.types

abbrev Preserves : Outcome Collected → Collected → Type 0
Preserves m s = (t : Collected) → m ≡ ok t → IsDistinct s → IsDistinct t

-- Neither map changes.
unchanged :
    (s t : Collected)
    → s.link_map ≡ t.link_map
    → s.ty_visitor.types ≡ t.ty_visitor.types
    → IsDistinct s
    → IsDistinct t
unchanged s t calls types d = record {
  calls = subst HasDistinctKeys calls d.calls;
  types = subst HasDistinctKeys types d.types;
}

for_each-Preserves {ℓ} :
    {A : Type ℓ} (body : Collected → A → Outcome Collected)
    → ((a : A) (s : Collected) → Preserves (body s a) s)
    → (xs : List A) (s : Collected) → Preserves (for_each body s xs) s
unfolding for_each
for_each-Preserves body each [] s t h d = let same : s ≡ t = ground arith in subst IsDistinct same d
for_each-Preserves body each (a ∷ xs) s t h d =
    let (m, done, e) = >>=-eq-ok (body s a) (λ m. for_each body m xs) h in
    for_each-Preserves body each xs m t e (each a s m done d)

module _ (c : Compiler) (set : Settings) (fuel : Fuel) where
  link-Preserves :
      (s : Collected) (source : ℕ) (sym : Option FnSymInfo)
      → Preserves (link c set fuel s source sym) s
  unfolding link
  link-Preserves s source sym t h d =
      let (m, done, e) =
        >>=-eq-ok (update_link_map set.link_inst s.link_map sym source)
          (λ m. ok (record s { link_map = m })) h in
      let distinct =
        update_link_map-HasDistinctKeys set.link_inst s.link_map m sym source done d.calls in
      let same : record s { link_map = m } ≡ t = ground arith in
      subst IsDistinct same (record { calls = distinct; types = d.types })

  pub maybe_add_to_link_map-IsDistinct :
      (s t : Collected) (item : MonoItem)
      → maybe_add_to_link_map c set fuel s item ≡ ok t
      → IsDistinct s
      → IsDistinct t
  unfolding maybe_add_to_link_map
  maybe_add_to_link_map-IsDistinct s t (fn_item inst) h d = elim (Bool-cases set.link_items) [
    | inl on ↦ link-Preserves s _ _ t (rw on at h) d
    | inr off ↦ unchanged s t (ground arith) (ground arith) d
  ]
  maybe_add_to_link_map-IsDistinct s t _ h d = unchanged s t (ground arith) (ground arith) d

  visit_fn_value-Preserves : (u : Ty) (s : Collected) → Preserves (visit_fn_value c set fuel s u) s
  unfolding visit_fn_value
  visit_fn_value-Preserves u s t h d = elim (Bool-cases (is_fn_def (c.kind u))) [
    | inr other ↦ unchanged s t (ground arith) (ground arith) d
    | inl is ↦ elim (Option-cases (fn_inst_for_ty c u false)) [
      | inr (inst, e) ↦
          link-Preserves s fptr (fn_inst_sym c (some u) (some inst)) t (ground arith) d
      | inl e ↦ elim (Option-cases (fn_inst_for_ty c u true)) [
        | inr (inst, f) ↦
            link-Preserves s fptr (fn_inst_sym c (some u) (some inst)) t (ground arith) d
        | inl f ↦ unchanged s t (ground arith) (ground arith) d
      ]
    ]
  ]

  visit_alloc-Preserves :
      (u : Ty) (ptr : ℕ × AllocId) (s : Collected) → Preserves (visit_alloc c set fuel u s ptr) s
  unfolding visit_alloc
  visit_alloc-Preserves u (offset, id) s t h d =
      let (m, done, e) =
        >>=-eq-ok (collect_alloc c fuel.prov fuel.alloc s.visited_allocs u offset id)
          (λ m. ok (record s { visited_allocs = m })) h in
      unchanged s t (ground arith) (ground arith) d

  visit_mir_const-Preserves :
      (u : Ty) (k : ConstantKind) (s : Collected) → Preserves (visit_mir_const c set fuel s u k) s
  unfolding visit_mir_const
  visit_mir_const-Preserves u (allocated alloc) s t h d =
      for_each-Preserves (visit_alloc c set fuel u) (visit_alloc-Preserves u) alloc.ptrs s t h d
  visit_mir_const-Preserves u zero_sized s t h d = visit_fn_value-Preserves u s t h d
  visit_mir_const-Preserves u (unevaluated def args) s t h d =
      let (r, done, e) =
        >>=-eq-ok (resolve_unevaluated_const c def args)
          (λ (item, name). ok (record s {
            new_unevaluated =
                s.new_unevaluated
                ++ (record { const_def = def; item_name = name; mono_item = item } ∷ []);
          }))
          h in
      unchanged s t (ground arith) (ground arith) d
  visit_mir_const-Preserves u _ s t h d = unchanged s t (ground arith) (ground arith) d

  visit_rvalue-Preserves :
      (locals : List Ty) (r : Rvalue) (s : Collected)
      → Preserves (visit_rvalue c set fuel locals s r) s
  unfolding visit_rvalue
  visit_rvalue-Preserves locals (cast reify_fn_pointer op u) s t h d =
      let next = λ (inst : Instance). link c set fuel s fptr (fn_inst_sym c none (some inst)) in
      let (v, typed, e) =
        >>=-eq-ok (unwrap_ty c set fuel (c.operand_ty locals op))
          (λ v. expect_inst c set fuel (fn_inst_for_ty c v false) >>= next) h in
      let (inst, found, f) = >>=-eq-ok (expect_inst c set fuel (fn_inst_for_ty c v false)) next e in
      link-Preserves s fptr (fn_inst_sym c none (some inst)) t f d
  visit_rvalue-Preserves locals (cast (other_cast k) op u) s t h d =
      unchanged s t (ground arith) (ground arith) d
  visit_rvalue-Preserves locals _ s t h d = unchanged s t (ground arith) (ground arith) d

  visit_type-Preserves : (u : Ty) (s : Collected) → Preserves (visit_type c set fuel s u) s
  unfolding visit_type
  visit_type-Preserves u s t h d =
      let ((collector, flow), done, e) =
        >>=-eq-ok (visit_ty c fuel.types s.ty_visitor u)
          (λ (collector, flow). ok (record s { ty_visitor = collector })) h in
      let distinct =
        visit_ty-IsDistinct c fuel.types s.ty_visitor u (collector, flow) done d.types in
      let same : record s { ty_visitor = collector } ≡ t = ground arith in
      subst IsDistinct same (record { calls = d.calls; types = distinct })

  visit-Preserves :
      (locals : List Ty) (v : Visit) (s : Collected) → Preserves (visit c set fuel locals s v) s
  unfolding visit visit_terminator visit_span
  visit-Preserves locals (span sp) s t h d = unchanged s t (ground arith) (ground arith) d
  visit-Preserves locals (terminator k) s t h d =
      let (sym, done, e) =
        >>=-eq-ok (terminator_sym c set fuel locals k) (link c set fuel s term) h in
      link-Preserves s term sym t e d
  visit-Preserves locals (rvalue r) s t h d = visit_rvalue-Preserves locals r s t h d
  visit-Preserves locals (mir_const k) s t h d = visit_mir_const-Preserves k.ty k.kind s t h d
  visit-Preserves locals (ty u) s t h d = visit_type-Preserves u s t h d

  pub visit_body-IsDistinct :
      (locals : List Ty) (s t : Collected) (body : Body)
      → visit_body c set fuel locals s body ≡ ok t
      → IsDistinct s
      → IsDistinct t
  unfolding visit_body
  visit_body-IsDistinct locals s t body =
      for_each-Preserves (visit c set fuel locals) (visit-Preserves locals) (c.visits body) s t
